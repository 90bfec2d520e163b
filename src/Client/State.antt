-- ===== src/Client/State.antt =====
-- `ClientState` (src/core/ClientState.hpp, ClientState.cpp) and the constructor of `ClientImpl`
-- (src/core/Client.cpp), which fills it in. A number that no constructor initialises is `none`
-- until it is assigned.
use book_filer_module_ssh.Prelude.{
  ℕ, String, ℤ, to_u16, Option, none, some, [], ◌∷◌, str_eq, if◌then◌else◌,
}
use book_filer_module_ssh.Settings.{Bytes, Setting, int, double, string, Settings, for_each}

pub record ClientState : Type 0 where
  pub port : Option ℕ  -- unsigned short
  pub src_port : Option ℤ
  pub remote_port : Option ℤ
  pub remote_bound_port : Option ℤ
  pub host_name : Bytes
  pub user_name : Bytes
  pub password : Bytes
  pub remote_host_name : Bytes
  pub src_host_name : Bytes

-- "127.0.0.1".
abbrev pub localhost : Bytes
localhost = b'1' ∷ b'2' ∷ b'7' ∷ b'.' ∷ b'0' ∷ b'.' ∷ b'0' ∷ b'.' ∷ b'1' ∷ []

unfoldable pub new_client_state : ClientState
new_client_state = record {
  port = none;
  src_port = none;
  remote_port = none;
  remote_bound_port = none;
  host_name = [];
  user_name = [];
  password = [];
  remote_host_name = localhost;
  src_host_name = localhost;
}

set_int : ClientState → String → ℤ → ClientState
set_int s key n =
    if str_eq key "port"
    then record s { port = some (to_u16 n) }
    else if str_eq key "remotePort"
    then record s { remote_port = some n }
    else if str_eq key "srcPort"
    then record s { src_port = some n }
    else s

set_string : ClientState → String → Bytes → ClientState
set_string s key t =
    if str_eq key "userName"
    then record s { user_name = t }
    else if str_eq key "password"
    then record s { password = t }
    else if str_eq key "hostName"
    then record s { host_name = t }
    else if str_eq key "remoteHostName"
    then record s { remote_host_name = t }
    else if str_eq key "srcHostName"
    then record s { src_host_name = t }
    else s

-- The body of the constructor's loop.
unfoldable pub set_entry : ClientState → String × Setting → ClientState
unfolding set_int set_string
set_entry s (key, int n) = set_int s key n
set_entry s (key, double x) = s
set_entry s (key, string t) = set_string s key t

unfoldable pub configure : Settings → ClientState
configure m = for_each set_entry new_client_state m
