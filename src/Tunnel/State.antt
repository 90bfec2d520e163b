-- ===== src/Tunnel/State.antt =====
-- `ssh::ServerState` (src/core/TunnelServerState.hpp) without the list of connections, which is in
-- `Tunnel.Listener`, and the constructor of `TunnelServerImpl` (src/core/TunnelServer.cpp). A member
-- that no constructor initialises is `none` until it is assigned; an error code is only logged.
use book_filer_module_ssh.Prelude.{
  ℕ, String, ℤ, to_u16, Option, none, some, [], str_eq, if◌then◌else◌,
}
use book_filer_module_ssh.Settings.{Bytes, Setting, int, double, string, Settings, for_each}
use book_filer_module_ssh.Asio.{AddressApi}

pub record ServerState (Address : Type 0) : Type 0 where
  pub source_port : Option ℕ  -- unsigned short
  pub dest_port : Option ℕ  -- unsigned short
  pub threads_num : Option ℤ
  pub source_port_int : Option ℤ
  pub dest_port_int : Option ℤ
  pub remote_port_int : Option ℤ
  pub source_address : Address
  pub dest_address : Address
  pub source_address_str : Bytes
  pub dest_address_str : Bytes
  pub remote_address_str : Bytes
  pub user_name_str : Bytes
  pub password_str : Bytes

module _ (api : AddressApi) where
  open api use {Address, unspecified, from_string}

  unfoldable pub new_server_state : ServerState Address
  new_server_state = record {
    source_port = none;
    dest_port = none;
    threads_num = none;
    source_port_int = none;
    dest_port_int = none;
    remote_port_int = none;
    source_address = unspecified;
    dest_address = unspecified;
    source_address_str = [];
    dest_address_str = [];
    remote_address_str = [];
    user_name_str = [];
    password_str = [];
  }

  set_int : ServerState Address → String → ℤ → ServerState Address
  set_int s key n =
      if str_eq key "sourcePort"
      then record s { source_port = some (to_u16 n) }
      else if str_eq key "destPort"
      then record s { dest_port_int = some n }
      else if str_eq key "remotePort"
      then record s { remote_port_int = some n }
      else s

  set_string : ServerState Address → String → Bytes → ServerState Address
  set_string s key t =
      if str_eq key "sourceAddress"
      then record s { source_address = (from_string t).0 }
      else if str_eq key "destAddress"
      then record s { dest_address_str = t }
      else if str_eq key "remoteAddress"
      then record s { remote_address_str = t }
      else if str_eq key "userName"
      then record s { user_name_str = t }
      else if str_eq key "password"
      then record s { password_str = t }
      else s

  -- The body of the constructor's loop.
  unfoldable pub set_entry : ServerState Address → String × Setting → ServerState Address
  unfolding set_int set_string
  set_entry s (key, int n) = set_int s key n
  set_entry s (key, double x) = s
  set_entry s (key, string t) = set_string s key t

  unfoldable pub configure : Settings → ServerState Address
  configure m = for_each set_entry new_server_state m
