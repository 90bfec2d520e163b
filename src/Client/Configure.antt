-- ===== src/Client/Configure.antt =====
-- What the constructor of `ClientImpl` makes of a map: each field by the lookup of its key.
use book_filer_module_ssh.Prelude.{String, none, [], ◌≡◌, refl, arith}
use book_filer_module_ssh.Settings.{
  Setting, int, double, string, Settings, lookup, IsMap, get_port, get_number, get_string, override,
  other_key,
}
use book_filer_module_ssh.Settings.Lookup.{Reads, for_each-lookup, for_each-keeps}
use book_filer_module_ssh.Client.State.{
  ClientState, localhost, new_client_state, set_entry, configure,
}

port-Reads : Reads set_entry (λ s. s.port) "port" get_port
unfolding set_entry
port-Reads s k (int n) = ground arith
port-Reads s k (double x) = ground arith
port-Reads s k (string t) = ground arith

remote_port-Reads : Reads set_entry (λ s. s.remote_port) "remotePort" get_number
unfolding set_entry
remote_port-Reads s k (int n) = ground (arith, other_key k "port" "remotePort" refl)
remote_port-Reads s k (double x) = ground arith
remote_port-Reads s k (string t) = ground arith

src_port-Reads : Reads set_entry (λ s. s.src_port) "srcPort" get_number
unfolding set_entry
src_port-Reads s k (int n) =
    ground (arith, other_key k "port" "srcPort" refl, other_key k "remotePort" "srcPort" refl)
src_port-Reads s k (double x) = ground arith
src_port-Reads s k (string t) = ground arith

user_name-Reads : Reads set_entry (λ s. s.user_name) "userName" get_string
unfolding set_entry
user_name-Reads s k (int n) = ground arith
user_name-Reads s k (double x) = ground arith
user_name-Reads s k (string t) = ground arith

password-Reads : Reads set_entry (λ s. s.password) "password" get_string
unfolding set_entry
password-Reads s k (int n) = ground arith
password-Reads s k (double x) = ground arith
password-Reads s k (string t) = ground (arith, other_key k "userName" "password" refl)

host_name-Reads : Reads set_entry (λ s. s.host_name) "hostName" get_string
unfolding set_entry
host_name-Reads s k (int n) = ground arith
host_name-Reads s k (double x) = ground arith
host_name-Reads s k (string t) =
    ground (arith, other_key k "userName" "hostName" refl, other_key k "password" "hostName" refl)

remote_host_name-Reads : Reads set_entry (λ s. s.remote_host_name) "remoteHostName" get_string
unfolding set_entry
remote_host_name-Reads s k (int n) = ground arith
remote_host_name-Reads s k (double x) = ground arith
remote_host_name-Reads s k (string t) = ground (
  arith,
  other_key k "userName" "remoteHostName" refl,
  other_key k "password" "remoteHostName" refl,
  other_key k "hostName" "remoteHostName" refl,
)

src_host_name-Reads : Reads set_entry (λ s. s.src_host_name) "srcHostName" get_string
unfolding set_entry
src_host_name-Reads s k (int n) = ground arith
src_host_name-Reads s k (double x) = ground arith
src_host_name-Reads s k (string t) = ground (
  arith,
  other_key k "userName" "srcHostName" refl,
  other_key k "password" "srcHostName" refl,
  other_key k "hostName" "srcHostName" refl,
  other_key k "remoteHostName" "srcHostName" refl,
)

-- No entry sets the bound port.
bound_port-kept :
    (s : ClientState) (k : String) (v : Setting)
    → (set_entry s (k, v)).remote_bound_port ≡ s.remote_bound_port
unfolding set_entry
bound_port-kept s k (int n) = ground arith
bound_port-kept s k (double x) = ground arith
bound_port-kept s k (string t) = ground arith

-- The state that a map describes, field by field.
abbrev pub described : Settings → ClientState
described m = record {
  port = override get_port (lookup "port" m) none;
  src_port = override get_number (lookup "srcPort" m) none;
  remote_port = override get_number (lookup "remotePort" m) none;
  remote_bound_port = none;
  host_name = override get_string (lookup "hostName" m) [];
  user_name = override get_string (lookup "userName" m) [];
  password = override get_string (lookup "password" m) [];
  remote_host_name = override get_string (lookup "remoteHostName" m) localhost;
  src_host_name = override get_string (lookup "srcHostName" m) localhost;
}

-- For a map with distinct keys, the constructor of the client fills each field of the state by
-- the lookup of its own key, with the type that the code expects, and leaves the default where
-- the key is missing or has another type: the order of the entries does not matter.
pub client_configure-described : (m : Settings) → IsMap m → configure m ≡ described m
unfolding configure new_client_state
client_configure-described m u = ground (
  arith,
  for_each-lookup set_entry (λ s. s.port) "port" get_port port-Reads new_client_state m u,
  for_each-lookup set_entry (λ s. s.remote_port) "remotePort" get_number remote_port-Reads
      new_client_state m u,
  for_each-lookup set_entry (λ s. s.src_port) "srcPort" get_number src_port-Reads new_client_state m
      u,
  for_each-lookup set_entry (λ s. s.user_name) "userName" get_string user_name-Reads
      new_client_state m u,
  for_each-lookup set_entry (λ s. s.password) "password" get_string password-Reads new_client_state
      m u,
  for_each-lookup set_entry (λ s. s.host_name) "hostName" get_string host_name-Reads
      new_client_state m u,
  for_each-lookup set_entry (λ s. s.remote_host_name) "remoteHostName" get_string
      remote_host_name-Reads new_client_state m u,
  for_each-lookup set_entry (λ s. s.src_host_name) "srcHostName" get_string src_host_name-Reads
      new_client_state m u,
  for_each-keeps set_entry (λ s. s.remote_bound_port) bound_port-kept new_client_state m,
)
