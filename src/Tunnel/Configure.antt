-- ===== src/Tunnel/Configure.antt =====
-- What the constructor of `TunnelServerImpl` makes of a map: each field by the lookup of its key.
use mathlib.Core.Option
use book_filer_module_ssh.Prelude.{ℕ, ℤ, String, Option, none, [], ◌≡◌, refl, arith}
use book_filer_module_ssh.Settings.{
  Bytes, Setting, int, double, string, Settings, lookup, IsMap, get_port, get_number, get_string,
  override, other_key,
}
use book_filer_module_ssh.Settings.Lookup.{Reads, for_each-lookup, for_each-keeps}
use book_filer_module_ssh.Asio.{AddressApi}
use book_filer_module_ssh.Tunnel.State.{ServerState, new_server_state, set_entry, configure}

module _ (api : AddressApi) where
  open api use {Address, unspecified, from_string}

  -- A text under an address's key is parsed; on an error the address is what the parser returns.
  abbrev pub get_address : Setting → Option Address
  get_address v = Option.map (λ t. (from_string t).0) (get_string v)

  source_port-Reads : Reads (set_entry api) (λ s. s.source_port) "sourcePort" get_port
  unfolding set_entry
  source_port-Reads s k (int n) = ground arith
  source_port-Reads s k (double x) = ground arith
  source_port-Reads s k (string t) = ground arith

  dest_port_int-Reads : Reads (set_entry api) (λ s. s.dest_port_int) "destPort" get_number
  unfolding set_entry
  dest_port_int-Reads s k (int n) = ground (arith, other_key k "sourcePort" "destPort" refl)
  dest_port_int-Reads s k (double x) = ground arith
  dest_port_int-Reads s k (string t) = ground arith

  remote_port_int-Reads : Reads (set_entry api) (λ s. s.remote_port_int) "remotePort" get_number
  unfolding set_entry
  remote_port_int-Reads s k (int n) =
      ground (
        arith,
        other_key k "sourcePort" "remotePort" refl,
        other_key k "destPort" "remotePort" refl,
      )
  remote_port_int-Reads s k (double x) = ground arith
  remote_port_int-Reads s k (string t) = ground arith

  source_address-Reads : Reads (set_entry api) (λ s. s.source_address) "sourceAddress" get_address
  unfolding set_entry
  source_address-Reads s k (int n) = ground arith
  source_address-Reads s k (double x) = ground arith
  source_address-Reads s k (string t) = ground arith

  dest_address_str-Reads : Reads (set_entry api) (λ s. s.dest_address_str) "destAddress" get_string
  unfolding set_entry
  dest_address_str-Reads s k (int n) = ground arith
  dest_address_str-Reads s k (double x) = ground arith
  dest_address_str-Reads s k (string t) =
      ground (arith, other_key k "sourceAddress" "destAddress" refl)

  remote_address_str-Reads :
      Reads (set_entry api) (λ s. s.remote_address_str) "remoteAddress" get_string
  unfolding set_entry
  remote_address_str-Reads s k (int n) = ground arith
  remote_address_str-Reads s k (double x) = ground arith
  remote_address_str-Reads s k (string t) = ground (
    arith,
    other_key k "sourceAddress" "remoteAddress" refl,
    other_key k "destAddress" "remoteAddress" refl,
  )

  user_name_str-Reads : Reads (set_entry api) (λ s. s.user_name_str) "userName" get_string
  unfolding set_entry
  user_name_str-Reads s k (int n) = ground arith
  user_name_str-Reads s k (double x) = ground arith
  user_name_str-Reads s k (string t) = ground (
    arith,
    other_key k "sourceAddress" "userName" refl,
    other_key k "destAddress" "userName" refl,
    other_key k "remoteAddress" "userName" refl,
  )

  password_str-Reads : Reads (set_entry api) (λ s. s.password_str) "password" get_string
  unfolding set_entry
  password_str-Reads s k (int n) = ground arith
  password_str-Reads s k (double x) = ground arith
  password_str-Reads s k (string t) = ground (
    arith,
    other_key k "sourceAddress" "password" refl,
    other_key k "destAddress" "password" refl,
    other_key k "remoteAddress" "password" refl,
    other_key k "userName" "password" refl,
  )

  -- What no entry sets.
  abbrev rest : ServerState Address → Option ℕ × Option ℤ × Option ℤ × Address × Bytes
  rest s = (s.dest_port, s.threads_num, s.source_port_int, s.dest_address, s.source_address_str)

  rest-kept :
      (s : ServerState Address) (k : String) (v : Setting) → rest (set_entry api s (k, v)) ≡ rest s
  unfolding set_entry
  rest-kept s k (int n) = ground arith
  rest-kept s k (double x) = ground arith
  rest-kept s k (string t) = ground arith

  -- The state that a map describes, field by field.
  abbrev pub described : Settings → ServerState Address
  described m = record {
    source_port = override get_port (lookup "sourcePort" m) none;
    dest_port_int = override get_number (lookup "destPort" m) none;
    remote_port_int = override get_number (lookup "remotePort" m) none;
    source_address = override get_address (lookup "sourceAddress" m) unspecified;
    dest_address_str = override get_string (lookup "destAddress" m) [];
    remote_address_str = override get_string (lookup "remoteAddress" m) [];
    user_name_str = override get_string (lookup "userName" m) [];
    password_str = override get_string (lookup "password" m) [];
    dest_port = none;
    threads_num = none;
    source_port_int = none;
    dest_address = unspecified;
    source_address_str = [];
  }

  -- For a map with distinct keys, the constructor of the tunnel server fills its eight configured
  -- fields, each by the lookup of its own key, and leaves the default where the key is missing or
  -- has another type. No key assigns the destination port as a 16-bit number.
  pub tunnel_configure-described : (m : Settings) → IsMap m → configure api m ≡ described m
  unfolding configure new_server_state
  tunnel_configure-described m u = ground (
    arith,
    for_each-lookup (set_entry api) (λ s. s.source_port) "sourcePort" get_port source_port-Reads
        (new_server_state api) m u,
    for_each-lookup (set_entry api) (λ s. s.dest_port_int) "destPort" get_number dest_port_int-Reads
        (new_server_state api) m u,
    for_each-lookup (set_entry api) (λ s. s.remote_port_int) "remotePort" get_number
        remote_port_int-Reads (new_server_state api) m u,
    for_each-lookup (set_entry api) (λ s. s.source_address) "sourceAddress" get_address
        source_address-Reads (new_server_state api) m u,
    for_each-lookup (set_entry api) (λ s. s.dest_address_str) "destAddress" get_string
        dest_address_str-Reads (new_server_state api) m u,
    for_each-lookup (set_entry api) (λ s. s.remote_address_str) "remoteAddress" get_string
        remote_address_str-Reads (new_server_state api) m u,
    for_each-lookup (set_entry api) (λ s. s.user_name_str) "userName" get_string user_name_str-Reads
        (new_server_state api) m u,
    for_each-lookup (set_entry api) (λ s. s.password_str) "password" get_string password_str-Reads
        (new_server_state api) m u,
    for_each-keeps (set_entry api) rest rest-kept (new_server_state api) m,
  )
