-- ===== src/Port/Configure.antt =====
-- What the constructor of `ForwardingServerImpl` makes of a map: each field by the lookup of its key.
use mathlib.Core.Option
use book_filer_module_ssh.Prelude.{ℤ, String, Option, none, [], ◌≡◌, refl, arith}
use book_filer_module_ssh.Settings.{
  Bytes, Setting, int, double, string, Settings, lookup, IsMap, get_port, get_string, override,
  other_key,
}
use book_filer_module_ssh.Settings.Lookup.{Reads, for_each-lookup, for_each-keeps}
use book_filer_module_ssh.Asio.{AddressApi}
use book_filer_module_ssh.Port.State.{ServerState, new_server_state, set_entry, configure}

module _ (api : AddressApi) where
  open api use {Address, unspecified, from_string}

  -- A text under an address's key is parsed; on an error the address is what the parser returns.
  abbrev pub get_address : Setting → Option Address
  get_address v = Option.map (λ t. (from_string t).0) (get_string v)

  source_port-Reads : Reads (set_entry api) (λ s. s.source_port) "sourcePort" get_port
  unfolding set_entry
  source_port-Reads s k (int n) = ground arith
  source_port-Reads s k (double x) = ground arith
  source_port-Reads s k (string t) = ground arith

  dest_port-Reads : Reads (set_entry api) (λ s. s.dest_port) "destPort" get_port
  unfolding set_entry
  dest_port-Reads s k (int n) = ground (arith, other_key k "sourcePort" "destPort" refl)
  dest_port-Reads s k (double x) = ground arith
  dest_port-Reads s k (string t) = ground arith

  source_address-Reads : Reads (set_entry api) (λ s. s.source_address) "sourceAddress" get_address
  unfolding set_entry
  source_address-Reads s k (int n) = ground arith
  source_address-Reads s k (double x) = ground arith
  source_address-Reads s k (string t) = ground arith

  dest_address-Reads : Reads (set_entry api) (λ s. s.dest_address) "destAddress" get_address
  unfolding set_entry
  dest_address-Reads s k (int n) = ground arith
  dest_address-Reads s k (double x) = ground arith
  dest_address-Reads s k (string t) = ground (arith, other_key k "sourceAddress" "destAddress" refl)

  -- What no entry sets.
  abbrev rest : ServerState Address → Option ℤ × Option ℤ × Option ℤ × Bytes × Bytes
  rest s =
      (s.threads_num, s.source_port_int, s.dest_port_int, s.source_address_str, s.dest_address_str)

  rest-kept :
      (s : ServerState Address) (k : String) (v : Setting) → rest (set_entry api s (k, v)) ≡ rest s
  unfolding set_entry
  rest-kept s k (int n) = ground arith
  rest-kept s k (double x) = ground arith
  rest-kept s k (string t) = ground arith

  -- The state that a map describes, field by field.
  abbrev pub described : Settings → ServerState Address
  described m = record {
    source_port = override get_port (lookup "sourcePort" m) none;
    dest_port = override get_port (lookup "destPort" m) none;
    source_address = override get_address (lookup "sourceAddress" m) unspecified;
    dest_address = override get_address (lookup "destAddress" m) unspecified;
    threads_num = none;
    source_port_int = none;
    dest_port_int = none;
    source_address_str = [];
    dest_address_str = [];
  }

  -- For a map with distinct keys, the constructor of the forwarding server fills its two ports,
  -- modulo 2 ^ 16, and its two addresses, as the parser returns them, each by the lookup of its
  -- own key, leaves the default where the key is missing or has another type, and never assigns
  -- the number of threads.
  pub port_configure-described : (m : Settings) → IsMap m → configure api m ≡ described m
  unfolding configure new_server_state
  port_configure-described m u = ground (
    arith,
    for_each-lookup (set_entry api) (λ s. s.source_port) "sourcePort" get_port source_port-Reads
        (new_server_state api) m u,
    for_each-lookup (set_entry api) (λ s. s.dest_port) "destPort" get_port dest_port-Reads
        (new_server_state api) m u,
    for_each-lookup (set_entry api) (λ s. s.source_address) "sourceAddress" get_address
        source_address-Reads (new_server_state api) m u,
    for_each-lookup (set_entry api) (λ s. s.dest_address) "destAddress" get_address
        dest_address-Reads (new_server_state api) m u,
    for_each-keeps (set_entry api) rest rest-kept (new_server_state api) m,
  )
