-- ===== src/Port/State.antt =====
-- `port::ServerState` (src/core/PortForwardingServerState.hpp) without the list of connections,
-- which is in `Port.Listener`, and the constructor of `ForwardingServerImpl`
-- (src/core/PortForwardingServer.cpp). A member that no constructor initialises is `none` until it
-- is assigned; an error code is only logged.
use book_filer_module_ssh.Prelude.{
  ℕ, String, ℤ, to_u16, Option, none, some, [], str_eq, if◌then◌else◌,
}
use book_filer_module_ssh.Settings.{Bytes, Setting, int, double, string, Settings, for_each}
use book_filer_module_ssh.Asio.{AddressApi}

pub record ServerState (Address : Type 0) : Type 0 where
  pub source_port : Option ℕ  -- unsigned short
  pub dest_port : Option ℕ  -- unsigned short
  pub threads_num : Option ℤ
  pub source_port_int : Option ℤ
  pub dest_port_int : Option ℤ
  pub source_address : Address
  pub dest_address : Address
  pub source_address_str : Bytes
  pub dest_address_str : Bytes

module _ (api : AddressApi) where
  open api use {Address, unspecified, from_string}

  unfoldable pub new_server_state : ServerState Address
  new_server_state = record {
    source_port = none;
    dest_port = none;
    threads_num = none;
    source_port_int = none;
    dest_port_int = none;
    source_address = unspecified;
    dest_address = unspecified;
    source_address_str = [];
    dest_address_str = [];
  }

  set_int : ServerState Address → String → ℤ → ServerState Address
  set_int s key n =
      if str_eq key "sourcePort"
      then record s { source_port = some (to_u16 n) }
      else if str_eq key "destPort"
      then record s { dest_port = some (to_u16 n) }
      else s

  set_string : ServerState Address → String → Bytes → ServerState Address
  set_string s key t =
      if str_eq key "sourceAddress"
      then record s { source_address = (from_string t).0 }
      else if str_eq key "destAddress"
      then record s { dest_address = (from_string t).0 }
      else s

  -- The body of the constructor's loop.
  unfoldable pub set_entry : ServerState Address → String × Setting → ServerState Address
  unfolding set_int set_string
  set_entry s (key, int n) = set_int s key n
  set_entry s (key, double x) = s
  set_entry s (key, string t) = set_string s key t

  unfoldable pub configure : Settings → ServerState Address
  configure m = for_each set_entry new_server_state m
