-- ===== src/Tests/Tunnel.antt =====
-- The theorems about the tunnel at concrete inputs.
use book_filer_module_ssh.Prelude.{
  ◌≤◌, ℕ, pos, is_positive, true, false, some, none, [], ◌∷◌, length, length-take, take, drop, ◌≡◌,
  refl, inl, inr, arith, modulo,
}
use book_filer_module_ssh.Settings.{Bytes, Settings, int, string, for_each, lookup}
use book_filer_module_ssh.Flow.{unfinished, IsTerminated}
use book_filer_module_ssh.Client.State.{configure as configure_client, set_entry, new_client_state}
use book_filer_module_ssh.Client.Object.{Client, new_client}
use book_filer_module_ssh.Client.Channel.{buffer_size}
use book_filer_module_ssh.Client.Session.{connect, connect_socket, create_ssh_session, start_thread}
use book_filer_module_ssh.Tunnel.State.{ServerState, configure}
use book_filer_module_ssh.Tunnel.Configure.{described, tunnel_configure-described}
use book_filer_module_ssh.Tunnel.Listener.{Listener, client_settings, settings_with, accepted_round}
use book_filer_module_ssh.Tunnel.Listener.Propagation.{client_of, client_settings-configure}
use book_filer_module_ssh.Tunnel.Listener.Failing.{failed_client_terminates}
use book_filer_module_ssh.Tunnel.Server.{run_io_context}
use book_filer_module_ssh.Tunnel.Connection.{run_pull, run_push}
use book_filer_module_ssh.Tunnel.Connection.Pulling.{
  silent_channel_spins, PullOutcome, run_pull-PullOutcome,
}
use book_filer_module_ssh.Tunnel.Connection.Pushing.{PushOutcome, run_push-PushOutcome}
use book_filer_module_ssh.Settings.Distinct.{is_map-IsMap}
use book_filer_module_ssh.Tests.World.{
  Wires, texts, platform, write_contract, read_contract, local_read, socket, ledger,
}

abbrev settings : Settings
settings =
    ("destAddress", string (1 ∷ []))
    ∷ ("destPort", int (pos 22))
    ∷ ("password", string (2 ∷ []))
    ∷ ("remoteAddress", string (3 ∷ []))
    ∷ ("remotePort", int (pos 80))
    ∷ ("sourceAddress", string (4 ∷ []))
    ∷ ("sourcePort", int (pos 8080))
    ∷ ("userName", string (5 ∷ []))
    ∷ []

tunnel_configure-described_example : configure texts settings ≡ described texts settings
tunnel_configure-described_example =
    tunnel_configure-described texts settings (is_map-IsMap settings refl)

client_settings-configure_example :
    (m : Settings) × (client_settings texts (configure texts settings) ≡ some m)
    × (configure_client m
        ≡ client_of (4 ∷ []) (1 ∷ []) (3 ∷ []) (5 ∷ []) (2 ∷ []) (pos 8080) (pos 22) (pos 80))
unfolding lookup
client_settings-configure_example =
    client_settings-configure texts settings (4 ∷ []) (1 ∷ []) (3 ∷ []) (5 ∷ []) (2 ∷ []) (pos 8080)
      (pos 22) (pos 80) (is_map-IsMap settings refl) (refl, refl) refl refl refl refl refl refl refl
      refl

abbrev wires : Wires
wires = record {
  incoming = 1 ∷ 2 ∷ [];
  received = [];
  outgoing = [];
  window = 3;
  local_in = 5 ∷ 6 ∷ [];
  typed = [];
  local_out = [];
  freed = [];
}

abbrev state : ServerState Bytes
state = record {
  source_port = some 8080;
  dest_port = none;
  threads_num = none;
  source_port_int = none;
  dest_port_int = some (pos 22);
  remote_port_int = some (pos 0);
  source_address = 4 ∷ [];
  dest_address = [];
  source_address_str = [];
  dest_address_str = 1 ∷ [];
  remote_address_str = 3 ∷ [];
  user_name_str = 5 ∷ [];
  password_str = [];
}

-- The listener of a server with no password, and of one whose remote port is refused.
abbrev listener : ServerState Bytes → Listener Bytes Wires
listener s = record {
  server_state = s;
  connection_list = [];
  connection_id_increment = 0;
  spawned = [];
  world = wires;
}

-- The client of a server after `connect`.
abbrev met : ServerState Bytes → Client Wires
met s = record (new_client (settings_with texts 8080 (pos 22) (pos 0) s) wires) {
  session = some 1;
  thread_io = true;
}

failed_client_terminates_example :
    IsTerminated (run_io_context (accepted_round texts platform) (listener state))
unfolding client_settings settings_with new_client configure_client set_entry new_client_state
    for_each modulo connect connect_socket create_ssh_session start_thread
failed_client_terminates_example =
    failed_client_terminates texts platform (listener state)
      (settings_with texts 8080 (pos 22) (pos 0) state) refl (inr (inl (met state, refl, refl)))

abbrev client : Client Wires
client = new_client [] wires

abbrev closed : Client Wires
closed = new_client [] (record wires { incoming = [] })

stays_silent :
    (xs : Bytes)
    → xs ≡ []
    → (is_positive (pos (length (take buffer_size xs))) ≡ false) × (drop buffer_size xs ≡ [])
stays_silent [] e = (refl, refl)
stays_silent (x ∷ xs) e = cc

silent_channel_spins_example :
    (d : Client Wires) × (run_pull platform socket 7 closed ≡ unfinished d)
    × (d.world.incoming ≡ [])
unfolding new_client
silent_channel_spins_example =
    silent_channel_spins platform socket read_contract (λ w. w.incoming ≡ [])
      (λ channel w e. stays_silent w.incoming e) 7 closed refl

run_pull-PullOutcome_example :
    PullOutcome platform socket read_contract ledger (run_pull platform socket 3 client)
unfolding new_client
run_pull-PullOutcome_example =
    run_pull-PullOutcome platform socket read_contract ledger 3 client refl

local_read-fits : (n : ℕ) (xs bytes : Bytes) → local_read xs n ≡ some bytes → length bytes ≤ n
local_read-fits n [] bytes e = cc
local_read-fits n (x ∷ xs) bytes e = ground (arith, length-take n (x ∷ xs))

run_push-PushOutcome_example :
    PushOutcome platform socket write_contract client 2 (run_push platform socket 2 client)
run_push-PushOutcome_example =
    run_push-PushOutcome platform socket write_contract
      (λ w bytes e. local_read-fits 1500 w.local_in bytes e) 2 client
