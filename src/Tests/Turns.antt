-- ===== src/Tests/Turns.antt =====
-- The theorems about the loop of the tunnel at concrete inputs.
use book_filer_module_ssh.Prelude.{
  ℤ, pos, negsuc, Option, true, false, some, none, [], ◌∷◌, ◌⊎◌, ◌≡◌, refl, arith, modulo,
}
use book_filer_module_ssh.Settings.{Bytes, for_each}
use book_filer_module_ssh.Client.Object.{Client, new_client}
use book_filer_module_ssh.Port.Listener.{prepare, acceptor_calls}
use book_filer_module_ssh.Client.State.{configure, set_entry, new_client_state}
use book_filer_module_ssh.Client.Session.{
  connect, connect_socket, create_ssh_session, start_thread, tunnel,
}
use book_filer_module_ssh.Tunnel.State.{ServerState}
use book_filer_module_ssh.Tunnel.Listener.{
  Listener, pulls, pushes, client_settings, settings_with, accepted_round, in_client, discard,
  start,
}
use book_filer_module_ssh.Tunnel.Listener.Loop.{
  accept_failed, accepted, new_listener, round, rounds, run,
}
use book_filer_module_ssh.Tunnel.Listener.Loop.Served.{IsServed, AllServed, run-IsServed}
use book_filer_module_ssh.Tests.World.{Wires, texts, platform}

abbrev wires : Wires
wires = record {
  incoming = 1 ∷ 2 ∷ [];
  received = [];
  outgoing = [];
  window = 3;
  local_in = 5 ∷ 6 ∷ [];
  typed = [];
  local_out = [];
  freed = [];
}

abbrev state : ServerState Bytes
state = record {
  source_port = some 8080;
  dest_port = none;
  threads_num = none;
  source_port_int = none;
  dest_port_int = some (pos 22);
  remote_port_int = some (pos 80);
  source_address = 4 ∷ [];
  dest_address = [];
  source_address_str = [];
  dest_address_str = 1 ∷ [];
  remote_address_str = 3 ∷ [];
  user_name_str = 5 ∷ [];
  password_str = 2 ∷ [];
}

-- The client of the connection that was accepted, with its channel.
abbrev tunneled : Client Wires
tunneled = record (new_client (settings_with texts 8080 (pos 22) (pos 80) state) wires) {
  session = some 1;
  thread_io = true;
  command_channel = some 3;
}

-- The listener after a failed `async_accept` and one that succeeded.
abbrev served_one : Listener Bytes Wires
served_one = record (new_listener state wires) {
  connection_list = record { conn_id = some 1; ssh_client = some tunneled } ∷ [];
  connection_id_increment = 1;
  spawned = pulls 1 ∷ pushes 1 ∷ [];
}

run-IsServed_example :
    IsServed served_one
    × ((((prepare (λ call. false) acceptor_calls).1 ≡ true)
          × (◌≡◌ {A = Option ℤ} none none)
          × AllServed texts platform
              (accept_failed ∷ accepted ∷ [])
              (new_listener state wires)
              served_one)
        ⊎ (((prepare (λ call. false) acceptor_calls).1 ≡ false)
            × (none ≡ some (negsuc 0))
            × (served_one ≡ new_listener state wires)))
unfolding new_listener run rounds round prepare accepted_round in_client discard start
    client_settings settings_with new_client configure set_entry new_client_state for_each modulo
    connect connect_socket create_ssh_session start_thread tunnel
run-IsServed_example =
    run-IsServed texts platform (λ call. false) (accept_failed ∷ accepted ∷ []) state wires none
      served_one (omega arith) refl
