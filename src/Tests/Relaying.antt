-- ===== src/Tests/Relaying.antt =====
-- The parts of the tunnel together, at concrete inputs.
use book_filer_module_ssh.Prelude.{
  ℕ, ◌+◌, ◌%◌, ◌^◌, pos, to_u16, modulo, true, some, List, [], ◌∷◌, ◌++◌, ◌≡◌, refl,
}
use book_filer_module_ssh.Settings.{Bytes, Settings, int, string, for_each, lookup}
use book_filer_module_ssh.Settings.Distinct.{is_map-IsMap}
use book_filer_module_ssh.Flow.{returned}
use book_filer_module_ssh.Client.State.{configure as configure_client, set_entry, new_client_state}
use book_filer_module_ssh.Client.Object.{Client, new_client}
use book_filer_module_ssh.Client.Channel.{c_str}
use book_filer_module_ssh.Client.Session.{
  connect, connect_socket, create_ssh_session, start_thread, tunnel,
}
use book_filer_module_ssh.Client.Session.Setup.{SetupContract}
use book_filer_module_ssh.Tunnel.State.{configure, set_entry as set_server_entry}
use book_filer_module_ssh.Tunnel.Listener.{Listener, client_settings, settings_with, accepted_round}
use book_filer_module_ssh.Tunnel.Connection.Turns.{Turn, pull_turn, push_turn, turns}
use book_filer_module_ssh.Tunnel.Connection.Turns.Contract.{new_pair, StaysFaithful}
use book_filer_module_ssh.Tunnel.Relaying.{traffic, accepted_relays}
use book_filer_module_ssh.Tests.World.{Wires, texts, wide, wide_writes, wide_reads, socket, duplex}

abbrev map : Settings
map =
    ("destAddress", string (1 ∷ []))
    ∷ ("destPort", int (pos 22))
    ∷ ("password", string (2 ∷ []))
    ∷ ("remoteAddress", string (3 ∷ []))
    ∷ ("remotePort", int (pos 80))
    ∷ ("sourceAddress", string (4 ∷ []))
    ∷ ("sourcePort", int (pos 8080))
    ∷ ("userName", string (5 ∷ []))
    ∷ []

abbrev wires : Wires
wires = record {
  incoming = 1 ∷ 2 ∷ [];
  received = [];
  outgoing = [];
  window = 3;
  local_in = 5 ∷ 6 ∷ [];
  typed = [];
  local_out = [];
  freed = [];
}

abbrev listener : Listener Bytes Wires
listener = record {
  server_state = configure texts map;
  connection_list = [];
  connection_id_increment = 0;
  spawned = [];
  world = wires;
}

abbrev client_map : Settings
client_map = settings_with texts 8080 (pos 22) (pos 80) (configure texts map)

abbrev logged_in : Client Wires
logged_in = record (new_client client_map wires) { session = some 1; thread_io = true }

abbrev tunnelled : Client Wires
tunnelled = record logged_in { command_channel = some 3 }

abbrev setup :
    (channel : ℕ)
    → SetupContract wide
        (traffic texts wide socket wide_writes wide_reads (λ ch. duplex (some ch)) channel)
setup channel = record {
  by_connect = λ host port w. refl;
  by_init = λ w. refl;
  by_blocking = λ s b w. refl;
  by_handshake = λ s w. refl;
  by_password = λ s user password w. refl;
  by_tunnel = λ s host port src src_port w. refl;
}

-- A chunk crosses from the channel while another one is typed.
abbrev crossing : List Turn
crossing = pull_turn ∷ push_turn ∷ pull_turn ∷ push_turn ∷ []

accepted_relays_example :
    (channel : ℕ) × (l' : Listener Bytes Wires) × ((wide.socket_connect
        (1 ∷ [])
        (to_u16 (pos 22))
        wires).0
      ≡ true)
    × ((w : Wires) × (wide.userauth_password logged_in.session (c_str (5 ∷ [])) (c_str (2 ∷ [])) w
          ≡ (pos 0, logged_in.world)))
    × (wide.channel_direct_tcpip_ex logged_in.session
          (c_str (3 ∷ []))
          (pos 80)
          (c_str (4 ∷ []))
          (pos (to_u16 (pos 8080)))
          logged_in.world
        ≡ (some channel, tunnelled.world))
    × (accepted_round texts wide listener ≡ returned tt l')
    × (l'.connection_list
        ≡ [] ++ record { conn_id = some ((0 + 1) % 2 ^ 32); ssh_client = some tunnelled } ∷ [])
    × StaysFaithful wide socket wide_writes
        (some channel)
        (duplex (some channel))
        (turns wide socket crossing (new_pair tunnelled))
unfolding client_settings settings_with new_client configure_client set_entry new_client_state
    for_each modulo connect connect_socket create_ssh_session start_thread tunnel configure
    set_server_entry lookup
accepted_relays_example =
    accepted_relays texts wide socket wide_writes wide_reads (λ ch. duplex (some ch)) map (4 ∷ [])
      (1 ∷ []) (3 ∷ []) (5 ∷ []) (2 ∷ []) (pos 8080) (pos 22) (pos 80) client_map listener logged_in
      tunnelled crossing (is_map-IsMap map refl) (refl, refl) refl refl refl refl refl refl refl
      refl refl refl refl refl setup (λ channel. refl)
