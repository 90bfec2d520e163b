-- ===== src/Tests/Client.antt =====
-- The theorems about `ClientImpl` at concrete inputs.
use book_filer_module_ssh.Prelude.{
  Bool, ℕ, ◌≤◌, pos, true, some, none, List, [], ◌∷◌, ◌++◌, take, ◌≡◌, refl, arith, modulo,
}
use book_filer_module_ssh.Settings.{Bytes, Settings, int, string, for_each}
use book_filer_module_ssh.Flow.{returned}
use book_filer_module_ssh.Client.State.{configure, new_client_state, set_entry}
use book_filer_module_ssh.Client.Configure.{described, client_configure-described}
use book_filer_module_ssh.Client.Object.{Client, new_client, create_channel}
use book_filer_module_ssh.Client.Channel.{send, read, do_work, do_create_channel, buffer_size}
use book_filer_module_ssh.Client.Channel.Rounds.{Rounds}
use book_filer_module_ssh.Client.Channel.Writing.{prefixes, sum, send-rounds, send_partial}
use book_filer_module_ssh.Client.Channel.Reading.{read_lem}
use book_filer_module_ssh.Client.Loop.{phase}
use book_filer_module_ssh.Client.Loop.Handlers.{handler, waiting, halted}
use book_filer_module_ssh.Client.Loop.Phases.{now, phase_lem}
use book_filer_module_ssh.Client.Session.{destroy}
use book_filer_module_ssh.Client.Session.Release.{channel, FreesOnce, destroy-FreesOnce}
use book_filer_module_ssh.Client.Loop.{command, forwarding}
use book_filer_module_ssh.Client.Loop.Collect.{closes, chunk, forwarding_collects}
use book_filer_module_ssh.Client.Loop.Orderly.{command_reads_once}
use book_filer_module_ssh.Client.Loop.Overrun.{first, overrun, command_overruns}
use book_filer_module_ssh.Settings.Distinct.{is_map-IsMap}
use book_filer_module_ssh.Tests.World.{
  Wires, platform, write_contract, read_contract, free_contract,
}

abbrev wires : Wires
wires = record {
  incoming = 1 ∷ 2 ∷ [];
  received = [];
  outgoing = 9 ∷ [];
  window = 3;
  local_in = [];
  typed = [];
  local_out = [];
  freed = [];
}

abbrev settings : Settings
settings =
    ("port", int (pos 65558))
    ∷ ("remotePort", int (pos 80))
    ∷ ("srcPort", int (pos 81))
    ∷ ("userName", string (7 ∷ []))
    ∷ []

abbrev client : Client Wires
client = new_client settings wires

-- The low 16 bits of the port.
client_configure-described_example : configure settings ≡ described settings
client_configure-described_example =
    client_configure-described settings (is_map-IsMap settings refl)

abbrev two : Bytes
two = 5 ∷ 6 ∷ []

abbrev four : Bytes
four = 5 ∷ 6 ∷ 7 ∷ 8 ∷ []

send-rounds_example :
    (ks : List ℕ) × (d : Client Wires) × (send platform four 4 client ≡ returned (pos 0) d)
    × Rounds platform client.command_channel four 4 0 client.world ks d.world
    × (d.world.outgoing ≡ client.world.outgoing ++ prefixes four ks)
    × (d.written_bytes ≡ sum ks)
send-rounds_example = send-rounds platform write_contract four 4 client (omega arith) (omega arith)

send_partial_example :
    (d : Client Wires) × (send platform four 4 client ≡ returned (pos 0) d)
    × (d.world.outgoing ≡ client.world.outgoing ++ (take 3 four ++ take 3 four))
unfolding new_client
send_partial_example =
    send_partial platform write_contract four 4 3 3 client (omega arith) (omega arith) (omega arith)
      (omega arith) (omega arith) (omega arith) refl refl

read_lem_example :
    (read platform client
      ≡ returned
          (pos 0, 1 ∷ 2 ∷ [], 2)
          (record client {
            world = record wires { incoming = []; received = 1 ∷ 2 ∷ [] };
            command_channel_read_str = 1 ∷ 2 ∷ [];
            command_channel_read_len = 2;
          }))
    × (2 ≤ buffer_size)
unfolding new_client
read_lem_example = read_lem platform read_contract client

abbrev created : Client Wires
created = record client { command_channel = some 2 }

phase_lem_example :
    (q : Bool) × (phase platform create_channel (1 ∷ []) (record client { pending = [] })
      ≡ returned tt (halted (handler create_channel q ∷ []) created))
unfolding do_work do_create_channel new_client
phase_lem_example =
    phase_lem platform create_channel 1 (1 ∷ []) client (now client {d = waiting [] created} refl)
      (omega arith, tt) (omega arith)

-- A client with a channel and a session, whose thread was started.
abbrev holding : Client Wires
holding = record client { command_channel = some 2; session = some 1; thread_io = true }

destroy-FreesOnce_example : FreesOnce platform free_contract holding (destroy platform holding)
destroy-FreesOnce_example = destroy-FreesOnce platform free_contract holding

command_overruns_example :
    (d : Client Wires) × (command platform two first first first first
        (record client { pending = [] })
      ≡ returned (pos 0) d)
    × (d.world ≡ overrun platform client.session two client.world)
    × (d.command_channel_read_str ≡ [])
command_overruns_example =
    command_overruns platform two client (λ s w. (2, refl)) (λ ch t w. refl) refl

-- What comes after a zero byte is lost.
forwarding_collects_example :
    (d : Client Wires) × (forwarding platform
        (0 ∷ 1 ∷ [])
        (record client { world = record wires { incoming = 7 ∷ 0 ∷ 8 ∷ [] }; pending = [] })
      ≡ returned (pos 0) d)
    × (d.listener ≡ some 4)
    × (d.listen_channel ≡ some 5)
    × (d.listen_channel_read_str ≡ 7 ∷ [])
unfolding new_client configure for_each set_entry new_client_state modulo
forwarding_collects_example =
    forwarding_collects platform 36 refl (omega arith) (0 ∷ 1 ∷ [])
      (record client { world = record wires { incoming = 7 ∷ 0 ∷ 8 ∷ [] } }) (pos 80) 4 5
      (refl, refl, refl, chunk 2 refl (omega arith) refl (closes refl))
      (omega arith, (omega arith, tt)) (omega arith)

command_reads_once_example :
    (d : Client Wires) × (command platform two
        (0 ∷ [])
        (1 ∷ [])
        (2 ∷ [])
        (3 ∷ [])
        (record client { pending = [] })
      ≡ returned (pos 0) d)
    × ((d.world
          ≡ record client.world { incoming = []; received = 1 ∷ 2 ∷ []; freed = channel 2 ∷ [] })
        × (d.command_channel_read_str ≡ 1 ∷ 2 ∷ [])
        × (d.command_channel ≡ none))
unfolding new_client
command_reads_once_example =
    command_reads_once platform two client 2 2 refl (omega arith) (refl, refl, refl, refl)
