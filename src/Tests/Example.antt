-- ===== src/Tests/Example.antt =====
-- The theorems about the example programs at a concrete parser, settings manager and libssh2.
use book_filer_module_ssh.Prelude.{pos, Bool, true, false, none, some, [], ◌∷◌, ◌≡◌}
use book_filer_module_ssh.Settings.{Bytes}
use book_filer_module_ssh.Flow.{undefined}
use book_filer_module_ssh.Module.{new_module}
use book_filer_module_ssh.Module.Callbacks.{Members, Callbacks}
use book_filer_module_ssh.Port.Server.{Server}
use book_filer_module_ssh.Tunnel.Server.{Server as TunnelServer}
use book_filer_module_ssh.Global.{Library}
use book_filer_module_ssh.Loader.{Loader, module_loaded, all_loaded}
use book_filer_module_ssh.Example.{Process}
use book_filer_module_ssh.Example.Forwarding.{main, main_reads_threads_num}
use book_filer_module_ssh.Example.Tunneling.{Program, main as tunnel_main, main_reads_unassigned}
use book_filer_module_ssh.Tests.World.{texts}
use book_filer_module_ssh.Tests.Loader.{manager, value, deploy_contract}

abbrev process : {S : Type 0} → Loader (Members × Callbacks) (Process Bool S)
process = record {
  exported = new_module;
  ssh_module = false;
  settings_manager = ([], []);
  world = record { library = false; server = none };
}

-- Whether libssh2 is initialised.
abbrev ssh : Library
ssh = record { State = Bool; libssh2_init = λ flags s. (pos 0, true); libssh2_exit = λ s. false }

main_reads_threads_num_example :
    (d : Loader (Members × Callbacks) (Process Bool (Server Bytes))) × (s : Server Bytes) × (main
        texts manager
        (module_loaded ∷ all_loaded ∷ [])
        4
        true
        false
        process
      ≡ undefined d)
    × (d.world.server ≡ some s)
    × (s.server_state.source_port ≡ some 3306)
    × (s.server_state.dest_port ≡ some 21098)
    × (s.threads ≡ 0)
    × (s.listeners ≡ [])
main_reads_threads_num_example =
    main_reads_threads_num texts manager value deploy_contract 4 true false process

main_reads_unassigned_example :
    (d : Program texts manager ssh) × (s : TunnelServer Bytes) × (tunnel_main texts manager ssh
        (module_loaded ∷ all_loaded ∷ [])
        4
        true
        false
        process
      ≡ undefined d)
    × (d.world.server ≡ some s)
    × (s.threads ≡ 0)
    × (s.listeners ≡ [])
main_reads_unassigned_example =
    main_reads_unassigned texts manager ssh value deploy_contract 4 true false process
