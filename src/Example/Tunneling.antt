-- ===== src/Example/Tunneling.antt =====
-- src_example/ssh-tunnel/main.cpp: `allModulesLoaded` and `main`.
use book_filer_module_ssh.Prelude.{
  ℕ, String, ℤ, pos, Bool, Option, some, List, [], ◌∷◌, ◌≡◌, refl, ap, arith,
}
use book_filer_module_ssh.Settings.{Bytes, Settings, int, string}
use book_filer_module_ssh.Settings.Distinct.{is_map-IsMap}
use book_filer_module_ssh.Asio.{AddressApi}
use book_filer_module_ssh.Flow.{M, undefined, ◌>>=◌, ◌>>◌, pure, modify}
use book_filer_module_ssh.Module.{new_tunnel_server}
use book_filer_module_ssh.Tunnel.Configure.{tunnel_configure-described}
use book_filer_module_ssh.Tunnel.Server.Running.{run-without-dest_port, ReadsUnassigned-undefined}
use book_filer_module_ssh.Tunnel.Server.{Server, new_server, set_settings_doc, run, destroy}
use book_filer_module_ssh.Global.{new_global, new_ssh_global, Library}
use book_filer_module_ssh.Global
use book_filer_module_ssh.Loader.{
  SettingsManager, Signal, module_loaded, all_loaded, Loader, load_module,
}
use book_filer_module_ssh.Loader.Deploy.{DeployContract, deployed, load_module_lem}
use book_filer_module_ssh.Example.{
  Process, set_server, set_library, on_server, on_library, wait_exit,
}
use book_filer_module_ssh.Example.Forwarding.{localhost, server_name}

abbrev pub user_name : Bytes
user_name = b'U' ∷ b'S' ∷ b'E' ∷ b'R' ∷ []

abbrev pub password : Bytes
password = b'P' ∷ b'A' ∷ b'S' ∷ b'S' ∷ []

abbrev pub settings : Settings
settings =
    ("destAddress", string server_name)
    ∷ ("destPort", int (pos 21098))
    ∷ ("password", string password)
    ∷ ("remoteAddress", string localhost)
    ∷ ("remotePort", int (pos 3306))
    ∷ ("sourceAddress", string localhost)
    ∷ ("sourcePort", int (pos 3306))
    ∷ ("userName", string user_name)
    ∷ []

module _ (api : AddressApi) (sm : SettingsManager) (ssh : Library) where
  open api use {Address}
  open sm use {Manager}
  open ssh use {State, libssh2_init}

  abbrev pub Program : Type 0
  Program = Loader Manager (Process State (Server Address))

  -- At the end the server and then libssh2 go out of scope; `ended` says whether its threads end.
  unfoldable pub all_modules_loaded : ℕ → Bool → Bool → M Program (Unit {0})
  all_modules_loaded hardware_threads notified ended = do
    on_library (new_ssh_global ssh)
    modify (λ l. set_server (new_tunnel_server api settings l.exported) l)
    _ ← on_server (run hardware_threads)
    wait_exit notified
    on_server (destroy ended)
    on_library (Global.destroy ssh)

  unfoldable pub main : List Signal → ℕ → Bool → Bool → M Program ℤ
  main sent hardware_threads notified ended = do
    _ ← load_module sm sent (all_modules_loaded hardware_threads notified ended)
    pure (pos 0)

  -- The server that `newTunnelServer` makes.
  abbrev made : Program → Server Address
  made l = record (new_server api settings) { settings_doc = l.exported.settings_doc }

  -- The program once libssh2 is initialised.
  abbrev initialised : Program → Program
  initialised l = set_library (libssh2_init (pos 0) l.world.library).1 l

  all_modules_loaded_lem :
      (n : ℕ) (notified ended : Bool) (l : Program) (t : Server Address)
      → run n (made l) ≡ undefined t
      → all_modules_loaded n notified ended l ≡ undefined (set_server (some t) (initialised l))
  unfolding all_modules_loaded new_tunnel_server set_settings_doc new_ssh_global new_global
  all_modules_loaded_lem n notified ended l t e = ground (arith, e)

  module _ (value : String → Option ℕ) (contract : DeployContract sm value) where
    -- The program for the tunnel, on any module loader that loads the module and on a settings
    -- manager that obeys its contract, reads a member that was never assigned, with a server that
    -- has no thread and no listener.
    pub main_reads_unassigned :
        (hardware_threads : ℕ) (notified ended : Bool) (l : Program)
        → (d : Program) × (s : Server Address) × (main
              (module_loaded ∷ all_loaded ∷ [])
              hardware_threads
              notified
              ended
              l
            ≡ undefined d)
          × (d.world.server ≡ some s)
          × (s.threads ≡ 0)
          × (s.listeners ≡ [])
    unfolding main new_server
    main_reads_unassigned n notified ended l =
        let start : Program = deployed sm value l in
        let d = tunnel_configure-described api settings (is_map-IsMap settings refl) in
        let unassigned = run-without-dest_port n (made start) (ap (λ x. x.dest_port) d) in
        let (t, ran, threads, listeners) =
          ReadsUnassigned-undefined (made start) (run n (made start)) unassigned in
        let stops = all_modules_loaded_lem n notified ended start t ran in
        let loads = load_module_lem sm value contract (all_modules_loaded n notified ended) l in
        (
          set_server (some t) (initialised start),
          t,
          ground (arith, stops, loads),
          refl,
          threads,
          listeners,
        )
