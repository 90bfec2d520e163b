-- ===== src/Example/Forwarding.antt =====
-- src_example/port-forwarding/main.cpp: `allModulesLoaded` and `main`.
use book_filer_module_ssh.Prelude.{
  ℕ, String, ℤ, pos, modulo, Bool, Option, some, List, [], ◌∷◌, ◌≡◌, refl, ap, arith,
}
use book_filer_module_ssh.Settings.{Bytes, Settings, int, string, lookup}
use book_filer_module_ssh.Settings.Distinct.{is_map-IsMap}
use book_filer_module_ssh.Asio.{AddressApi}
use book_filer_module_ssh.Flow.{M, undefined, ◌>>=◌, ◌>>◌, pure, modify}
use book_filer_module_ssh.Module.{new_port_forwarding}
use book_filer_module_ssh.Port.Server.{Server, new_server, set_settings_doc, run, destroy}
use book_filer_module_ssh.Port.Configure.{port_configure-described}
use book_filer_module_ssh.Port.Server.Running.{run-without-threads_num}
use book_filer_module_ssh.Loader.{
  SettingsManager, Signal, module_loaded, all_loaded, Loader, load_module,
}
use book_filer_module_ssh.Loader.Deploy.{DeployContract, deployed, load_module_lem}
use book_filer_module_ssh.Example.{Process, set_server, on_server, wait_exit}

abbrev pub localhost : Bytes
localhost = b'1' ∷ b'2' ∷ b'7' ∷ b'.' ∷ b'0' ∷ b'.' ∷ b'0' ∷ b'.' ∷ b'1' ∷ []

abbrev pub server_name : Bytes
server_name = b'S' ∷ b'E' ∷ b'R' ∷ b'V' ∷ b'E' ∷ b'R' ∷ []

abbrev pub settings : Settings
settings =
    ("destAddress", string server_name)
    ∷ ("destPort", int (pos 21098))
    ∷ ("sourceAddress", string localhost)
    ∷ ("sourcePort", int (pos 3306))
    ∷ []

module _ (api : AddressApi) (sm : SettingsManager) {Library : Type 0} where
  open api use {Address, from_string}
  open sm use {Manager}

  -- The server goes out of scope at the end; `ended` says whether its threads end.
  unfoldable pub all_modules_loaded :
      ℕ → Bool → Bool → M (Loader Manager (Process Library (Server Address))) (Unit {0})
  all_modules_loaded hardware_threads notified ended = do
    modify (λ l. set_server (new_port_forwarding api settings l.exported) l)
    _ ← on_server (run hardware_threads)
    wait_exit notified
    on_server (destroy ended)

  unfoldable pub main :
      List Signal → ℕ → Bool → Bool → M (Loader Manager (Process Library (Server Address))) ℤ
  main sent hardware_threads notified ended = do
    _ ← load_module sm sent (all_modules_loaded hardware_threads notified ended)
    pure (pos 0)

  -- The server that `newPortForwarding` makes.
  abbrev made : Loader Manager (Process Library (Server Address)) → Server Address
  made l = record (new_server api settings) { settings_doc = l.exported.settings_doc }

  all_modules_loaded_lem :
      (n : ℕ) (notified ended : Bool) (l : Loader Manager (Process Library (Server Address)))
      → run n (made l) ≡ undefined (made l)
      → all_modules_loaded n notified ended l ≡ undefined (set_server (some (made l)) l)
  unfolding all_modules_loaded new_port_forwarding set_settings_doc
  all_modules_loaded_lem n notified ended l e = ground (arith, e)

  module _ (value : String → Option ℕ) (contract : DeployContract sm value) where
    -- The program for port forwarding, on any module loader that loads the module and on a
    -- settings manager that obeys its contract, reads a member that was never assigned, with a
    -- server that is configured to forward port 3306 to port 21098 and has no thread and no
    -- listener.
    pub main_reads_threads_num :
        (hardware_threads : ℕ) (notified ended : Bool)
        (l : Loader Manager (Process Library (Server Address)))
        → (d : Loader Manager (Process Library (Server Address))) × (s : Server Address) × (main
              (module_loaded ∷ all_loaded ∷ [])
              hardware_threads
              notified
              ended
              l
            ≡ undefined d)
          × (d.world.server ≡ some s)
          × (s.server_state.source_port ≡ some 3306)
          × (s.server_state.dest_port ≡ some 21098)
          × (s.threads ≡ 0)
          × (s.listeners ≡ [])
    unfolding main new_server lookup modulo
    main_reads_threads_num n notified ended l =
        let start : Loader Manager (Process Library (Server Address)) = deployed sm value l in
        let d = port_configure-described api settings (is_map-IsMap settings refl) in
        let stops =
          all_modules_loaded_lem n notified ended start
            (run-without-threads_num n (made start) (ap (λ x. x.threads_num) d)) in
        let loads = load_module_lem sm value contract (all_modules_loaded n notified ended) l in
        (
          set_server (some (made start)) start,
          made start,
          ground (arith, stops, loads),
          refl,
          ap (λ x. x.source_port) d,
          ap (λ x. x.dest_port) d,
          refl,
          refl,
        )
