-- ===== src/Example.antt =====
-- The programs under src_example: what the two have in common. The main thread is thread 0.
pub mod Forwarding
pub mod Tunneling
use book_filer_module_ssh.Prelude.{ℕ, Bool, true, false, Option, none, some}
use book_filer_module_ssh.Flow.{
  M, Result, returned, thrown, undefined, terminated, unfinished, ◌>>=◌, ◌>>◌, modify,
}
use book_filer_module_ssh.Module.{Thread, wait, notify}
use book_filer_module_ssh.Loader.{Loader}

-- The state of libssh2, and the server that the local variable of `allModulesLoaded` points to.
pub record Process (Library Server : Type 0) : Type 0 where
  pub library : Library
  pub server : Option Server

abbrev pub main_thread : Thread
main_thread = 0

module _ {Manager Library Server : Type 0} where
  abbrev pub set_server :
      Option Server
      → Loader Manager (Process Library Server)
      → Loader Manager (Process Library Server)
  set_server server l = record l { world = record (l.world) { server = server } }

  abbrev pub set_library :
      Library → Loader Manager (Process Library Server) → Loader Manager (Process Library Server)
  set_library library l = record l { world = record (l.world) { library = library } }

  -- A method of the server; there is none behind a null pointer.
  abbrev pub on_server : {A : Type 0} → M Server A → M (Loader Manager (Process Library Server)) A
  on_server m l = elim l.world.server [
    | none ↦ undefined l
    | some server ↦ elim (m server) [
      | returned a s ↦ returned a (set_server (some s) l)
      | thrown e s ↦ thrown e (set_server (some s) l)
      | undefined s ↦ undefined (set_server (some s) l)
      | terminated s ↦ terminated (set_server (some s) l)
      | unfinished s ↦ unfinished (set_server (some s) l)
    ]
  ]

  abbrev pub on_library : {A : Type 0} → M Library A → M (Loader Manager (Process Library Server)) A
  on_library m l = elim (m l.world.library) [
    | returned a s ↦ returned a (set_library s l)
    | thrown e s ↦ thrown e (set_library s l)
    | undefined s ↦ undefined (set_library s l)
    | terminated s ↦ terminated (set_library s l)
    | unfinished s ↦ unfinished (set_library s l)
  ]

  -- `sshModule->wait("exit")`. Whether a notification comes is an argument.
  unfoldable pub wait_exit : Bool → M (Loader Manager (Process Library Server)) (Unit {0})
  wait_exit notified l =
      let l = record l { exported = wait main_thread "exit" l.exported } in
      elim notified [
        | true ↦ returned tt (record l { exported = notify 0 "exit" l.exported })
        | false ↦ unfinished l
      ]
