-- ===== src/Loader.antt =====
-- `loadModule` (include/BookFilerModuleSshLoader.hpp): it connects two handlers to the signals of the
-- module manager and has it load a directory. Which signals are sent is an argument, and so is the
-- settings manager: both are libraries that stand in third_party.
pub mod Deploy
use book_filer_module_ssh.Prelude.{ℕ, String, ℤ, pos, Bool, true, Option, none, some, List, [], ◌∷◌}
use book_filer_module_ssh.Flow.{
  M, Result, returned, thrown, undefined, terminated, unfinished, ◌>>=◌, ◌>>◌, pure, get, modify,
}
use book_filer_module_ssh.Module.{Module, init}
use book_filer_module_ssh.Module.Callbacks.{
  Callback, Members, Callbacks, register_settings, dispatch,
}

pub record SettingsManager : Type 1 where
  pub Manager : Type 0
  pub new_manager : Manager
  pub merge : Members → Callbacks → Manager → Manager
  -- The calls that the file of settings gives rise to, in order: a callback and a document.
  pub deploy_file : String → Manager → List (Callback × ℕ)

-- `getCallbackLoadSignal` with the module, and `callbackLoadAllSignal`.
pub data Signal : Type 0 where
  module_loaded all_loaded : Signal

pub record Loader (Manager World : Type 0) : Type 0 where
  -- The module that the library exports, and whether `sshModule` points to it.
  pub exported : Module
  pub ssh_module : Bool
  pub settings_manager : Manager
  -- What the caller's callback works on.
  pub world : World

-- A method of the module, run on the exported object.
abbrev pub on_module : {Manager World A : Type 0} → M Module A → M (Loader Manager World) A
on_module m l = elim (m l.exported) [
  | returned a d ↦ returned a (record l { exported = d })
  | thrown e d ↦ thrown e (record l { exported = d })
  | undefined d ↦ undefined (record l { exported = d })
  | terminated d ↦ terminated (record l { exported = d })
  | unfinished d ↦ unfinished (record l { exported = d })
]

-- The calls of the callbacks.
unfoldable pub call_all :
    {Manager World : Type 0} → List (Callback × ℕ) → M (Loader Manager World) (Unit {0})
call_all [] = pure tt
call_all ((f, doc) ∷ calls) = do _ ← on_module (dispatch f (some doc)); call_all calls

module _ (sm : SettingsManager) {World : Type 0} where
  open sm use {Manager, new_manager, merge, deploy_file}

  -- The handler of the first signal.
  unfoldable pub on_load : M (Loader Manager World) ℤ
  on_load = do
    modify (λ l. record l { ssh_module = true })
    _ ← on_module init
    let (rc, request, callbacks) = register_settings [] []
    modify (λ l. record l { settings_manager = merge request callbacks l.settings_manager })
    pure (pos 0)

  -- The handler of the second signal.
  unfoldable pub on_load_all : M (Loader Manager World) (Unit {0}) → M (Loader Manager World) ℤ
  on_load_all callback = do
    l ← get
    call_all (deploy_file "settings.json" l.settings_manager)
    callback
    pure (pos 0)

  unfoldable pub signals :
      List Signal → M (Loader Manager World) (Unit {0}) → M (Loader Manager World) (Unit {0})
  signals [] callback = pure tt
  signals (module_loaded ∷ rest) callback = do _ ← on_load; signals rest callback
  signals (all_loaded ∷ rest) callback = do _ ← on_load_all callback; signals rest callback

  unfoldable pub load_module :
      List Signal → M (Loader Manager World) (Unit {0}) → M (Loader Manager World) ℤ
  load_module sent callback = do
    modify (λ l. record l { settings_manager = new_manager })
    signals sent callback
    pure (pos 0)
