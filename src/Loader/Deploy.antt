-- ===== src/Loader/Deploy.antt =====
-- What the callback of `loadModule` finds: the documents of the settings file.
use book_filer_module_ssh.Prelude.{
  ℕ, String, pos, true, Option, none, some, List, [], ◌∷◌, ◌≡◌, arith,
}
use book_filer_module_ssh.Flow.{M, ◌>>◌, pure}
use book_filer_module_ssh.Module.{init, set_accounts, set_settings}
use book_filer_module_ssh.Module.Callbacks.{
  Callback, accounts, settings, Members, Callbacks, find, insert, register_settings, dispatch,
}
use book_filer_module_ssh.Loader.{
  SettingsManager, module_loaded, all_loaded, Loader, call_all, on_load, on_load_all, signals,
  load_module,
}

-- The calls for an object of settings, by the members of the request: each that the settings have,
-- and whose callback is registered.
abbrev pub calls_for : (String → Option ℕ) → Members → Callbacks → List (Callback × ℕ)
calls_for value [] callbacks = []
calls_for value ((key, name) ∷ rest) callbacks =
    let later = calls_for value rest callbacks in
    elim (value key) [
      | none ↦ later
      | some doc ↦ elim (find name callbacks) [ none ↦ later | some f ↦ (f, doc) ∷ later ]
    ]

-- The contract of the settings manager, after one merge, for a file whose object has the values
-- `value`.
pub record DeployContract (sm : SettingsManager) (value : String → Option ℕ) : Type 0 where
  pub deploys :
      (request : Members) (callbacks : Callbacks)
      → sm.deploy_file "settings.json" (sm.merge request callbacks sm.new_manager)
        ≡ calls_for value request callbacks

-- A document that the settings have, or the one that was there.
abbrev pub or_else : Option ℕ → Option ℕ → Option ℕ
or_else none old = old
or_else (some doc) old = some doc

module _ (sm : SettingsManager) {World : Type 0} (value : String → Option ℕ) where
  open sm use {Manager, new_manager, merge}

  -- The loader when the callback starts.
  abbrev pub deployed : Loader Manager World → Loader Manager World
  deployed l = record {
    exported = record (l.exported) {
      accounts_doc = or_else (value "HTTP_accounts") l.exported.accounts_doc;
      settings_doc = or_else (value "HTTP_settings") l.exported.settings_doc;
    };
    ssh_module = true;
    settings_manager =
        merge (("HTTP_accounts", "HTTP_accountsCB") ∷ ("HTTP_settings", "HTTP_settingsCB") ∷ [])
          (("HTTP_accountsCB", accounts) ∷ ("HTTP_settingsCB", settings) ∷ []) new_manager;
    world = l.world;
  }

  -- Where the settings manager, after one merge, calls for each member of the request that the
  -- settings file has a value for the callback of that member, and the module manager sends one
  -- signal that the module was loaded and then one that all are: `loadModule` does what the
  -- callback of the caller does in the state in which the module has the accounts and the
  -- settings of the file, each where the file has it and otherwise those from before, and the
  -- settings manager is new but for that merge; and it returns 0 if the callback returns.
  pub load_module_lem :
      (contract : DeployContract sm value) (callback : M (Loader Manager World) (Unit {0}))
      (l : Loader Manager World)
      → load_module sm (module_loaded ∷ all_loaded ∷ []) callback l
        ≡ (callback >> pure (pos 0)) (deployed l)
  unfolding load_module signals on_load on_load_all call_all register_settings insert dispatch init
      set_accounts set_settings
  load_module_lem contract callback l = ground (
    arith,
    contract.deploys
        (("HTTP_accounts", "HTTP_accountsCB") ∷ ("HTTP_settings", "HTTP_settingsCB") ∷ [])
        (("HTTP_accountsCB", accounts) ∷ ("HTTP_settingsCB", settings) ∷ []),
  )
