-- ===== src/Tests/Loader.antt =====
-- The loader at a settings manager that remembers what was merged.
use book_filer_module_ssh.Prelude.{
  suc, ℕ, String, str_eq, if◌then◌else◌, Option, none, some, pos, false, [], ◌∷◌, ◌≡◌, refl,
}
use book_filer_module_ssh.Flow.{M, returned}
use book_filer_module_ssh.Module.{new_module}
use book_filer_module_ssh.Module.Callbacks.{Members, Callbacks}
use book_filer_module_ssh.Loader.{SettingsManager, module_loaded, all_loaded, Loader, load_module}
use book_filer_module_ssh.Loader.Deploy.{calls_for, DeployContract, deployed, load_module_lem}

-- The file has accounts and no settings.
abbrev pub value : String → Option ℕ
value key = if str_eq key "HTTP_accounts" then some 7 else none

abbrev pub manager : SettingsManager
manager = record {
  Manager = Members × Callbacks;
  new_manager = ([], []);
  merge = λ request callbacks m. (request, callbacks);
  deploy_file = λ name m. calls_for value m.0 m.1;
}

abbrev pub deploy_contract : DeployContract manager value
deploy_contract = record { deploys = λ request callbacks. refl }

abbrev loader : Loader (Members × Callbacks) ℕ
loader = record {
  exported = record new_module { settings_doc = some 3 };
  ssh_module = false;
  settings_manager = ([], []);
  world = 0;
}

-- The callback of the caller counts its calls.
abbrev count : M (Loader (Members × Callbacks) ℕ) (Unit {0})
count l = returned tt (record l { world = suc l.world })

-- The accounts are those of the file, and the settings those that were there before.
load_module_lem_example :
    load_module manager (module_loaded ∷ all_loaded ∷ []) count loader
    ≡ returned (pos 0) (record (deployed manager value loader) { world = 1 })
load_module_lem_example = load_module_lem manager value deploy_contract count loader
