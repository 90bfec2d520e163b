-- ===== src/Module/Callbacks.antt =====
-- `ModuleExport::registerSettings` (src/Module.cpp) and the callbacks that it registers. A JSON object
-- whose values are texts is the list of its members, and a `std::unordered_map` an association list.
use book_filer_module_ssh.Prelude.{
  ℕ, String, ℤ, pos, Option, none, some, List, [], ◌∷◌, ◌++◌, str_eq, if◌then◌else◌,
}
use book_filer_module_ssh.Flow.{M}
use book_filer_module_ssh.Module.{Module, set_accounts, set_settings}

-- A callback is a method that is bound to the module.
pub data Callback : Type 0 where
  accounts settings : Callback

abbrev pub Members : Type 0
Members = List (String × String)

abbrev pub Callbacks : Type 0
Callbacks = List (String × Callback)

-- `find`.
abbrev pub find : String → Callbacks → Option Callback
find key [] = none
find key ((k, f) ∷ rest) = if str_eq k key then some f else find key rest

-- `insert` leaves an entry that is there.
unfoldable pub insert : String → Callback → Callbacks → Callbacks
insert key f [] = (key, f) ∷ []
insert key f ((k, g) ∷ rest) = if str_eq k key then (k, g) ∷ rest else (k, g) ∷ insert key f rest

-- The request is made an object with no members before any is added; the second part is the map of
-- callbacks.
unfoldable pub register_settings : Members → Callbacks → ℤ × Members × Callbacks
register_settings request callbacks =
    let request : Members = [] in
    let request = request ++ ("HTTP_accounts", "HTTP_accountsCB") ∷ [] in
    let callbacks = insert "HTTP_accountsCB" accounts callbacks in
    let request = request ++ ("HTTP_settings", "HTTP_settingsCB") ∷ [] in
    let callbacks = insert "HTTP_settingsCB" settings callbacks in (pos 0, request, callbacks)

-- A call of a callback with a document.
unfoldable pub dispatch : Callback → Option ℕ → M Module ℤ
dispatch accounts = set_accounts
dispatch settings = set_settings
