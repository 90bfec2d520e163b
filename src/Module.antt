-- ===== src/Module.antt =====
-- `ModuleExport` (src/Module.hpp and .cpp): the documents that are handed to it, the objects that it
-- makes, and the threads that wait for a handle. A document and a thread are numbers. A condition
-- variable is the list of the threads that wait on it; that one of them may also wake by itself is
-- left out. `newSshGlobal` stands in Global.
pub mod Waiting
pub mod Callbacks
use book_filer_module_ssh.Prelude.{
  ℕ, zero, suc, String, ℤ, pos, Bool, true, false, Option, none, some, List, [], ◌∷◌, ◌++◌, ◌||◌,
  str_eq, if◌then◌else◌,
}
use book_filer_module_ssh.Settings.{Settings}
use book_filer_module_ssh.Asio.{AddressApi}
use book_filer_module_ssh.Flow.{M, Result, returned, thrown, undefined, terminated, unfinished}
use book_filer_module_ssh.Client.Object.{Client, new_client, set_settings_doc}
use book_filer_module_ssh.Port.Server.{
  Server as ForwardingServer, new_server as new_forwarding_server,
  set_settings_doc as set_forwarding_settings_doc,
}
use book_filer_module_ssh.Tunnel.Server.{
  Server as TunnelServer, new_server as make_tunnel_server,
  set_settings_doc as set_tunnel_settings_doc,
}

abbrev pub Thread : Type 0
Thread = ℕ

-- `conditionVariableMap`.
abbrev pub ConditionVariables : Type 0
ConditionVariables = List (String × List Thread)

pub record Module : Type 0 where
  pub settings_doc : Option ℕ
  pub accounts_doc : Option ℕ
  pub condition_variable_map : ConditionVariables

unfoldable pub new_module : Module
new_module = record { settings_doc = none; accounts_doc = none; condition_variable_map = [] }

-- It only prints the module's name.
unfoldable pub init : M Module ℤ
init m = returned (pos 0) m

unfoldable pub set_accounts : Option ℕ → M Module ℤ
set_accounts doc m = returned (pos 0) (record m { accounts_doc = doc })

unfoldable pub set_settings : Option ℕ → M Module ℤ
set_settings doc m = returned (pos 0) (record m { settings_doc = doc })

-- The threads that wait on the variable of a handle; none if there is no variable.
unfoldable pub waiters : String → ConditionVariables → List Thread
waiters handle [] = []
waiters handle ((h, ts) ∷ rest) = if str_eq h handle then ts else waiters handle rest

-- `emplace` and then `at(handle_).wait`: the variable is made where there is none, and the thread
-- waits on it.
unfoldable pub add_waiter : Thread → String → ConditionVariables → ConditionVariables
add_waiter t handle [] = (handle, t ∷ []) ∷ []
add_waiter t handle ((h, ts) ∷ rest) =
    let later = add_waiter t handle rest in
    if str_eq h handle then (h, ts ++ t ∷ []) ∷ rest else (h, ts) ∷ later

-- One thread of a list, at a position or the last one, wakes.
unfoldable pub wake : ℕ → List Thread → List Thread
wake i [] = []
wake zero (t ∷ ts) = ts
wake (suc i) (t ∷ []) = []
wake (suc i) (t ∷ u ∷ ts) = t ∷ wake i (u ∷ ts)

-- `find` and then `at(handle_).notify_one`.
unfoldable pub notify_one : ℕ → String → ConditionVariables → ConditionVariables
notify_one i handle [] = []
notify_one i handle ((h, ts) ∷ rest) =
    let later = notify_one i handle rest in
    if str_eq h handle then (h, wake i ts) ∷ rest else (h, ts) ∷ later

-- What `wait` does before the thread sleeps.
unfoldable pub wait : Thread → String → Module → Module
wait t handle m = record m { condition_variable_map = add_waiter t handle m.condition_variable_map }

-- `i` is the choice of the thread that `notify_one` wakes.
unfoldable pub notify : ℕ → String → Module → Module
notify i handle m = record m {
  condition_variable_map = notify_one i handle m.condition_variable_map;
}

-- The object that a method which returned has left.
abbrev pub left : {A : Type 0} {S : Type 0} → Result S A → Option S
left (returned a s) = some s
left (thrown e s) = none
left (undefined s) = none
left (terminated s) = none
left (unfinished s) = none

-- The factories: a new object, to which the document is handed.
module _ (api : AddressApi) where
  open api use {Address}

  unfoldable pub new_port_forwarding : Settings → Module → Option (ForwardingServer Address)
  new_port_forwarding map m =
      left (set_forwarding_settings_doc m.settings_doc (new_forwarding_server api map))

  unfoldable pub new_tunnel_server : Settings → Module → Option (TunnelServer Address)
  new_tunnel_server map m =
      left (set_tunnel_settings_doc m.settings_doc (make_tunnel_server api map))

unfoldable pub new_ssh_client : {World : Type 0} → Settings → World → Module → Option (Client World)
new_ssh_client map w m = left (set_settings_doc m.settings_doc (new_client map w))
