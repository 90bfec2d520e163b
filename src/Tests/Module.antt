-- ===== src/Tests/Module.antt =====
-- The theorems about the module's interface at concrete inputs.
use book_filer_module_ssh.Prelude.{List, [], ◌∷◌}
use book_filer_module_ssh.Module.{Module, new_module, wait}
use book_filer_module_ssh.Module.Waiting.Refine.{
  Call, waits, notifies, run, Steps, sleepers, run_refines,
}

abbrev module_with_waiter : Module
module_with_waiter = wait 7 "other" new_module

abbrev calls : List Call
calls = waits 3 "done" ∷ waits 4 "done" ∷ notifies 1 "done" ∷ notifies 0 "other" ∷ []

run_refines_example :
    Steps calls (sleepers module_with_waiter) (sleepers (run calls module_with_waiter))
run_refines_example = run_refines calls module_with_waiter
