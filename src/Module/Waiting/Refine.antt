-- ===== src/Module/Waiting/Refine.antt =====
-- The map of condition variables against its specification: a list of sleeping threads for each handle.
use mathlib.Core.Path.{subst}
use book_filer_module_ssh.Prelude.{
  ℕ, zero, suc, String, List, [], ◌∷◌, ◌++◌, eq_iff, ◌≡◌, ◌≢◌, ◌⊎◌, inl, inr, refl, arith, ap, sym,
}
use book_filer_module_ssh.Module.{Thread, Module, wake, wait, notify}
use book_filer_module_ssh.Module.Waiting.{waiting_on, waiting_on-wait, waiting_on-notify}

-- The calls that threads make, in the order in which they happen.
pub data Call : Type 0 where
  waits : Thread → String → Call
  notifies : ℕ → String → Call

unfoldable pub run : List Call → Module → Module
run [] m = m
run (waits t handle ∷ calls) m = run calls (wait t handle m)
run (notifies i handle ∷ calls) m = run calls (notify i handle m)

abbrev pub Sleepers : Type 0
Sleepers = String → List Thread

-- What a notification does to the threads that sleep: nothing where there are none, and otherwise it
-- takes exactly one of them out.
abbrev pub Woken : List Thread → List Thread → Type 0
Woken ts us =
    ((ts ≡ []) × (us ≡ []))
    ⊎ ((before : List Thread) × (t : Thread) × (after : List Thread) × (ts ≡ before ++ t ∷ after)
        × (us ≡ before ++ after))

-- One call: a thread goes to sleep behind the others of its handle, or a notification of a handle
-- wakes one. The threads of the other handles sleep on.
pub data Step : Call → Sleepers → Sleepers → Type 0 where
  falls_asleep :
      {s s' : Sleepers} (t : Thread) (handle : String)
      → s' handle ≡ s handle ++ t ∷ []
      → ((other : String) → handle ≢ other → s' other ≡ s other)
      → Step (waits t handle) s s'
  wakes_one :
      {s s' : Sleepers} (i : ℕ) (handle : String)
      → Woken (s handle) (s' handle)
      → ((other : String) → handle ≢ other → s' other ≡ s other)
      → Step (notifies i handle) s s'

pub data Steps : List Call → Sleepers → Sleepers → Type 0 where
  no_call : (s : Sleepers) → Steps [] s s
  then_call :
      {call : Call} {calls : List Call} {s s' s'' : Sleepers}
      → Step call s s'
      → Steps calls s' s''
      → Steps (call ∷ calls) s s''

abbrev pub sleepers : Module → Sleepers
sleepers m other = waiting_on other m

later-Woken :
    (t : Thread) (ts us : List Thread) (u : Thread)
    → Woken (u ∷ ts) us
    → Woken (t ∷ u ∷ ts) (t ∷ us)
later-Woken t ts us u (inl (e, _)) = cc e
later-Woken t ts us u (inr (before, v, after, e, e')) =
    inr (t ∷ before, v, after, ap (λ xs. t ∷ xs) e, ap (λ xs. t ∷ xs) e')

wake-Woken : (i : ℕ) (ts : List Thread) → Woken ts (wake i ts)
unfolding wake
wake-Woken zero [] = inl (refl, refl)
wake-Woken (suc i) [] = inl (refl, refl)
wake-Woken zero (t ∷ ts) = inr ([], t, ts, refl, refl)
wake-Woken (suc i) (t ∷ []) = inr ([], t, [], refl, refl)
wake-Woken (suc i) (t ∷ u ∷ ts) = later-Woken t ts (wake i (u ∷ ts)) u (wake-Woken i (u ∷ ts))

wait-Step :
    (t : Thread) (handle : String) (m : Module)
    → Step (waits t handle) (sleepers m) (sleepers (wait t handle m))
wait-Step t handle m =
    falls_asleep t handle (ground (arith, waiting_on-wait t handle handle m, eq_iff handle handle))
      (λ other e. ground (arith, waiting_on-wait t handle other m, eq_iff handle other))

notify-Step :
    (i : ℕ) (handle : String) (m : Module)
    → Step (notifies i handle) (sleepers m) (sleepers (notify i handle m))
notify-Step i handle m =
    wakes_one i handle
      (subst (Woken (waiting_on handle m)) (sym here) (wake-Woken i (waiting_on handle m)))
      (λ other e. ground (arith, waiting_on-notify i handle other m, eq_iff handle other))
  where
    here : waiting_on handle (notify i handle m) ≡ wake i (waiting_on handle m)
    here = ground (arith, waiting_on-notify i handle handle m, eq_iff handle handle)

-- For every sequence of calls of `wait` and `notify`, the threads that wait on each handle change
-- call by call as the specification says: a thread that waits is added to the end of the list of
-- its handle; a notification takes exactly one thread out of the list of its handle, if that list
-- is not empty, and otherwise leaves it empty; and the lists of the other handles stay as they are.
pub run_refines :
    (calls : List Call) (m : Module) → Steps calls (sleepers m) (sleepers (run calls m))
unfolding run
run_refines [] m = no_call (sleepers m)
run_refines (waits t handle ∷ calls) m =
    then_call (wait-Step t handle m) (run_refines calls (wait t handle m))
run_refines (notifies i handle ∷ calls) m =
    then_call (notify-Step i handle m) (run_refines calls (notify i handle m))
