-- ===== src/Threads/Holding.antt =====
-- Which thread holds `globalMutex`: the one that stands where the code has locked it.
use book_filer_module_ssh.Prelude.{
  Bool, true, false, Option, none, some, List, [], ◌∷◌, ◌==◌, ◌≡◌, refl, arith,
}
use book_filer_module_ssh.Log.{Printer}
use book_filer_module_ssh.Module.{Thread}
use book_filer_module_ssh.Threads.{
  Task, logs, appends, waits, notifies, prints, Position, outside, inserting, appending, emplacing,
  asleep, woken, finding, printing, System, lock, start, begin, go_on, turn, run,
}

abbrev pub holds : Position → Bool
holds (inserting texts) = true
holds (appending c) = true
holds (emplacing handle) = true
holds outside = false
holds (asleep handle) = false
holds woken = false
holds (finding i handle) = false
holds (printing texts) = false

abbrev pub is_holder : Option Thread → Thread → Bool
is_holder none t = false
is_holder (some u) t = u == t

-- The mutex is held by the thread whose position says so.
abbrev pub IsHeld : System → Type 0
IsHeld s = (t : Thread) → holds (s.position t) ≡ is_holder s.mutex t

pub mutex-holds :
    (s : System) (t : Thread) → IsHeld s → holds (s.position t) ≡ true → s.mutex ≡ some t
mutex-holds s t held inside = ground (arith, held t)

module _ (printer : Printer) where
  begin-IsHeld :
      (t : Thread) (calls : List Task) (s : System)
      → holds (s.position t) ≡ false
      → IsHeld s
      → IsHeld (begin printer t calls s)
  unfolding begin lock
  begin-IsHeld t [] s free held u = held u
  begin-IsHeld t (logs c ∷ rest) s free held u = ground (arith, held u, held t)
  begin-IsHeld t (appends c ∷ rest) s free held u = ground (arith, held u, held t)
  begin-IsHeld t (waits handle ∷ rest) s free held u = ground (arith, held u, held t)
  begin-IsHeld t (notifies i handle ∷ rest) s free held u = ground (arith, held u, held t)
  begin-IsHeld t (prints texts ∷ rest) s free held u = ground (arith, held u, held t)

  go_on-IsHeld :
      (t : Thread) (p : Position) (s : System)
      → s.position t ≡ p
      → IsHeld s
      → IsHeld (go_on printer t p s)
  unfolding go_on lock
  go_on-IsHeld t outside s e held u = begin-IsHeld t (s.tasks t) s (rw e refl) held u
  go_on-IsHeld t (inserting []) s e held u = ground (arith, held u, held t)
  go_on-IsHeld t (inserting (x ∷ xs)) s e held u = ground (arith, held u, held t)
  go_on-IsHeld t (appending c) s e held u = ground (arith, held u, held t)
  go_on-IsHeld t (emplacing handle) s e held u = ground (arith, held u, held t)
  go_on-IsHeld t (asleep handle) s e held u = ground (arith, held u, held t)
  go_on-IsHeld t woken s e held u = ground (arith, held u, held t)
  go_on-IsHeld t (finding i handle) s e held u = ground (arith, held u, held t)
  go_on-IsHeld t (printing []) s e held u = ground (arith, held u, held t)
  go_on-IsHeld t (printing (x ∷ xs)) s e held u = ground (arith, held u, held t)

  pub turn-IsHeld : (t : Thread) (s : System) → IsHeld s → IsHeld (turn printer t s)
  unfolding turn
  turn-IsHeld t s held = go_on-IsHeld t (s.position t) s refl held

  run-IsHeld : (schedule : List Thread) (s : System) → IsHeld s → IsHeld (run printer schedule s)
  unfolding run
  run-IsHeld [] s held = held
  run-IsHeld (t ∷ schedule) s held = run-IsHeld schedule (turn printer t s) (turn-IsHeld t s held)

  pub reached-IsHeld :
      (programs : Thread → List Task) (schedule : List Thread)
      → IsHeld (run printer schedule (start programs))
  unfolding start
  reached-IsHeld programs schedule = run-IsHeld schedule (start programs) (λ t. refl)

  -- In every order of turns: two threads that stand where the code has locked the mutex are one.
  pub mutual_exclusion :
      (programs : Thread → List Task) (schedule : List Thread) (t u : Thread)
      → holds ((run printer schedule (start programs)).position t) ≡ true
      → holds ((run printer schedule (start programs)).position u) ≡ true
      → t ≡ u
  mutual_exclusion programs schedule t u at_t at_u =
      let s : System = run printer schedule (start programs) in
      let held : IsHeld s = reached-IsHeld programs schedule in
      ground (arith, mutex-holds s t held at_t, mutex-holds s u held at_u)
