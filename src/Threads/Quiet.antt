-- ===== src/Threads/Quiet.antt =====
-- Threads that insert into the console under the mutex only.
use book_filer_module_ssh.Prelude.{List, [], ◌∷◌, ◌≡◌, refl, arith}
use book_filer_module_ssh.Log.{Printer}
use book_filer_module_ssh.Module.{Thread}
use book_filer_module_ssh.Threads.{
  Task, logs, appends, waits, notifies, prints, Position, outside, inserting, appending, emplacing,
  asleep, woken, finding, printing, System, lock, begin, go_on, turn,
}

-- No call is one that prints without the mutex.
abbrev pub AreQuiet : List Task → Type 0
AreQuiet [] = Unit {0}
AreQuiet (logs c ∷ calls) = AreQuiet calls
AreQuiet (appends c ∷ calls) = AreQuiet calls
AreQuiet (waits handle ∷ calls) = AreQuiet calls
AreQuiet (notifies i handle ∷ calls) = AreQuiet calls
AreQuiet (prints texts ∷ calls) = ⊥

abbrev pub IsQuietAt : Position → Type 0
IsQuietAt (printing texts) = ⊥
IsQuietAt outside = Unit {0}
IsQuietAt (inserting texts) = Unit {0}
IsQuietAt (appending c) = Unit {0}
IsQuietAt (emplacing handle) = Unit {0}
IsQuietAt (asleep handle) = Unit {0}
IsQuietAt woken = Unit {0}
IsQuietAt (finding i handle) = Unit {0}

abbrev pub IsQuiet : System → Type 0
IsQuiet s = (t : Thread) → IsQuietAt (s.position t) × AreQuiet (s.tasks t)

module _ (printer : Printer) where
  begin-IsQuiet :
      (t : Thread) (calls : List Task) (s : System)
      → s.tasks t ≡ calls
      → IsQuiet s
      → IsQuiet (begin printer t calls s)
  unfolding begin lock
  begin-IsQuiet t [] s e quiet u = quiet u
  begin-IsQuiet t (logs c ∷ rest) s e quiet u = ground (arith, quiet u, quiet t)
  begin-IsQuiet t (call ∷ rest) s e quiet u = ground (arith, quiet u, quiet t)

  go_on-IsQuiet :
      (t : Thread) (p : Position) (s : System)
      → s.position t ≡ p
      → IsQuiet s
      → IsQuiet (go_on printer t p s)
  unfolding go_on lock
  go_on-IsQuiet t outside s e quiet u = begin-IsQuiet t (s.tasks t) s refl quiet u
  go_on-IsQuiet t (inserting []) s e quiet u = ground (arith, quiet u, quiet t)
  go_on-IsQuiet t (inserting (x ∷ xs)) s e quiet u = ground (arith, quiet u, quiet t)
  go_on-IsQuiet t (printing []) s e quiet u = ground (arith, quiet u, quiet t)
  go_on-IsQuiet t (printing (x ∷ xs)) s e quiet u = ground (arith, quiet u, quiet t)
  go_on-IsQuiet t p s e quiet u = ground (arith, quiet u, quiet t)

  pub turn-IsQuiet : (t : Thread) (s : System) → IsQuiet s → IsQuiet (turn printer t s)
  unfolding turn
  turn-IsQuiet t s quiet = go_on-IsQuiet t (s.position t) s refl quiet
