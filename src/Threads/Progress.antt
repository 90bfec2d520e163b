-- ===== src/Threads/Progress.antt =====
-- That threads which share the mutex come on: no order of their turns leads to a deadlock.
use book_filer_module_ssh.Prelude.{
  ℕ, String, ◌+◌, true, none, some, List, [], ◌∷◌, length, ◌≡◌, ◌≢◌, ◌⊎◌, inl, inr, refl, arith,
  Option-cases, Bool-cases,
}
use book_filer_module_ssh.Log.{Printer}
use book_filer_module_ssh.Log.Call.{insertions}
use book_filer_module_ssh.Module.{Thread}
use book_filer_module_ssh.Module.Waiting.{waiting_on}
use book_filer_module_ssh.Threads.{
  Task, logs, appends, waits, notifies, prints, Position, outside, inserting, appending, emplacing,
  asleep, woken, finding, printing, System, is_in, lock, begin, go_on, turn,
}
use book_filer_module_ssh.Threads.Holding.{IsHeld, holds}

-- The turns that a position, and a call, still take when nothing is in their way.
abbrev pub turns_at : Position → ℕ
turns_at outside = 0
turns_at (inserting texts) = length texts + 1
turns_at (appending c) = 2
turns_at (emplacing handle) = 4
turns_at (asleep handle) = 3
turns_at woken = 2
turns_at (finding i handle) = 1
turns_at (printing texts) = length texts + 1

abbrev pub IsDone : System → Thread → Type 0
IsDone s t = (s.position t ≡ outside) × (s.tasks t ≡ [])

abbrev pub IsSleeping : System → Thread → Type 0
IsSleeping s t =
    (handle : String) × (s.position t ≡ asleep handle)
    × (is_in t (waiting_on handle s.exported) ≡ true)

module _ (printer : Printer) where
  abbrev pub turns_for : Thread → Task → ℕ
  turns_for t (logs c) = length (insertions printer t c) + 2
  turns_for t (appends c) = 3
  turns_for t (waits handle) = 5
  turns_for t (notifies i handle) = 2
  turns_for t (prints texts) = length texts + 2

  abbrev pub turns_for_all : Thread → List Task → ℕ
  turns_for_all t [] = 0
  turns_for_all t (call ∷ calls) = turns_for t call + turns_for_all t calls

  abbrev pub work : System → Thread → ℕ
  work s t = turns_at (s.position t) + turns_for_all t (s.tasks t)

  -- A turn of `t` brings it on, and leaves the work of the others.
  abbrev pub ComesOn : System → Thread → Type 0
  ComesOn s t =
      (work (turn printer t s) t + 1 ≡ work s t)
      × ((u : Thread) → t ≢ u → work (turn printer t s) u ≡ work s u)

  begin-ComesOn :
      (s : System) (t : Thread) (call : Task) (rest : List Task)
      → s.position t ≡ outside
      → s.tasks t ≡ call ∷ rest
      → s.mutex ≡ none
      → ComesOn s t
  unfolding turn begin lock go_on
  begin-ComesOn s t (logs c) rest at eq free = (ground arith, λ u other. ground arith)
  begin-ComesOn s t call rest at eq free = (ground arith, λ u other. ground arith)

  holder-ComesOn :
      (s : System) (t : Thread) (p : Position) → s.position t ≡ p → holds p ≡ true → ComesOn s t
  unfolding turn go_on
  holder-ComesOn s t (inserting []) at h = (ground arith, λ u other. ground arith)
  holder-ComesOn s t (inserting (x ∷ xs)) at h = (ground arith, λ u other. ground arith)
  holder-ComesOn s t (appending c) at h = (ground arith, λ u other. ground arith)
  holder-ComesOn s t (emplacing handle) at h = (ground arith, λ u other. ground arith)
  holder-ComesOn s t outside at h = cc
  holder-ComesOn s t (asleep handle) at h = cc
  holder-ComesOn s t woken at h = cc
  holder-ComesOn s t (finding i handle) at h = cc
  holder-ComesOn s t (printing texts) at h = cc

  -- A thread has nothing to do, or sleeps, or some thread comes on in its next turn.
  abbrev pub Goes : System → Thread → Type 0
  Goes s t = IsDone s t ⊎ (IsSleeping s t ⊎ ((u : Thread) × ComesOn s u))

  -- Where the mutex is locked, its holder comes on.
  taken-ComesOn : (s : System) (u : Thread) → IsHeld s → s.mutex ≡ some u → ComesOn s u
  taken-ComesOn s u held taken = holder-ComesOn s u (s.position u) refl (ground (arith, held u))

  outside-Goes :
      (s : System) (t : Thread) (calls : List Task)
      → IsHeld s
      → s.position t ≡ outside
      → s.tasks t ≡ calls
      → Goes s t
  outside-Goes s t [] held at eq = inl (at, eq)
  outside-Goes s t (call ∷ rest) held at eq = inr (
      inr (elim (Option-cases s.mutex) [
        | inl free ↦ (t, begin-ComesOn s t call rest at eq free)
        | inr (u, taken) ↦ (u, taken-ComesOn s u held taken)
      ]))

  asleep-Goes :
      (s : System) (t : Thread) (handle : String) → s.position t ≡ asleep handle → Goes s t
  unfolding turn go_on
  asleep-Goes s t handle at = inr (elim (Bool-cases (is_in t (waiting_on handle s.exported))) [
    | inl listed ↦ inl (handle, at, listed)
    | inr notified ↦ inr (t, (ground arith, λ u other. ground arith))
  ])

  woken-ComesOn : (s : System) (t : Thread) → s.position t ≡ woken → s.mutex ≡ none → ComesOn s t
  unfolding turn go_on lock
  woken-ComesOn s t at free = (ground arith, λ u other. ground arith)

  finding-ComesOn :
      (s : System) (t : Thread) (i : ℕ) (handle : String)
      → s.position t ≡ finding i handle
      → ComesOn s t
  unfolding turn go_on
  finding-ComesOn s t i handle at = (ground arith, λ u other. ground arith)

  printing-ComesOn :
      (s : System) (t : Thread) (texts : List String) → s.position t ≡ printing texts → ComesOn s t
  unfolding turn go_on
  printing-ComesOn s t [] at = (ground arith, λ u other. ground arith)
  printing-ComesOn s t (x ∷ xs) at = (ground arith, λ u other. ground arith)

  pub goes : (s : System) (t : Thread) (p : Position) → IsHeld s → s.position t ≡ p → Goes s t
  goes s t outside held at = outside-Goes s t (s.tasks t) held at refl
  goes s t (asleep handle) held at = asleep-Goes s t handle at
  goes s t woken held at = inr (
      inr (elim (Option-cases s.mutex) [
        | inl free ↦ (t, woken-ComesOn s t at free)
        | inr (u, taken) ↦ (u, taken-ComesOn s u held taken)
      ]))
  goes s t (finding i handle) held at = inr (inr (t, finding-ComesOn s t i handle at))
  goes s t (printing texts) held at = inr (inr (t, printing-ComesOn s t texts at))
  goes s t (inserting texts) held at = inr (inr (t, holder-ComesOn s t (inserting texts) at refl))
  goes s t (appending c) held at = inr (inr (t, holder-ComesOn s t (appending c) at refl))
  goes s t (emplacing handle) held at = inr (inr (t, holder-ComesOn s t (emplacing handle) at refl))
