-- ===== src/Threads/Settling.antt =====
-- Finitely many threads that share the mutex: from wherever their turns have led, they can come to
-- an end.
use book_filer_module_ssh.Prelude.{
  ℕ, zero, suc, ◌+◌, ◌≤◌, ◌<◌, List, [], ◌∷◌, ◌≡◌, ◌≢◌, ◌⊎◌, inl, inr, refl, ap, subst, arith,
}
use native.Mathlib.Decide.{dec_lt, ℕ_discrete}
use book_filer_module_ssh.Log.{Printer}
use book_filer_module_ssh.Module.{Thread}
use book_filer_module_ssh.Threads.{
  Task, logs, Position, outside, inserting, printing, System, lock, start, begin, go_on, turn, run,
}
use book_filer_module_ssh.Threads.Holding.{IsHeld, turn-IsHeld, reached-IsHeld}
use book_filer_module_ssh.Threads.Progress.{IsDone, IsSleeping, work, ComesOn, goes}

total : (Thread → ℕ) → ℕ → ℕ
total f zero = 0
total f (suc n) = total f n + f n

total-same : (f g : Thread → ℕ) (n : ℕ) → ((t : Thread) → t < n → g t ≡ f t) → total g n ≡ total f n
unfolding total
total-same f g zero same = refl
total-same f g (suc n) same =
    omega (arith, same n, total-same f g n (λ t below. same t (omega arith)))

total-less :
    (f g : Thread → ℕ) (u n : ℕ)
    → u < n
    → g u + 1 ≡ f u
    → ((t : Thread) → u ≢ t → g t ≡ f t)
    → total g n + 1 ≡ total f n
unfolding total
total-less f g u zero below less same = absurd (omega arith)
total-less f g u (suc n) below less same = elim (ℕ_discrete u n) [
  | yes last ↦
      omega (arith, total-same f g n (λ t before. same t (omega arith)), ap g last, ap f last)
  | no other ↦ omega (arith, same n other, total-less f g u n (omega arith) less same)
]

one_more :
    (m : ℕ) (P : Thread → Type 0)
    → ((t : Thread) → t < m → P t)
    → P m
    → (t : Thread) → t < suc m
    → P t
one_more m P before last t below = elim (ℕ_discrete m t) [
  | yes same ↦ subst P same last
  | no other ↦ before t (omega arith)
]

-- A thread has made all its calls, or sleeps.
abbrev pub IsSettled : System → Thread → Type 0
IsSettled s t = IsDone s t ⊎ IsSleeping s t

-- The threads from `n` on have nothing to do.
abbrev pub IsIdle : ℕ → System → Type 0
IsIdle n s = (t : Thread) → n ≤ t → IsDone s t

module _ (printer : Printer) where
  begin-IsIdle :
      (n : ℕ) (u : Thread) (calls : List Task) (s : System)
      → s.tasks u ≡ calls
      → IsIdle n s
      → IsIdle n (begin printer u calls s)
  unfolding begin lock
  begin-IsIdle n u [] s eq idle t beyond = idle t beyond
  begin-IsIdle n u (logs c ∷ rest) s eq idle t beyond = ground (arith, idle t beyond)
  begin-IsIdle n u (call ∷ rest) s eq idle t beyond = ground (arith, idle t beyond)

  go_on-IsIdle :
      (n : ℕ) (u : Thread) (p : Position) (s : System)
      → s.position u ≡ p
      → IsIdle n s
      → IsIdle n (go_on printer u p s)
  unfolding go_on lock
  go_on-IsIdle n u outside s e idle t beyond = begin-IsIdle n u (s.tasks u) s refl idle t beyond
  go_on-IsIdle n u (inserting []) s e idle t beyond = ground (arith, idle t beyond)
  go_on-IsIdle n u (inserting (x ∷ xs)) s e idle t beyond = ground (arith, idle t beyond)
  go_on-IsIdle n u (printing []) s e idle t beyond = ground (arith, idle t beyond)
  go_on-IsIdle n u (printing (x ∷ xs)) s e idle t beyond = ground (arith, idle t beyond)
  go_on-IsIdle n u p s e idle t beyond = ground (arith, idle t beyond)

  turn-IsIdle : (n : ℕ) (u : Thread) (s : System) → IsIdle n s → IsIdle n (turn printer u s)
  unfolding turn
  turn-IsIdle n u s idle = go_on-IsIdle n u (s.position u) s refl idle

  run-IsIdle :
      (n : ℕ) (schedule : List Thread) (s : System) → IsIdle n s → IsIdle n (run printer schedule s)
  unfolding run
  run-IsIdle n [] s idle = idle
  run-IsIdle n (u ∷ schedule) s idle =
      run-IsIdle n schedule (turn printer u s) (turn-IsIdle n u s idle)

  IsSettled-or_goes :
      (m : ℕ) (s : System)
      → IsHeld s
      → ((t : Thread) → t < m → IsSettled s t) ⊎ ((u : Thread) × ComesOn printer s u)
  IsSettled-or_goes zero s held = inl (λ t below. absurd (omega arith))
  IsSettled-or_goes (suc m) s held = elim (IsSettled-or_goes m s held) [
    | inr some_goes ↦ inr some_goes
    | inl before ↦ elim (goes printer s m (s.position m) held refl) [
      | inl done ↦ inl (one_more m (IsSettled s) before (inl done))
      | inr (inl sleeping) ↦ inl (one_more m (IsSettled s) before (inr sleeping))
      | inr (inr some_goes) ↦ inr some_goes
    ]
  ]

  -- Only a thread that has something to do comes on.
  ComesOn-lt : (n : ℕ) (s : System) (u : Thread) → IsIdle n s → ComesOn printer s u → u < n
  ComesOn-lt n s u idle comes = elim (dec_lt u n) [
    | yes below ↦ below
    | no beyond ↦
        let (at, none_left) = idle u (omega arith) in let less = comes.0 in absurd (ground arith)
  ]

  settles_from :
      (k n : ℕ) (s : System)
      → total (work printer s) n < k
      → IsHeld s
      → IsIdle n s
      → (more : List Thread) × ((t : Thread) → IsSettled (run printer more s) t)
  unfolding run
  settles_from zero n s enough held idle = absurd (omega arith)
  settles_from (suc k) n s enough held idle = elim (IsSettled-or_goes n s held) [
    | inl settled ↦ (
      [],
      λ t. elim (dec_lt t n) [
        | yes below ↦ settled t below
        | no beyond ↦ inl (idle t (omega arith))
      ],
    )
    | inr (u, comes) ↦
        let s' : System = turn printer u s in
        let less =
          total-less (work printer s) (work printer s') u n (ComesOn-lt n s u idle comes) comes.0
            comes.1 in
        let (more, settled) =
          settles_from k n s' (omega arith) (turn-IsHeld printer u s held)
            (turn-IsIdle n u s idle) in
        (u ∷ more, settled)
  ]

  -- Where only the first n threads have calls to make: after every order of turns some further
  -- turns lead to a state in which each thread has made all its calls, or sleeps on the condition
  -- variable of a handle, not woken by any notification. So no order of turns leads to a deadlock
  -- on the mutex.
  pub reached_settles :
      (n : ℕ) (programs : Thread → List Task) (schedule : List Thread)
      → ((t : Thread) → n ≤ t → programs t ≡ [])
      → (more : List Thread) × ((t : Thread)
          → IsSettled (run printer more (run printer schedule (start programs))) t)
  unfolding start
  reached_settles n programs schedule few =
      let s : System = run printer schedule (start programs) in
      settles_from (suc (total (work printer s) n)) n s (omega arith)
        (reached-IsHeld printer programs schedule)
        (run-IsIdle n schedule (start programs) (λ t beyond. (refl, few t beyond)))
