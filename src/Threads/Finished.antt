-- ===== src/Threads/Finished.antt =====
-- What is on the console once the threads have nothing more to do.
use book_filer_module_ssh.Prelude.{
  ℕ, ◌≤◌, none, List, [], ◌∷◌, ◌++◌, append-nil, ◌≡◌, inl, inr, sym, arith, Option-cases, refl,
  subst,
}
use book_filer_module_ssh.Log.{Printer}
use book_filer_module_ssh.Module.{Thread}
use book_filer_module_ssh.Threads.{Task, System, start, turn, run}
use book_filer_module_ssh.Threads.Holding.{IsHeld, reached-IsHeld}
use book_filer_module_ssh.Threads.Quiet.{AreQuiet}
use book_filer_module_ssh.Threads.Calls.{Calls, own, texts, connections, unwritten, unappended}
use book_filer_module_ssh.Threads.Whole.{IsWhole, reached-IsWhole}
use book_filer_module_ssh.Threads.Settling.{IsSettled, reached_settles}

-- A thread that has made all its calls, or sleeps, does not hold the mutex.
settled-free : (s : System) → IsHeld s → ((t : Thread) → IsSettled s t) → s.mutex ≡ none
settled-free s held settled = elim (Option-cases s.mutex) [
  | inl free ↦ free
  | inr (t, taken) ↦ elim (settled t) [
    | inl done ↦ absurd (ground (arith, held t))
    | inr sleeping ↦ absurd (ground (arith, held t))
  ]
]

module _ (printer : Printer) where
  run-append :
      (first more : List Thread) (s : System)
      → run printer (first ++ more) s ≡ run printer more (run printer first s)
  unfolding run
  run-append [] more s = refl
  run-append (t ∷ first) more s = run-append first more (turn printer t s)

  -- The threads have come to an end, and the console is that of the calls.
  pub record IsFinished (programs : Thread → List Task) (begun : Calls) (s : System) : Type 0 where
    pub settled : (t : Thread) → IsSettled s t
    pub own_calls : (t : Thread) → own t begun ++ s.tasks t ≡ programs t
    pub console : s.console ≡ texts printer begun
    pub appended : s.connection_list ≡ connections begun

  finished :
      (programs : Thread → List Task) (begun : Calls) (s : System)
      → IsHeld s
      → ((t : Thread) → IsSettled s t)
      → IsWhole printer programs begun s
      → IsFinished programs begun s
  unfolding unwritten unappended
  finished programs begun s held settled w =
      let free = settled-free s held settled in
      record {
        settled = settled;
        own_calls = w.own_calls;
        console = ground (arith, free, w.console, append-nil s.console);
        appended = ground (arith, free, w.appended, append-nil s.connection_list);
      }

  -- Where only the first n threads have calls to make, and none prints without the mutex: every
  -- order of turns can be continued so that each thread has made all its calls, or sleeps on the
  -- condition variable of a handle, not woken by any notification. Then the console is the records
  -- of a sequence of calls, one whole record after the other, and the connections are those that
  -- this sequence appends, in which each thread has made its own calls in the order of its program:
  -- all of them, but for those behind a wait from which it was not woken.
  pub reached_finishes :
      (n : ℕ) (programs : Thread → List Task) (schedule : List Thread)
      → ((t : Thread) → n ≤ t → programs t ≡ [])
      → ((t : Thread) → AreQuiet (programs t))
      → (more : List Thread) × (begun : Calls) × IsFinished programs begun
          (run printer (schedule ++ more) (start programs))
  reached_finishes n programs schedule few quiet =
      let (more, settled) = reached_settles printer n programs schedule few in
      let (begun, whole) = reached-IsWhole printer programs (schedule ++ more) quiet in
      (
        more,
        begun,
        finished programs begun (run printer (schedule ++ more) (start programs))
            (reached-IsHeld printer programs (schedule ++ more))
            (λ t.
              subst (λ s. IsSettled s t) (sym (run-append schedule more (start programs)))
                (settled t))
            whole,
      )
