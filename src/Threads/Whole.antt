-- ===== src/Threads/Whole.antt =====
-- What threads that interleave leave behind: whole records, in the order in which they were begun.
use book_filer_module_ssh.Prelude.{
  update, none, some, List, [], ◌∷◌, ◌++◌, append_assoc, append-nil, ◌≡◌, ◌≢◌, refl, ◌∙◌, arith,
  Option-cases, inl, inr, subst,
}
use book_filer_module_ssh.Log.{Printer}
use book_filer_module_ssh.Log.Call.{insertions}
use book_filer_module_ssh.Module.{Thread}
use book_filer_module_ssh.Threads.{
  Task, logs, appends, waits, notifies, prints, Position, outside, inserting, appending, emplacing,
  asleep, woken, finding, printing, System, goes_to, lock, start, begin, go_on, turn, run,
}
use book_filer_module_ssh.Threads.Quiet.{IsQuiet, IsQuietAt, AreQuiet, turn-IsQuiet}
use book_filer_module_ssh.Threads.Holding.{IsHeld, mutex-holds, turn-IsHeld}
use book_filer_module_ssh.Threads.Calls.{
  Calls, own, text_of, connection_of, texts, connections, left_text, left_connection, unwritten,
  unappended, own-begin, connections-append, texts-append,
}

module _ (printer : Printer) where
  -- After the calls `begun`, the threads have what is left of their programs, and the console and
  -- the connections are those of the calls, up to what the holder of the mutex has yet to do.
  pub record IsWhole (programs : Thread → List Task) (begun : Calls) (s : System) : Type 0 where
    pub own_calls : (t : Thread) → own t begun ++ s.tasks t ≡ programs t
    pub console : s.console ++ unwritten s ≡ texts printer begun
    pub appended : s.connection_list ++ unappended s ≡ connections begun

  module _ (programs : Thread → List Task) where
    begun-IsWhole :
        (t : Thread) (call : Task) (rest : List Task) (p : Position) (s : System) (begun : Calls)
        → s.mutex ≡ none
        → left_text p ≡ text_of printer t call
        → left_connection p ≡ connection_of call
        → s.tasks t ≡ call ∷ rest
        → IsWhole programs begun s
        → IsWhole programs
            (begun ++ (t, call) ∷ [])
            (record (goes_to t p (record s { tasks = update s.tasks t rest })) { mutex = some t })
    unfolding unwritten unappended
    begun-IsWhole t call rest p s begun free text connection eq w = record {
      own_calls = λ u. own-begin t u call rest s.tasks begun eq ∙ w.own_calls u;
      console =
          ground (arith, w.console, text, texts-append printer t call begun, append-nil s.console);
      appended = ground (
        arith,
        w.appended,
        connection,
        connections-append t call begun,
        append-nil s.connection_list,
      );
    }

    lock-IsWhole :
        (t : Thread) (call : Task) (rest : List Task) (p : Position) (s : System) (begun : Calls)
        → left_text p ≡ text_of printer t call
        → left_connection p ≡ connection_of call
        → s.tasks t ≡ call ∷ rest
        → IsWhole programs begun s
        → (after : Calls) × IsWhole programs after
            (lock t (goes_to t p (record s { tasks = update s.tasks t rest })) s)
    unfolding lock
    lock-IsWhole t call rest p s begun text connection eq w = elim (Option-cases s.mutex) [
      | inl free ↦ (
        begun ++ (t, call) ∷ [],
        rw (free, lock) (begun-IsWhole t call rest p s begun free text connection eq w),
      )
      | inr (u, taken) ↦ (begun, rw (taken, lock) w)
    ]

    begin-IsWhole :
        (t : Thread) (calls : List Task) (s : System) (begun : Calls)
        → s.position t ≡ outside
        → s.tasks t ≡ calls
        → IsHeld s
        → IsWhole programs begun s
        → AreQuiet calls
        → (after : Calls) × IsWhole programs after (begin printer t calls s)
    unfolding begin unwritten unappended
    begin-IsWhole t [] s begun e eq held w quiet = (begun, w)
    begin-IsWhole t (prints ts ∷ rest) s begun e eq held w quiet = absurd quiet
    begin-IsWhole t (logs c ∷ rest) s begun e eq held w quiet =
        lock-IsWhole t (logs c) rest (inserting (insertions printer t c)) s begun refl refl eq w
    begin-IsWhole t (appends c ∷ rest) s begun e eq held w quiet =
        lock-IsWhole t (appends c) rest (appending c) s begun refl refl eq w
    begin-IsWhole t (waits handle ∷ rest) s begun e eq held w quiet =
        lock-IsWhole t (waits handle) rest (emplacing handle) s begun refl refl eq w
    begin-IsWhole t (notifies i handle ∷ rest) s begun e eq held w quiet = (
      begun ++ (t, notifies i handle) ∷ [],
      record {
        own_calls = λ u. own-begin t u (notifies i handle) rest s.tasks begun eq ∙ w.own_calls u;
        console = ground (
          arith,
          held t,
          w.console,
          texts-append printer t (notifies i handle) begun,
          append-nil (texts printer begun),
        );
        appended = ground (
          arith,
          held t,
          w.appended,
          connections-append t (notifies i handle) begun,
          append-nil (connections begun),
        );
      },
    )

    -- A turn that begins no call.
    keeps-IsWhole :
        (t : Thread) (p : Position) (s : System) (begun : Calls)
        → s.position t ≡ p
        → p ≢ outside
        → IsQuietAt p
        → IsHeld s
        → IsWhole programs begun s
        → IsWhole programs begun (go_on printer t p s)
    unfolding go_on lock unwritten unappended
    keeps-IsWhole t outside s begun e inside quiet held w = absurd (inside refl)
    keeps-IsWhole t (inserting []) s begun e inside quiet held w = record {
      own_calls = w.own_calls;
      console = ground (arith, mutex-holds s t held, w.console);
      appended = ground (arith, mutex-holds s t held, w.appended);
    }
    keeps-IsWhole t (inserting (x ∷ xs)) s begun e inside quiet held w = record {
      own_calls = w.own_calls;
      console = ground (arith, mutex-holds s t held, w.console, append_assoc s.console (x ∷ []) xs);
      appended = ground (arith, mutex-holds s t held, w.appended);
    }
    keeps-IsWhole t (appending c) s begun e inside quiet held w = record {
      own_calls = w.own_calls;
      console = ground (arith, mutex-holds s t held, w.console);
      appended =
          ground
            (arith, mutex-holds s t held, w.appended, append-nil (s.connection_list ++ c ∷ []));
    }
    keeps-IsWhole t (emplacing handle) s begun e inside quiet held w = record {
      own_calls = w.own_calls;
      console = ground (arith, mutex-holds s t held, w.console);
      appended = ground (arith, mutex-holds s t held, w.appended);
    }
    keeps-IsWhole t (asleep handle) s begun e inside quiet held w = record {
      own_calls = ground (arith, w.own_calls);
      console = ground (arith, held t, w.console);
      appended = ground (arith, held t, w.appended);
    }
    keeps-IsWhole t woken s begun e inside quiet held w = record {
      own_calls = ground (arith, w.own_calls);
      console = ground (arith, held t, w.console);
      appended = ground (arith, held t, w.appended);
    }
    keeps-IsWhole t (finding i handle) s begun e inside quiet held w = record {
      own_calls = w.own_calls;
      console = ground (arith, held t, w.console);
      appended = ground (arith, held t, w.appended);
    }
    keeps-IsWhole t (printing ts) s begun e inside quiet held w = absurd quiet

    go_on-IsWhole :
        (t : Thread) (p : Position) (s : System) (begun : Calls)
        → s.position t ≡ p
        → IsHeld s
        → IsQuiet s
        → IsWhole programs begun s
        → (after : Calls) × IsWhole programs after (go_on printer t p s)
    unfolding go_on
    go_on-IsWhole t outside s begun e held quiet w =
        begin-IsWhole t (s.tasks t) s begun e refl held w (quiet t).1
    go_on-IsWhole t (inserting ts) s begun e held quiet w =
        (begun, keeps-IsWhole t (inserting ts) s begun e (λ same. cc) tt held w)
    go_on-IsWhole t p s begun e held quiet w =
        (begun, keeps-IsWhole t p s begun e (λ same. cc) (subst IsQuietAt e (quiet t).0) held w)

    run-IsWhole :
        (schedule : List Thread) (s : System) (begun : Calls)
        → IsHeld s
        → IsQuiet s
        → IsWhole programs begun s
        → (after : Calls) × IsWhole programs after (run printer schedule s)
    unfolding run turn
    run-IsWhole [] s begun held quiet w = (begun, w)
    run-IsWhole (t ∷ schedule) s begun held quiet w =
        let (after, w') = go_on-IsWhole t (s.position t) s begun refl held quiet w in
        run-IsWhole schedule (turn printer t s) after (turn-IsHeld printer t s held)
          (turn-IsQuiet printer t s quiet) w'

    -- Where no thread prints without the mutex, in every order of the turns of threads that log,
    -- append connections, wait and notify: there is one sequence of calls, in which each thread has
    -- made its own ones in the order of its program, up to those that it has not begun, and what
    -- was inserted into the console, followed by what the thread that holds the mutex has yet to
    -- insert, is the records of these calls, one whole record after the other; the appended
    -- connections, followed by the one that the holder has yet to append, if any, are those of the
    -- same sequence.
    pub reached-IsWhole :
        (schedule : List Thread)
        → ((t : Thread) → AreQuiet (programs t))
        → (begun : Calls) × IsWhole programs begun (run printer schedule (start programs))
    unfolding start own texts connections unwritten unappended
    reached-IsWhole schedule quiet =
        run-IsWhole schedule (start programs) [] (λ t. refl) (λ t. (tt, quiet t))
          (record { own_calls = λ t. refl; console = refl; appended = refl })
