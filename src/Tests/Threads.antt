-- ===== src/Tests/Threads.antt =====
-- The theorems about threads that share the mutex, at concrete inputs.
use book_filer_module_ssh.Prelude.{
  update, zero, suc, List, [], ◌∷◌, ◌++◌, ◌≤◌, ◌≡◌, ◌≢◌, refl, arith,
}
use book_filer_module_ssh.Log.{Printer}
use book_filer_module_ssh.Log.Call.{ssh, port, status, connection_status_error}
use book_filer_module_ssh.Module.{Thread}
use book_filer_module_ssh.Threads.{Task, logs, appends, waits, notifies, asleep, start, run}
use book_filer_module_ssh.Threads.Calls.{Calls}
use book_filer_module_ssh.Threads.Progress.{IsDone}
use book_filer_module_ssh.Threads.Whole.{IsWhole, reached-IsWhole}
use book_filer_module_ssh.Threads.Quiet.{AreQuiet}
use book_filer_module_ssh.Threads.Finished.{IsFinished, reached_finishes}
use book_filer_module_ssh.Threads.Notifying.{missed_notification_sleeps}

abbrev printer : Printer
printer = record { thread_id = λ t. "a thread"; unsigned = λ n. "a number" }

-- A listener's thread, one of a connection, the main thread, and one that ends the program.
abbrev programs : Thread → List Task
programs =
    update
      (update
        (update (update (λ t. []) 0 (logs (status ssh "run" "START") ∷ appends 1 ∷ [])) 1
          (logs (connection_status_error port 7 "run" "async_write" "Broken pipe") ∷ []))
        2 (waits "exit" ∷ []))
      3 (notifies 0 "exit" ∷ [])

abbrev schedule : List Thread
schedule = 0 ∷ 1 ∷ 0 ∷ 2 ∷ 3 ∷ 1 ∷ 0 ∷ 3 ∷ []

all_quiet : (t : Thread) → AreQuiet (programs t)
all_quiet zero = tt
all_quiet (suc zero) = tt
all_quiet (suc (suc zero)) = tt
all_quiet (suc (suc (suc t))) = ground arith

four_threads : (t : Thread) → 4 ≤ t → programs t ≡ []
four_threads t beyond = ground arith

reached-IsWhole_example :
    (begun : Calls) × IsWhole printer programs begun (run printer schedule (start programs))
reached-IsWhole_example = reached-IsWhole printer programs schedule all_quiet

reached_finishes_example :
    (more : List Thread) × (begun : Calls) × IsFinished printer programs begun
      (run printer (schedule ++ more) (start programs))
reached_finishes_example = reached_finishes printer 4 programs schedule four_threads all_quiet

abbrev two_programs : Thread → List Task
two_programs = update (update (λ t. []) 2 (waits "exit" ∷ [])) 3 (notifies 0 "exit" ∷ [])

two_threads : (t : Thread) → 2 ≢ t → 3 ≢ t → two_programs t ≡ []
two_threads t other another = ground arith

missed_notification_sleeps_example :
    ((run printer (0 ∷ 3 ∷ 2 ∷ []) (run printer (3 ∷ 3 ∷ 2 ∷ 2 ∷ []) (start two_programs))).position
        2
      ≡ asleep "exit")
    × ((v : Thread)
        → 2 ≢ v
        → IsDone
            (run printer (0 ∷ 3 ∷ 2 ∷ []) (run printer (3 ∷ 3 ∷ 2 ∷ 2 ∷ []) (start two_programs)))
            v)
missed_notification_sleeps_example =
    missed_notification_sleeps printer two_programs 2 3 0 "exit" [] (0 ∷ 3 ∷ 2 ∷ []) (ground arith)
      refl refl two_threads
