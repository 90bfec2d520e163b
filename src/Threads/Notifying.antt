-- ===== src/Threads/Notifying.antt =====
-- `notify` beside `wait`: it does not lock the mutex, and what it does is not remembered.
use book_filer_module_ssh.Prelude.{ℕ, String, true, none, List, [], ◌∷◌, ◌≡◌, ◌≢◌, refl, arith}
use native.Mathlib.Decide.{ℕ_discrete}
use book_filer_module_ssh.Log.{Printer}
use book_filer_module_ssh.Module.{Thread, new_module, waiters}
use book_filer_module_ssh.Module.Waiting.{waiting_on, early_notification_lost}
use book_filer_module_ssh.Threads.{
  Task, waits, notifies, outside, emplacing, asleep, finding, System, is_in, lock, start, begin,
  go_on, turn, run,
}
use book_filer_module_ssh.Threads.Progress.{IsDone}

module _ (printer : Printer) where
  -- Where the mutex is free and two threads are about to call `wait` and `notify`: after a turn of
  -- each, the first is about to write the map of condition variables and the second to read it.
  -- The first holds the mutex, and the second has not locked it.
  pub wait_races_notify :
      (s : System) (t u : Thread) (i : ℕ) (handle other : String) (later after : List Task)
      → t ≢ u
      → s.mutex ≡ none
      → s.position t ≡ outside
      → s.position u ≡ outside
      → s.tasks t ≡ waits handle ∷ later
      → s.tasks u ≡ notifies i other ∷ after
      → ((run printer (t ∷ u ∷ []) s).position t ≡ emplacing handle)
        × ((run printer (t ∷ u ∷ []) s).position u ≡ finding i other)
  unfolding run turn go_on begin lock
  wait_races_notify s t u i handle other later after two free at_t at_u first second =
      (ground arith, ground arith)

  -- A thread sleeps on a handle, and the others have nothing to do.
  record IsStuck (t : Thread) (handle : String) (s : System) : Type 0 where
    sleeps : s.position t ≡ asleep handle
    listed : is_in t (waiting_on handle s.exported) ≡ true
    others : (u : Thread) → t ≢ u → IsDone s u

  turn-stuck :
      (t u : Thread) (handle : String) (s : System) → IsStuck t handle s → turn printer u s ≡ s
  unfolding turn go_on begin
  turn-stuck t u handle s stuck = elim (ℕ_discrete t u) [
    | yes same ↦ ground (arith, stuck.sleeps, stuck.listed, same)
    | no other ↦ ground (arith, stuck.others u other)
  ]

  run-stuck :
      (t : Thread) (handle : String) (more : List Thread) (s : System)
      → IsStuck t handle s
      → run printer more s ≡ s
  unfolding run
  run-stuck t handle [] s stuck = refl
  run-stuck t handle (u ∷ more) s stuck =
      rw (turn-stuck t u handle s stuck) (run-stuck t handle more s stuck)

  missed-IsStuck :
      (programs : Thread → List Task) (t u : Thread) (i : ℕ) (handle : String) (later : List Task)
      → t ≢ u
      → programs t ≡ waits handle ∷ later
      → programs u ≡ notifies i handle ∷ []
      → ((v : Thread) → t ≢ v → u ≢ v → programs v ≡ [])
      → IsStuck t handle (run printer (u ∷ u ∷ t ∷ t ∷ []) (start programs))
  unfolding run turn go_on begin lock start new_module waiters
  missed-IsStuck programs t u i handle later two first second rest = record {
    sleeps = ground arith;
    listed = ground (arith, early_notification_lost t i handle new_module refl);
    others = λ v other. elim (ℕ_discrete u v) [
      | yes same ↦ ground (arith, same)
      | no neither ↦ ground (arith, rest v other neither)
    ];
  }

  -- Where one thread is to wait on a handle, whatever else it has to do later, another one to
  -- notify that handle, and the others have nothing to do: if the notification is made first, then
  -- in every order of further turns the first thread sleeps on the handle, and all others are done.
  pub missed_notification_sleeps :
      (programs : Thread → List Task) (t u : Thread) (i : ℕ) (handle : String) (later : List Task)
      (more : List Thread)
      → t ≢ u
      → programs t ≡ waits handle ∷ later
      → programs u ≡ notifies i handle ∷ []
      → ((v : Thread) → t ≢ v → u ≢ v → programs v ≡ [])
      → ((run printer more (run printer (u ∷ u ∷ t ∷ t ∷ []) (start programs))).position t
          ≡ asleep handle)
        × ((v : Thread)
            → t ≢ v
            → IsDone (run printer more (run printer (u ∷ u ∷ t ∷ t ∷ []) (start programs))) v)
  missed_notification_sleeps programs t u i handle later more two first second rest =
      let s : System = run printer (u ∷ u ∷ t ∷ t ∷ []) (start programs) in
      let stuck = missed-IsStuck programs t u i handle later two first second rest in
      rw (run-stuck t handle more s stuck) (stuck.sleeps, stuck.others)
