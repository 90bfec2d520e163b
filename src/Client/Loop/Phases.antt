-- ===== src/Client/Loop/Phases.antt =====
-- What a phase of `command` (one `ioContext.reset()` … `ioContext.run()`) achieves, and what it leaves
-- behind for the next one.
use book_filer_module_ssh.Prelude.{
  ℕ, zero, suc, ◌≤◌, ◌<◌, Bool, true, false, List, [], ◌∷◌, ◌++◌, length, ◌≡◌, ◌∙◌, arith,
}
use book_filer_module_ssh.Flow.{returned, ◌>>◌, >>=-returned}
use book_filer_module_ssh.Platform.{Platform}
use book_filer_module_ssh.Client.Object.{
  Client, State, work_done, still_working, Work, create_channel, execute, read_command_channel,
  read_listen_channel, close_channel, Handler,
}
use book_filer_module_ssh.Client.Channel.{
  do_create_channel, do_execute, do_close_channel, read_loop, do_read_command_channel,
  do_read_listen_channel, do_work,
}
use book_filer_module_ssh.Client.Loop.{Schedule, take_at, rearm_or_stop, loop_async, run_io, phase}
use book_filer_module_ssh.Client.Loop.Handlers.{
  handler, waiting, halted, Finished, run_io-halted, run_io-Finished,
}

-- Every event of the schedule completes one of two handlers.
abbrev pub OfTwo : Schedule → Type 0
OfTwo [] = Unit {0}
OfTwo (k ∷ ks) = (k < 2) × OfTwo ks

module _ (p : Platform) where
  open p use {World}

  -- Where a phase that starts with no handler waiting returns, its work has just reported that it
  -- is done, the loop is stopped, and exactly one handler of that work is left waiting.
  pub phase-Finished :
      (work : Work) (ks : Schedule) (c d : Client World)
      → phase p work ks (record c { pending = [] }) ≡ returned tt d
      → Finished p work d
  unfolding phase
  phase-Finished work ks c d h = run_io-Finished p work ks true false c d h

  -- What waits makes no difference to the work.
  do_work-waiting :
      (work : Work) (hs hs' : List Handler) (c : Client World) {st : State} {d : Client World}
      → do_work p work (waiting hs c) ≡ returned st d
      → do_work p work (waiting hs' c) ≡ returned st (waiting hs' d)
  unfolding do_work do_create_channel do_execute do_close_channel read_loop do_read_command_channel
      do_read_listen_channel
  do_work-waiting create_channel hs hs' c h = ground arith
  do_work-waiting execute hs hs' c h = ground arith
  do_work-waiting read_command_channel hs hs' c h = ground arith
  do_work-waiting read_listen_channel hs hs' c h = ground arith
  do_work-waiting close_channel hs hs' c h = ground arith

  -- The work is done at its n-th call at the latest, and none of the calls throws.
  pub data DoneWithin (work : Work) : ℕ → Client World → Type 0 where
    now :
        {n : ℕ} (c : Client World) {d : Client World}
        → do_work p work (waiting [] c) ≡ returned work_done d
        → DoneWithin work (suc n) c
    later :
        {n : ℕ} (c : Client World) {d : Client World}
        → do_work p work (waiting [] c) ≡ returned still_working d
        → DoneWithin work n d
        → DoneWithin work (suc n) c

  pub loop_async-done :
      (work : Work) (b : Bool) (hs : List Handler) (c : Client World) {d : Client World}
      → do_work p work (waiting [] c) ≡ returned work_done d
      → loop_async p work b (waiting hs c) ≡ returned tt (halted hs d)
  unfolding loop_async rearm_or_stop
  loop_async-done work b hs c h =
      >>=-returned (do_work p work) (rearm_or_stop p work b) (waiting hs c)
        (do_work-waiting work [] hs c h)

  -- Where a phase starts with one handler of some work still waiting, that handler is the first
  -- to be completed, and its work is done again: the phase returns with the client as that work
  -- left it, and both handlers of the work of the phase itself wait, never called.
  pub stale_handler_ends_phase :
      (work : Work) (stale : Handler) (ks : Schedule) (c d : Client World)
      → do_work p stale.work (waiting [] c) ≡ returned work_done d
      → phase p work (0 ∷ ks) (record c { pending = stale ∷ [] })
        ≡ returned tt (halted (handler work true ∷ handler work false ∷ []) d)
  unfolding phase run_io take_at
  stale_handler_ends_phase work stale ks c d h =
      >>=-returned (loop_async p stale.work stale.is_read) (λ _. run_io p ks)
        (waiting (handler work true ∷ handler work false ∷ []) c)
        (loop_async-done stale.work stale.is_read _ c h)
      ∙ run_io-halted p ks _ d

  loop_async-again :
      (work : Work) (b : Bool) (hs : List Handler) (c : Client World) {d : Client World}
      → do_work p work (waiting [] c) ≡ returned still_working d
      → loop_async p work b (waiting hs c) ≡ returned tt (waiting (hs ++ handler work b ∷ []) d)
  unfolding loop_async rearm_or_stop
  loop_async-again work b hs c h =
      >>=-returned (do_work p work) (rearm_or_stop p work b) (waiting hs c)
        (do_work-waiting work [] hs c h)

  -- The client as the last of the calls leaves it.
  abbrev pub final : {work : Work} {n : ℕ} {c : Client World} → DoneWithin work n c → Client World
  final (now c {d} h) = d
  final (later c {d} h rest) = final rest

  -- One event: the handler `b` runs while `b'` waits on, and then the rest of the schedule.
  fire-final :
      (work : Work) {n : ℕ} (ks : Schedule) (b b' : Bool) (c : Client World)
      (done : DoneWithin work (suc n) c)
      → ((e : Client World) (rest : DoneWithin work n e)
          → (q : Bool) × (run_io p ks (waiting (handler work b' ∷ handler work b ∷ []) e)
              ≡ returned tt (halted (handler work q ∷ []) (final rest))))
      → (q : Bool) × ((loop_async p work b >> run_io p ks) (waiting (handler work b' ∷ []) c)
          ≡ returned tt (halted (handler work q ∷ []) (final done)))
  fire-final work ks b b' c (now _ {d} h) again = (
    b',
    >>=-returned (loop_async p work b) (λ _. run_io p ks) (waiting (handler work b' ∷ []) c)
          (loop_async-done work b (handler work b' ∷ []) c h)
        ∙ run_io-halted p ks (handler work b' ∷ []) d,
  )
  fire-final work ks b b' c (later _ {d} h rest) again =
      let (q, ran) = again d rest in
      (
        q,
        >>=-returned (loop_async p work b) (λ _. run_io p ks) (waiting (handler work b' ∷ []) c)
              (loop_async-again work b (handler work b' ∷ []) c h)
            ∙ ran,
      )

  run_io-final :
      (work : Work) (n : ℕ) (ks : Schedule) (b b' : Bool) (c : Client World)
      (done : DoneWithin work n c)
      → OfTwo ks
      → n ≤ length ks
      → (q : Bool) × (run_io p ks (waiting (handler work b ∷ handler work b' ∷ []) c)
          ≡ returned tt (halted (handler work q ∷ []) (final done)))
  unfolding run_io take_at
  run_io-final work zero ks b b' c done two enough = elim done [ ]
  run_io-final work (suc n) [] b b' c done two enough = absurd (omega arith)
  run_io-final work (suc n) (zero ∷ ks) b b' c done two enough =
      fire-final work ks b b' c done
        (λ e rest. run_io-final work n ks b' b e rest two.1 (omega arith))
  run_io-final work (suc n) (suc zero ∷ ks) b b' c done two enough =
      fire-final work ks b' b c done
        (λ e rest. run_io-final work n ks b b' e rest two.1 (omega arith))
  run_io-final work (suc n) (suc (suc k) ∷ ks) b b' c done two enough =
      absurd (omega (arith, two.0))

  -- Where the work is done within n calls and none of them throws, a phase that starts with no
  -- handler waiting returns on every schedule of at least n events, each of which completes one
  -- of its two handlers: the client is as the calls of the work leave it, one after the other
  -- until it is done, the loop is stopped, and exactly one handler of the work is left waiting.
  pub phase_lem :
      (work : Work) (n : ℕ) (ks : Schedule) (c : Client World) (done : DoneWithin work n c)
      → OfTwo ks
      → n ≤ length ks
      → (q : Bool) × (phase p work ks (record c { pending = [] })
          ≡ returned tt (halted (handler work q ∷ []) (final done)))
  unfolding phase
  phase_lem work n ks c done two enough = run_io-final work n ks true false c done two enough

  -- Where the work is done within n calls and none of them throws, a phase that starts with no
  -- handler waiting returns on every schedule of at least n events, each of which completes one
  -- of its two handlers; then the work has just been done, the loop is stopped, and exactly one
  -- handler of the work is left waiting.
  pub phase_returns :
      (work : Work) (n : ℕ) (ks : Schedule) (c : Client World)
      → DoneWithin work n c
      → OfTwo ks
      → n ≤ length ks
      → (d : Client World) × (phase p work ks (record c { pending = [] }) ≡ returned tt d)
        × Finished p work d
  phase_returns work n ks c done two enough =
      let (q, ran) = phase_lem work n ks c done two enough in
      (_, ran, phase-Finished work ks c (halted (handler work q ∷ []) (final done)) ran)
