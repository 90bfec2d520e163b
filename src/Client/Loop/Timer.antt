-- ===== src/Client/Loop/Timer.antt =====
-- The other ways to run the works: `LoopTimer`, and the thread that `connect` starts.
use book_filer_module_ssh.Prelude.{ℕ, [], ◌∷◌, ◌≡◌, sym, arith}
use mathlib.Core.Path.{subst}
use book_filer_module_ssh.Flow.{returned}
use book_filer_module_ssh.Platform.{Platform}
use book_filer_module_ssh.Client.Object.{Client, Work}
use book_filer_module_ssh.Client.Loop.{Schedule, run_io, run_io_context, loop_timer}
use book_filer_module_ssh.Client.Loop.Handlers.{waiting, halted, do_work-keeps}
use book_filer_module_ssh.Client.Loop.Phases.{DoneWithin, now, later, final}

module _ (p : Platform) where
  open p use {World}

  -- Where the work is done within n calls and none of them throws, `LoopTimer` ends within n
  -- expirations of its timer, with the client as the calls leave it.
  pub loop_timer-final :
      (work : Work) {n : ℕ} (c : Client World) (done : DoneWithin p work n c)
      → loop_timer p n work (waiting [] c) ≡ returned tt (final p done)
  unfolding loop_timer
  loop_timer-final work c (now _ {d} h) = ground (arith, h)
  loop_timer-final work c (later {n} _ {d} h rest) =
      let same : d ≡ waiting [] d = do_work-keeps p work [] c h in
      let ends : loop_timer p n work d ≡ returned tt (final p rest) =
        subst (λ x. loop_timer p n work x ≡ returned tt (final p rest)) (sym same)
          (loop_timer-final work d rest) in
      ground (arith, h, ends)

  -- A thread that finds no handler waiting ends at once, and leaves the loop stopped.
  pub run_io_context-idle :
      (ks : Schedule) (c : Client World)
      → run_io_context p ks (record c { pending = [] }) ≡ returned tt (halted [] c)
  unfolding run_io_context run_io
  run_io_context-idle [] c = ground arith
  run_io_context-idle (k ∷ ks) c = ground arith
