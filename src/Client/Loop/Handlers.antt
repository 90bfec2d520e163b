-- ===== src/Client/Loop/Handlers.antt =====
-- Which handlers wait on the event loop before and after a phase of `command`.
use book_filer_module_ssh.Prelude.{
  zero, suc, Bool, true, false, List, [], ◌∷◌, ◌++◌, ◌≡◌, refl, ◌⊎◌, inl, inr, arith,
}
use book_filer_module_ssh.Flow.{Result, returned, ◌>>◌, >>=-eq-returned}
use book_filer_module_ssh.Platform.{Platform}
use book_filer_module_ssh.Client.Object.{
  Client, State, work_done, still_working, Work, create_channel, execute, read_command_channel,
  read_listen_channel, close_channel, Handler,
}
use book_filer_module_ssh.Client.Channel.{
  do_create_channel, do_execute, do_close_channel, read_loop, do_read_command_channel,
  do_read_listen_channel, do_work,
}
use book_filer_module_ssh.Client.Loop.{Schedule, take_at, rearm_or_stop, loop_async, run_io}

abbrev pub handler : Work → Bool → Handler
handler work is_read = record { work = work; is_read = is_read }

-- The client with a running loop on which `hs` wait, and with a stopped one.
abbrev pub waiting : {World : Type 0} → List Handler → Client World → Client World
waiting hs c = record c { stopped = false; pending = hs }

abbrev pub halted : {World : Type 0} → List Handler → Client World → Client World
halted hs c = record c { stopped = true; pending = hs }

module _ (p : Platform) where
  open p use {World}

  -- The work itself neither adds nor removes a handler, nor stops the loop.
  pub do_work-keeps :
      (work : Work) (hs : List Handler) (c : Client World) {st : State} {d : Client World}
      → do_work p work (waiting hs c) ≡ returned st d
      → d ≡ waiting hs d
  unfolding do_work do_create_channel do_execute do_close_channel read_loop do_read_command_channel
      do_read_listen_channel
  do_work-keeps create_channel hs c h = ground arith
  do_work-keeps execute hs c h = ground arith
  do_work-keeps read_command_channel hs c h = ground arith
  do_work-keeps read_listen_channel hs c h = ground arith
  do_work-keeps close_channel hs c h = ground arith

  module _ (work : Work) (b : Bool) (hs : List Handler) (e : Client World) (same : e ≡ waiting hs e)
      {d : Client World} where
    rearmed :
        rearm_or_stop p work b still_working e ≡ returned tt d
        → d ≡ waiting (hs ++ handler work b ∷ []) e
    unfolding rearm_or_stop
    rearmed after = ground arith

    stopping : rearm_or_stop p work b work_done e ≡ returned tt d → d ≡ halted hs e
    unfolding rearm_or_stop
    stopping after = ground arith

  loop_async-cases :
      (work : Work) (b : Bool) (hs : List Handler) (c d : Client World)
      → loop_async p work b (waiting hs c) ≡ returned tt d
      → ((e : Client World) × (do_work p work (waiting hs c) ≡ returned still_working e)
          × (d ≡ waiting (hs ++ handler work b ∷ []) e))
        ⊎ ((e : Client World) × (do_work p work (waiting hs c) ≡ returned work_done e)
            × (d ≡ halted hs e))
  unfolding loop_async
  loop_async-cases work b hs c d h =
      let (st, e, run, after) =
        >>=-eq-returned (do_work p work) (rearm_or_stop p work b) (waiting hs c) h in
      go st e run (do_work-keeps work hs c run) after
    where
      go :
          (st : State) (e : Client World)
          → do_work p work (waiting hs c) ≡ returned st e
          → e ≡ waiting hs e
          → rearm_or_stop p work b st e ≡ returned tt d
          → ((e : Client World) × (do_work p work (waiting hs c) ≡ returned still_working e)
              × (d ≡ waiting (hs ++ handler work b ∷ []) e))
            ⊎ ((e : Client World) × (do_work p work (waiting hs c) ≡ returned work_done e)
                × (d ≡ halted hs e))
      go still_working e run same after = inl (e, run, rearmed work b hs e same after)
      go work_done e run same after = inr (e, run, stopping work b hs e same after)

  pub run_io-halted :
      (ks : Schedule) (hs : List Handler) (c : Client World)
      → run_io p ks (halted hs c) ≡ returned tt (halted hs c)
  unfolding run_io
  run_io-halted [] hs c = refl
  run_io-halted (k ∷ ks) hs c = refl

  -- One handler of the work is left, and the other has just seen the work done.
  abbrev pub Finished : Work → Client World → Type 0
  Finished work d =
      (b : Bool) × (before : Client World) × (after : Client World) × (do_work p work before
        ≡ returned work_done after)
      × (d ≡ halted (handler work b ∷ []) after)

  -- The event at the handler `b`, while `b'` waits on.
  fire-Finished :
      (work : Work) (b b' : Bool) (c d : Client World)
      (rest : Client World → Result (Client World) (Unit {0}))
      → ((hs : List Handler) (e : Client World) → rest (halted hs e) ≡ returned tt (halted hs e))
      → ((e : Client World)
          → rest (waiting (handler work b' ∷ handler work b ∷ []) e) ≡ returned tt d
          → Finished work d)
      → (loop_async p work b >> rest) (waiting (handler work b' ∷ []) c) ≡ returned tt d
      → Finished work d
  fire-Finished work b b' c d rest at_rest again h =
      let (_, t, ran, after) =
        >>=-eq-returned (loop_async p work b) (λ _. rest) (waiting (handler work b' ∷ []) c) h in
      elim (loop_async-cases work b (handler work b' ∷ []) c t ran) [
        | inl (e, _, eq) ↦ again e (rw eq at after)
        | inr (e, done, eq) ↦ (
          b',
          waiting (handler work b' ∷ []) c,
          e,
          done,
          cc (rw eq at after, at_rest (handler work b' ∷ []) e),
        )
      ]

  pub run_io-Finished :
      (work : Work) (ks : Schedule) (b b' : Bool) (c d : Client World)
      → run_io p ks (waiting (handler work b ∷ handler work b' ∷ []) c) ≡ returned tt d
      → Finished work d
  unfolding run_io take_at
  run_io-Finished work [] b b' c d h = cc
  run_io-Finished work (zero ∷ ks) b b' c d h =
      fire-Finished work b b' c d (run_io p ks) (run_io-halted ks)
        (λ e. run_io-Finished work ks b' b e d) h
  run_io-Finished work (suc zero ∷ ks) b b' c d h =
      fire-Finished work b' b c d (run_io p ks) (run_io-halted ks)
        (λ e. run_io-Finished work ks b b' e d) h
  run_io-Finished work (suc (suc k) ∷ ks) b b' c d h = run_io-Finished work ks b b' c d h
