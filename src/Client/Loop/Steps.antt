-- ===== src/Client/Loop/Steps.antt =====
-- A phase of `command` whose first event already ends it, and the works that are done at once.
use book_filer_module_ssh.Prelude.{
  ℕ, pos, to_int-pos, ◌^◌, ◌<◌, ◌∙◌, is_negative, true, false, some, List, [], ◌∷◌, ◌++◌, take, ◌≡◌,
  refl, arith,
}
use book_filer_module_ssh.Flow.{returned, >>=-returned}
use book_filer_module_ssh.Platform.{Platform}
use book_filer_module_ssh.Client.Object.{
  Client, work_done, Work, create_channel, execute, read_command_channel, close_channel, Handler,
}
use book_filer_module_ssh.Client.Channel.{
  c_str, buffer_size, do_create_channel, do_execute, read_loop, do_read_command_channel,
  do_close_channel, do_work,
}
use book_filer_module_ssh.Client.Loop.{take_at, is_empty, loop_async, run_io, phase}
use book_filer_module_ssh.Client.Loop.Phases.{loop_async-done}
use book_filer_module_ssh.Client.Loop.Handlers.{handler, waiting, halted, run_io-halted}

is_empty-snoc : (hs : List Handler) (h : Handler) → is_empty (hs ++ h ∷ []) ≡ false
is_empty-snoc [] h = refl
is_empty-snoc (x ∷ hs) h = refl

module _ (p : Platform) where
  open p use {World, error_eagain, channel_open_session, channel_exec, channel_read, channel_close}

  -- The event completes `h`, while `rest` waits, and the work of `h` is done at once.
  pub picked_phase :
      (work : Work) (k : ℕ) (h : Handler) (hs rest : List Handler) (c : Client World)
      {d : Client World}
      → take_at k ((hs ++ handler work true ∷ []) ++ handler work false ∷ []) ≡ some (h, rest)
      → do_work p h.work (waiting [] c) ≡ returned work_done d
      → phase p work (k ∷ []) (record c { pending = hs }) ≡ returned tt (halted rest d)
  unfolding phase run_io
  picked_phase work k h hs rest c {d} e done =
      let ran =
        >>=-returned (loop_async p h.work h.is_read) (λ _. run_io p []) (waiting rest c)
          (loop_async-done p h.work h.is_read rest c done)
        ∙ run_io-halted p [] rest d in
      rw (is_empty-snoc (hs ++ handler work true ∷ []) (handler work false), e) ran

  pub opening :
      (c : Client World) (h : ℕ)
      → (channel_open_session c.session c.world).0 ≡ some h
      → do_work p create_channel (waiting [] c)
        ≡ returned work_done (record (waiting [] c) {
          command_channel = some h;
          world = (channel_open_session c.session c.world).1;
        })
  unfolding do_work do_create_channel
  opening c h e = ground arith

  pub executing :
      (c : Client World)
      → is_negative error_eagain ≡ true
      → (channel_exec c.command_channel (c_str c.command_str) c.world).0 ≡ pos 0
      → do_work p execute (waiting [] c)
        ≡ returned work_done (record (waiting [] c) {
          world = (channel_exec c.command_channel (c_str c.command_str) c.world).1;
        })
  unfolding do_work do_execute
  executing c eagain e = ground arith

  -- One read, however much it gives.
  pub reading_once :
      (c : Client World) (k : ℕ)
      → k < 2 ^ 31
      → (channel_read c.command_channel buffer_size c.world).0 ≡ pos k
      → do_work p read_command_channel (waiting [] c)
        ≡ returned work_done (record (waiting [] c) {
          world = (channel_read c.command_channel buffer_size c.world).2;
          command_channel_read_str = take k (channel_read c.command_channel buffer_size c.world).1;
          command_channel_read_len = k;
        })
  unfolding do_work do_read_command_channel read_loop
  reading_once c k fits e = ground (arith, to_int-pos k)

  pub closing :
      (c : Client World)
      → is_negative error_eagain ≡ true
      → (channel_close c.command_channel c.world).0 ≡ pos 0
      → do_work p close_channel (waiting [] c)
        ≡ returned work_done
            (record (waiting [] c) { world = (channel_close c.command_channel c.world).1 })
  unfolding do_work do_close_channel
  closing c eagain e = ground arith
