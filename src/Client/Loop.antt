-- ===== src/Client/Loop.antt =====
-- `LoopAsync` and the event loop behind it, and the two methods that run it, `command` and
-- `forwarding` (src/core/Client.cpp). Which handler runs next is the environment's choice: a schedule
-- lists, for each event, the position of the handler that it completes. A position where no handler
-- waits stands for an event that concerns none. The thread that `connect` starts runs the same loop; that it
-- may do so while another method runs it is left out here.
pub mod Handlers
pub mod Phases
pub mod Steps
pub mod Timer
pub mod Overrun
pub mod Orderly
pub mod Collect
use book_filer_module_ssh.Prelude.{
  ℕ, zero, suc, ℤ, pos, negsuc, Bool, true, false, ◌||◌, Option, none, some, List, [], ◌∷◌, ◌++◌,
  if◌then◌else◌,
}
use book_filer_module_ssh.Settings.{Bytes}
use book_filer_module_ssh.Flow.{
  M, Result, returned, unfinished, ◌>>=◌, ◌>>◌, pure, get, modify, assigned,
}
use book_filer_module_ssh.Client.State.{ClientState}
use book_filer_module_ssh.Platform.{Platform}
use book_filer_module_ssh.Client.Object.{
  Client, State, work_done, still_working, Work, create_channel, execute, read_command_channel,
  read_listen_channel, close_channel, Handler, call, act,
}
use book_filer_module_ssh.Client.Channel.{c_str, do_work, cleanup}

abbrev pub Schedule : Type 0
Schedule = List ℕ

-- The handler at a position, and those that wait on.
unfoldable pub take_at : ℕ → List Handler → Option (Handler × List Handler)
take_at i [] = none
take_at zero (h ∷ hs) = some (h, hs)
take_at (suc i) (h ∷ hs) = elim (take_at i hs) [
  | none ↦ none
  | some (found, others) ↦ some (found, h ∷ others)
]

abbrev pub is_empty : List Handler → Bool
is_empty [] = true
is_empty (h ∷ hs) = false

module _ (p : Platform) where
  open p use {World, session_set_blocking, channel_forward_listen_ex, channel_forward_accept}

  -- After the work: wait again, or stop the loop.
  unfoldable pub rearm_or_stop : Work → Bool → State → M (Client World) (Unit {0})
  rearm_or_stop work is_read still_working =
      modify
        (λ c. record c { pending = c.pending ++ record { work = work; is_read = is_read } ∷ [] })
  rearm_or_stop work is_read work_done = modify (λ c. record c { stopped = true })

  unfoldable pub loop_async : Work → Bool → M (Client World) (Unit {0})
  loop_async work is_read = do
    c ← get
    if c.stopped then pure tt else do st ← do_work p work; rearm_or_stop work is_read st

  -- `ioContext.run()`: until the loop is stopped or nothing waits.
  unfoldable pub run_io : Schedule → M (Client World) (Unit {0})
  run_io [] c =
      if c.stopped || is_empty c.pending
      then returned tt (record c { stopped = true })
      else unfinished c
  run_io (k ∷ ks) c =
      let next : Result (Client World) (Unit {0}) = elim (take_at k c.pending) [
        | none ↦ run_io ks c
        | some (h, hs) ↦ (loop_async h.work h.is_read >> run_io ks) (record c { pending = hs })
      ] in
      if c.stopped || is_empty c.pending then returned tt (record c { stopped = true }) else next

  -- `runIoContext`, the thread that `connect` starts.
  unfoldable pub run_io_context : Schedule → M (Client World) (Unit {0})
  run_io_context = run_io

  -- `LoopTimer`, which nothing calls, for so many expirations of the timer.
  unfoldable pub loop_timer : ℕ → Work → M (Client World) (Unit {0})
  loop_timer zero work = unfinished
  loop_timer (suc n) work = do
    st ← do_work p work
    elim st [ work_done ↦ pure tt | still_working ↦ loop_timer n work ]

  -- `ioContext.reset()`, a read and a write handler for the same work, `ioContext.run()`.
  unfoldable pub phase : Work → Schedule → M (Client World) (Unit {0})
  phase work ks = do
    modify (λ c. record c { stopped = false })
    modify (λ c. record c { pending = c.pending ++ record { work = work; is_read = true } ∷ [] })
    modify (λ c. record c { pending = c.pending ++ record { work = work; is_read = false } ∷ [] })
    run_io ks

  unfoldable pub command : Bytes → Schedule → Schedule → Schedule → Schedule → M (Client World) ℤ
  command command_str creating executing reading closing = do
    modify (λ c. record c { command_str = command_str })
    phase create_channel creating
    phase execute executing
    modify (λ c. record c { command_channel_read_str = [] })
    phase read_command_channel reading
    phase close_channel closing
    cleanup p
    pure (pos 0)

  -- The listener is stored, and with it the bound port, if one was written.
  listen : M (Client World) (Option ℕ)
  listen = do
    c ← get
    remote_port ← assigned c.client_state.remote_port
    (λ c.
        let (listener, bound, w) =
          channel_forward_listen_ex c.session (c_str c.client_state.remote_host_name) remote_port 1
            c.world in
        let state : ClientState = elim bound [
          | none ↦ c.client_state
          | some port ↦ record (c.client_state) { remote_bound_port = some port }
        ] in
        returned listener (record c { listener = listener; client_state = state; world = w }))

  unfoldable pub forwarding : Schedule → M (Client World) ℤ
  unfolding listen
  forwarding ks = do
    c ← get
    act (session_set_blocking c.session true)
    listener ← listen
    elim listener [
      | none ↦ pure (negsuc 0)
      | some handle ↦ do
        channel ← call (channel_forward_accept (some handle))
        modify (λ c. record c { listen_channel = channel })
        elim channel [
          | none ↦ pure (negsuc 0)
          | some _ ↦ do
            act (session_set_blocking c.session false)
            modify (λ c. record c { listen_channel_read_str = [] })
            phase read_listen_channel ks
            pure (pos 0)
        ]
    ]
