-- ===== src/Client/Channel.antt =====
-- The methods of `ClientImpl` (src/core/Client.cpp) that work on a channel: `send` and `read`, which
-- the tunnel uses, and the five functions that the event loop repeats.
pub mod Rounds
pub mod Writing
pub mod Reading
use book_filer_module_ssh.Prelude.{
  ℕ, zero, suc, ◌+◌, ◌-◌, ◌%◌, ◌^◌, ℤ, pos, is_negative, is_positive, is_nonzero, magnitude, eq_int,
  to_int, ◌&&◌, true, false, none, some, [], ◌∷◌, ◌++◌, length, take, ltb, ◌==◌, if◌then◌else◌,
}
use book_filer_module_ssh.Settings.{Bytes}
use book_filer_module_ssh.Flow.{
  M, returned, thrown, undefined, unfinished, assigned, ◌>>=◌, ◌>>◌, pure, throw, get, modify,
  opening_channel, executing_command, getting_result, closing_channel,
}
use book_filer_module_ssh.Platform.{Platform}
use book_filer_module_ssh.Client.Object.{
  Client, State, work_done, still_working, Work, create_channel, execute, read_command_channel,
  read_listen_channel, close_channel, call, act,
}

-- The text that a `char *` denotes: up to the first zero byte.
abbrev pub c_str : Bytes → Bytes
c_str [] = []
c_str (b ∷ bs) = if b == 0 then [] else b ∷ c_str bs

abbrev out_of_bounds : {S A : Type 0} → M S A
out_of_bounds s = undefined s

-- sizeof(buffer).
abbrev pub buffer_size : ℕ
buffer_size = 0x4001

module _ (p : Platform) where
  open p use {
    World, error_eagain, session_last_error, channel_open_session, channel_exec, channel_write,
    channel_read, channel_close, channel_get_exit_status, channel_get_exit_signal, channel_free,
  }

  unfoldable pub do_create_channel : M (Client World) State
  do_create_channel = do
    c ← get
    channel ← call (channel_open_session c.session)
    modify (λ c. record c { command_channel = channel })
    elim channel [
      | some _ ↦ pure work_done
      | none ↦ do
        -- `libssh2_session_last_error` reads what the session points to.
        _ ← assigned c.session
        rc ← call (session_last_error c.session)
        if eq_int rc error_eagain then pure still_working else throw opening_channel
    ]

  unfoldable pub do_execute : M (Client World) State
  do_execute = do
    c ← get
    rc ← call (channel_exec c.command_channel (c_str c.command_str))
    if eq_int rc error_eagain
        then pure still_working
        else if is_nonzero rc
        then throw executing_command
        else pure work_done

  unfoldable pub do_close_channel : M (Client World) State
  do_close_channel = do
    c ← get
    rc ← call (channel_close c.command_channel)
    if eq_int rc error_eagain
        then pure still_working
        else if is_nonzero rc
        then throw closing_channel
        else pure work_done

  -- The `do … while (rc > 0 && writtenBytes < commandStrLen)` of `writeCommandChannel`. Every round
  -- offers the whole of `commandStr`; `writtenBytes` is a `size_t`.
  unfoldable pub write_loop : ℕ → M (Client World) State
  write_loop zero c = unfinished c
  write_loop (suc fuel) c =
      let (result, w) = channel_write c.command_channel c.command_str c.command_str_len c.world in
      let rc = to_int result in
      let failed = record c { world = w } in
      let next = record c {
        world = w;
        written_bytes = (c.written_bytes + magnitude rc) % 2 ^ 64;
      } in
      let rest = write_loop fuel next in
      if is_negative rc
      then returned still_working failed
      else if is_positive rc && ltb next.written_bytes c.command_str_len
      then rest
      else returned work_done next

  -- The rounds offer so many bytes of `commandStr`; a length beyond its end is an access out of bounds.
  -- A round that does not end the loop writes at least a byte, so this much fuel is enough.
  unfoldable pub write_command_channel : M (Client World) State
  write_command_channel = do
    modify (λ c. record c { written_bytes = 0 })
    c ← get
    elim (ltb (length c.command_str) c.command_str_len) [
      | true ↦ out_of_bounds
      | false ↦ write_loop (suc c.command_str_len)
    ]

  -- The `do … while (rc > 0)` of `readCommandChannel`. Its body declares an `rc` of its own, so the
  -- test reads the one outside, which is the parameter `outer`.
  unfoldable pub read_loop : ℕ → ℤ → M (Client World) State
  read_loop zero outer c = unfinished c
  read_loop (suc fuel) outer c =
      let (result, buffer, w) = channel_read c.command_channel buffer_size c.world in
      let rc = to_int result in
      let failed = record c { world = w } in
      let next = record c {
        world = w;
        command_channel_read_str = c.command_channel_read_str ++ take (magnitude rc) buffer;
        command_channel_read_len = (c.command_channel_read_len + magnitude rc) % 2 ^ 64;
      } in
      let rest = read_loop fuel outer next in
      if is_negative rc
      then returned still_working failed
      else if is_positive outer
      then rest
      else returned work_done next

  -- The outer `rc` is 0, so one round is all that is needed.
  unfoldable pub do_read_command_channel : M (Client World) State
  do_read_command_channel = do
    modify (λ c. record c { command_channel_read_str = []; command_channel_read_len = 0 })
    read_loop 1 (pos 0)

  -- The buffer is read as a text: what follows a zero byte is not appended.
  unfoldable pub do_read_listen_channel : M (Client World) State
  do_read_listen_channel c =
      let (result, buffer, w) = channel_read c.listen_channel (buffer_size - 1) c.world in
      let rc = to_int result in
      let c = record c { world = w } in
      if is_positive rc
      then returned still_working (record c {
        listen_channel_read_str = c.listen_channel_read_str ++ c_str (take (magnitude rc) buffer);
      })
      else if eq_int rc error_eagain
      then returned still_working c
      else if is_nonzero rc
      then thrown getting_result c
      else returned work_done c

  unfoldable pub cleanup : M (Client World) (Unit {0})
  cleanup = do
    c ← get
    _ ← call (channel_get_exit_status c.command_channel)
    _ ← call (channel_get_exit_signal c.command_channel)
    act (channel_free c.command_channel)
    modify (λ c. record c { command_channel = none })

  unfoldable pub do_work : Work → M (Client World) State
  do_work create_channel = do_create_channel
  do_work execute = do_execute
  do_work read_command_channel = do_read_command_channel
  do_work read_listen_channel = do_read_listen_channel
  do_work close_channel = do_close_channel

  unfoldable pub send : Bytes → ℕ → M (Client World) ℤ
  send buffer_str len = do
    modify (λ c. record c { command_str = buffer_str; command_str_len = len; written_bytes = 0 })
    _ ← write_command_channel
    pure (pos 0)

  -- `bufferStr` and `len` are the results by reference, beside the return value.
  unfoldable pub read : M (Client World) (ℤ × Bytes × ℕ)
  read = do
    modify (λ c. record c { command_channel_read_str = []; command_channel_read_len = 0 })
    _ ← do_read_command_channel
    c ← get
    pure (pos 0, c.command_channel_read_str, c.command_channel_read_len)
