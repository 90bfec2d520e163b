-- ===== src/Client/Loop/Orderly.antt =====
-- What `command` does when each phase is ended by a handler of its own work, and every work is done at
-- once.
use book_filer_module_ssh.Prelude.{
  ℕ, pos, ◌^◌, ◌<◌, is_negative, true, false, Option, none, some, [], ◌∷◌, take, ◌≡◌, refl, arith,
}
use book_filer_module_ssh.Settings.{Bytes}
use book_filer_module_ssh.Flow.{returned}
use book_filer_module_ssh.Platform.{Platform}
use book_filer_module_ssh.Client.Object.{
  Client, create_channel, execute, read_command_channel, close_channel,
}
use book_filer_module_ssh.Client.Channel.{c_str, buffer_size, cleanup}
use book_filer_module_ssh.Client.Loop.{take_at, command}
use book_filer_module_ssh.Client.Loop.Handlers.{handler, waiting, halted}
use book_filer_module_ssh.Client.Loop.Steps.{
  picked_phase, opening, executing, reading_once, closing,
}

module _ (p : Platform) where
  open p use {
    World, error_eagain, channel_open_session, channel_exec, channel_read, channel_close,
    channel_get_exit_status, channel_get_exit_signal, channel_free,
  }

  -- The end of `Cleanup`.
  abbrev pub cleaned : Option ℕ → World → World
  cleaned channel w =
      let (_, w) = channel_get_exit_status channel w in
      let (_, w) = channel_get_exit_signal channel w in channel_free channel w

  -- Where the code for "again" is negative, the session opens a channel, the command is executed,
  -- one read gives k bytes, with k below 2 ^ 31, and the channel is closed, each at the first
  -- call, and in every phase the read handler of its own work is the first to run: `command`,
  -- with no handler waiting before it, returns 0 after exactly these calls and those of the
  -- cleanup, which free the channel; it has collected the k bytes of the one read, and has no
  -- channel any more.
  pub command_reads_once :
      (command_str : Bytes) (c : Client World) (h k : ℕ)
      → is_negative error_eagain ≡ true
      → k < 2 ^ 31
      → let (opened, w) = channel_open_session c.session c.world in
        let (executed, w) = channel_exec (some h) (c_str command_str) w in
        let (got, buffer, w) = channel_read (some h) buffer_size w in
        let (closed, w) = channel_close (some h) w in
        (opened ≡ some h) × (executed ≡ pos 0) × (got ≡ pos k) × (closed ≡ pos 0)
        → (d : Client World) × (command p command_str
              (0 ∷ [])
              (1 ∷ [])
              (2 ∷ [])
              (3 ∷ [])
              (record c { pending = [] })
            ≡ returned (pos 0) d)
          × (let (_, w) = channel_open_session c.session c.world in
              let (_, w) = channel_exec (some h) (c_str command_str) w in
              let (_, buffer, w) = channel_read (some h) buffer_size w in
              let (_, w) = channel_close (some h) w in
              (d.world ≡ cleaned (some h) w)
              × (d.command_channel_read_str ≡ take k buffer)
              × (d.command_channel ≡ none))
  unfolding command cleanup take_at
  command_reads_once command_str c h k eagain fits (opened, executed, got, closed) =
      let c₀ : Client World = record c { command_str = command_str } in
      let w₁ : World = (channel_open_session c.session c.world).1 in
      let c₁ : Client World = record (waiting [] c₀) { command_channel = some h; world = w₁ } in
      let w₂ : World = (channel_exec (some h) (c_str command_str) w₁).1 in
      let c₂ : Client World = record c₁ { world = w₂; command_channel_read_str = [] } in
      let read = channel_read (some h) buffer_size w₂ in
      let c₃ : Client World = record c₂ {
        world = read.2;
        command_channel_read_str = take k read.1;
        command_channel_read_len = k;
      } in
      let w₄ : World = (channel_close (some h) read.2).1 in
      let cW = handler create_channel false in
      let eW = handler execute false in
      let rW = handler read_command_channel false in
      let lW = handler close_channel false in
      let p₁ =
        picked_phase p create_channel 0 (handler create_channel true) [] (cW ∷ []) c₀ refl
          (opening p c₀ h opened) in
      let p₂ =
        picked_phase p execute 1 (handler execute true) (cW ∷ []) (cW ∷ eW ∷ [])
          (record c₁ { stopped = true }) refl (executing p c₁ eagain executed) in
      let p₃ =
        picked_phase p read_command_channel 2 (handler read_command_channel true) (cW ∷ eW ∷ [])
          (cW ∷ eW ∷ rW ∷ []) (record c₂ { stopped = true }) refl (reading_once p c₂ k fits got) in
      let p₄ =
        picked_phase p close_channel 3 (handler close_channel true) (cW ∷ eW ∷ rW ∷ [])
          (cW ∷ eW ∷ rW ∷ lW ∷ []) (record c₃ { stopped = true }) refl
          (closing p c₃ eagain closed) in
      (
        record (halted (cW ∷ eW ∷ rW ∷ lW ∷ []) c₃) {
          command_channel = none;
          world = cleaned (some h) w₄;
        },
        ground (arith, p₁, p₂, p₃, p₄),
        (refl, refl, refl),
      )
