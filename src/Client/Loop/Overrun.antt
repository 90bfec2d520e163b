-- ===== src/Client/Loop/Overrun.antt =====
-- What `command` does when, in each of its phases, the handler that has waited longest is the first to
-- run.
use book_filer_module_ssh.Prelude.{
  ℕ, pos, is_negative, true, false, Option, none, some, [], ◌∷◌, ◌≡◌, refl, arith,
}
use book_filer_module_ssh.Settings.{Bytes}
use book_filer_module_ssh.Flow.{returned}
use book_filer_module_ssh.Platform.{Platform}
use book_filer_module_ssh.Client.Object.{
  Client, create_channel, execute, read_command_channel, close_channel,
}
use book_filer_module_ssh.Client.Channel.{c_str, cleanup}
use book_filer_module_ssh.Client.Loop.{Schedule, take_at, command}
use book_filer_module_ssh.Client.Loop.Steps.{picked_phase, opening, executing}
use book_filer_module_ssh.Client.Loop.Handlers.{handler, waiting, halted}

-- The first handler that waits.
abbrev pub first : Schedule
first = 0 ∷ []

module _ (p : Platform) where
  open p use {
    World, error_eagain, channel_open_session, channel_exec, channel_get_exit_status,
    channel_get_exit_signal, channel_free,
  }

  -- The world after the calls that are made, in this order: two channels are opened, the command is
  -- executed twice on the second, and that one is freed.
  abbrev pub overrun : Option ℕ → Bytes → World → World
  overrun session command_str w =
      let (_, w) = channel_open_session session w in
      let (channel, w) = channel_open_session session w in
      let (_, w) = channel_exec channel (c_str command_str) w in
      let (_, w) = channel_exec channel (c_str command_str) w in
      let (_, w) = channel_get_exit_status channel w in
      let (_, w) = channel_get_exit_signal channel w in channel_free channel w

  -- Where opening a channel and executing a command always succeed at once, the code for "again"
  -- is negative, and in each phase the handler that has waited longest is the first to run:
  -- `command`, with no handler waiting before it, returns 0 after it has opened two channels,
  -- executed the command twice on the second one and freed that one, and it has read nothing;
  -- these are all the calls that it made.
  pub command_overruns :
      (command_str : Bytes) (c : Client World)
      → ((s : Option ℕ) (w : World) → (h : ℕ) × ((channel_open_session s w).0 ≡ some h))
      → ((ch : Option ℕ) (t : Bytes) (w : World) → (channel_exec ch t w).0 ≡ pos 0)
      → is_negative error_eagain ≡ true
      → (d : Client World) × (command p command_str first first first first
            (record c { pending = [] })
          ≡ returned (pos 0) d)
        × (d.world ≡ overrun c.session command_str c.world)
        × (d.command_channel_read_str ≡ [])
  unfolding command cleanup take_at
  command_overruns command_str c opens executes eagain =
      let c0 : Client World = record c { command_str = command_str } in
      let (h1, e1) = opens c.session c.world in
      let w1 : World = (channel_open_session c.session c.world).1 in
      let c1 : Client World = record (waiting [] c0) { command_channel = some h1; world = w1 } in
      let (h2, e2) = opens c.session w1 in
      let w2 : World = (channel_open_session c.session w1).1 in
      let c2 : Client World = record c1 {
        command_channel = some h2;
        world = w2;
        command_channel_read_str = [];
      } in
      let w3 : World = (channel_exec (some h2) (c_str command_str) w2).1 in
      let c3 : Client World = record c2 { world = w3 } in
      let cR = handler create_channel true in
      let cW = handler create_channel false in
      let eR = handler execute true in
      let eW = handler execute false in
      let rR = handler read_command_channel true in
      let rW = handler read_command_channel false in
      let lR = handler close_channel true in
      let lW = handler close_channel false in
      let p1 = picked_phase p create_channel 0 cR [] (cW ∷ []) c0 refl (opening p c0 h1 e1) in
      let p2 =
        picked_phase p execute 0 cW (cW ∷ []) (eR ∷ eW ∷ []) (record c1 { stopped = true }) refl
          (opening p c1 h2 e2) in
      let p3 =
        picked_phase p read_command_channel 0 eR (eR ∷ eW ∷ []) (eW ∷ rR ∷ rW ∷ [])
          (record c2 { stopped = true }) refl
          (executing p c2 eagain (executes (some h2) (c_str command_str) w2)) in
      let p4 =
        picked_phase p close_channel 0 eW (eW ∷ rR ∷ rW ∷ []) (rR ∷ rW ∷ lR ∷ lW ∷ [])
          (record c3 { stopped = true }) refl
          (executing p c3 eagain (executes (some h2) (c_str command_str) w3)) in
      (
        record (halted (rR ∷ rW ∷ lR ∷ lW ∷ []) c3) {
          command_channel = none;
          world = overrun c.session command_str c.world;
        },
        ground (arith, p1, p2, p3, p4, e1, e2),
        refl,
        refl,
      )
