-- ===== src/Client/Loop/Collect.antt =====
-- What `forwarding` collects from the channel that it accepts.
use book_filer_module_ssh.Prelude.{
  ℕ, suc, ◌-◌, ◌^◌, ◌<◌, ◌≤◌, pos, negsuc, to_int-pos, to_int-negsuc, ℤ, true, false, Option, none,
  some, List, [], ◌∷◌, ◌++◌, append_assoc, append-nil, length, take, ◌≡◌, refl, sym, ap, ◌∙◌, arith,
}
use book_filer_module_ssh.Settings.{Bytes}
use book_filer_module_ssh.Flow.{returned}
use book_filer_module_ssh.Platform.{Platform}
use book_filer_module_ssh.Client.State.{ClientState}
use book_filer_module_ssh.Client.Object.{Client, work_done, still_working, read_listen_channel}
use book_filer_module_ssh.Client.Channel.{c_str, buffer_size, do_read_listen_channel, do_work}
use book_filer_module_ssh.Client.Loop.{Schedule, forwarding}
use book_filer_module_ssh.Client.Loop.Handlers.{handler, waiting, halted}
use book_filer_module_ssh.Client.Loop.Phases.{OfTwo, DoneWithin, now, later, final, phase_lem}

-- Each chunk up to its first zero byte.
abbrev pub texts : List Bytes → Bytes
texts [] = []
texts (bytes ∷ rest) = c_str bytes ++ texts rest

module _ (p : Platform) where
  open p use {
    World, error_eagain, session_set_blocking, channel_read, channel_forward_listen_ex,
    channel_forward_accept,
  }

  -- So many reads of a channel give these chunks and then the end of the stream; some give nothing
  -- yet.
  pub data Gives (channel : Option ℕ) : ℕ → List Bytes → World → Type 0 where
    closes :
        {w w' : World} {buffer : Bytes}
        → channel_read channel (buffer_size - 1) w ≡ (pos 0, buffer, w')
        → Gives channel 1 [] w
    waits :
        {n : ℕ} {xs : List Bytes} {w w' : World} {buffer : Bytes}
        → channel_read channel (buffer_size - 1) w ≡ (error_eagain, buffer, w')
        → Gives channel n xs w'
        → Gives channel (suc n) xs w
    chunk :
        {n : ℕ} {xs : List Bytes} {w w' : World} {buffer bytes : Bytes} (k : ℕ)
        → channel_read channel (buffer_size - 1) w ≡ (pos (suc k), buffer, w')
        → suc k < 2 ^ 31
        → bytes ≡ take (suc k) buffer
        → Gives channel n xs w'
        → Gives channel (suc n) (bytes ∷ xs) w

  module _ (again : ℕ) (is_again : error_eagain ≡ negsuc again) (small : again < 2 ^ 31) where
    -- One call of `readListenChannel`.
    reading_ends :
        (c : Client World) {w' : World} {buffer : Bytes}
        → channel_read c.listen_channel (buffer_size - 1) c.world ≡ (pos 0, buffer, w')
        → do_work p read_listen_channel (waiting [] c)
          ≡ returned work_done (record (waiting [] c) { world = w' })
    unfolding do_work do_read_listen_channel
    reading_ends c e = ground (arith, e, is_again, to_int-pos 0)

    reading_waits :
        (c : Client World) {w' : World} {buffer : Bytes}
        → channel_read c.listen_channel (buffer_size - 1) c.world ≡ (error_eagain, buffer, w')
        → do_work p read_listen_channel (waiting [] c)
          ≡ returned still_working (record (waiting [] c) { world = w' })
    unfolding do_work do_read_listen_channel
    reading_waits c e = ground (arith, e, is_again, to_int-negsuc again)

    reading_appends :
        (c : Client World) (k : ℕ) {w' : World} {buffer : Bytes}
        → channel_read c.listen_channel (buffer_size - 1) c.world ≡ (pos (suc k), buffer, w')
        → suc k < 2 ^ 31
        → do_work p read_listen_channel (waiting [] c)
          ≡ returned still_working (record (waiting [] c) {
            world = w';
            listen_channel_read_str = c.listen_channel_read_str ++ c_str (take (suc k) buffer);
          })
    unfolding do_work do_read_listen_channel
    reading_appends c k e fits = ground (arith, e, to_int-pos (suc k))

    collects :
        {channel : Option ℕ} {n : ℕ} {xs : List Bytes} {w : World}
        → Gives channel n xs w
        → (c : Client World) → c.listen_channel ≡ channel
        → c.world ≡ w
        → (done : DoneWithin p read_listen_channel n c) × ((final p done).listen_channel_read_str
            ≡ c.listen_channel_read_str ++ texts xs)
          × ((final p done).listen_channel ≡ channel)
          × ((final p done).listener ≡ c.listener)
    collects (closes {w'} {buffer} e) c same here =
        (now c (reading_ends c {w' = w'} {buffer = buffer} (cc)), sym (append-nil _), same, refl)
    collects (waits {w'} {buffer} e rest) c same here =
        let d : Client World = record (waiting [] c) { world = w' } in
        let (done, got, kept, listening) = collects rest d same refl in
        (
          later c {d = d} (reading_waits c {w' = w'} {buffer = buffer} (cc)) done,
          got,
          kept,
          listening,
        )
    collects (chunk {xs} {w'} {buffer} {bytes} k e fits cut rest) c same here =
        let d : Client World = record (waiting [] c) {
          world = w';
          listen_channel_read_str = c.listen_channel_read_str ++ c_str (take (suc k) buffer);
        } in
        let (done, got, kept, listening) = collects rest d same refl in
        (
          later c {d = d} (reading_appends c k {w' = w'} {buffer = buffer} (cc) fits) done,
          got
              ∙ (append_assoc c.listen_channel_read_str (c_str (take (suc k) buffer)) (texts xs)
                  ∙ ap (λ u. c.listen_channel_read_str ++ (c_str u ++ texts xs)) (sym cut)),
          kept,
          listening,
        )

    -- Where the code for "again" is negative and fits 32 bits, the remote port is configured, the
    -- session listens and accepts a channel, and n reads of the channel give some chunks and then
    -- the end, some of the reads nothing yet: on every schedule of at least n events, each of
    -- which completes one of its two handlers, `forwarding` with no handler waiting returns 0,
    -- has kept the listener and the channel, and has collected each chunk up to its first zero
    -- byte, in order.
    pub forwarding_collects :
        {n : ℕ} {xs : List Bytes} (ks : Schedule) (c : Client World) (remote_port : ℤ)
        (handle channel : ℕ)
        → let w = session_set_blocking c.session true c.world in
          let (listener, bound, w) =
            channel_forward_listen_ex c.session
              (c_str c.client_state.remote_host_name)
              remote_port
              1
              w in
          let (accepted, w) = channel_forward_accept (some handle) w in
          (c.client_state.remote_port ≡ some remote_port)
            × (listener ≡ some handle)
            × (accepted ≡ some channel)
            × Gives (some channel) n xs (session_set_blocking c.session false w)
          → OfTwo ks
          → n ≤ length ks
          → (d : Client World) × (forwarding p ks (record c { pending = [] }) ≡ returned (pos 0) d)
            × (d.listener ≡ some handle)
            × (d.listen_channel ≡ some channel)
            × (d.listen_channel_read_str ≡ texts xs)
    unfolding forwarding
    forwarding_collects {n} ks c remote_port handle channel (e, listened, accepted, gives) two
          enough =
        let w₁ : World = session_set_blocking c.session true c.world in
        let offered =
          channel_forward_listen_ex c.session (c_str c.client_state.remote_host_name) remote_port 1
            w₁ in
        let state : ClientState = elim offered.1 [
          | none ↦ c.client_state
          | some port ↦ record (c.client_state) { remote_bound_port = some port }
        ] in
        let ready : Client World = record c {
          listener = some handle;
          client_state = state;
          listen_channel = some channel;
          listen_channel_read_str = [];
          world =
              session_set_blocking c.session false
                (channel_forward_accept (some handle) offered.2).1;
        } in
        let (done, got, kept, listening) = collects gives ready refl refl in
        let (q, ran) = phase_lem p read_listen_channel n ks ready done two enough in
        (
          halted (handler read_listen_channel q ∷ []) (final p done),
          ground (arith, e, listened, accepted, ran),
          listening,
          kept,
          got,
        )
