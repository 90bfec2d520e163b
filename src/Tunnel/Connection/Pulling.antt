-- ===== src/Tunnel/Connection/Pulling.antt =====
-- What `runPull` carries, and what it does on a channel that gives nothing.
use mathlib.Core.Path.{subst}
use book_filer_module_ssh.Prelude.{
  ℕ, zero, suc, ◌<◌, ℤ, pos, negsuc, is_positive, magnitude, Bool, true, false, Option, [], ◌∷◌,
  ◌++◌, append-nil, append_assoc, take-append-drop, drop, length, take, take_of_length-le, ◌≡◌,
  refl, sym, ap, ◌∙◌, ◌⊎◌, inl, inr, arith,
}
use book_filer_module_ssh.Settings.{Bytes}
use book_filer_module_ssh.Flow.{
  Result, returned, thrown, undefined, terminated, unfinished, M, >>=-returned,
}
use book_filer_module_ssh.Platform.{Platform}
use book_filer_module_ssh.Client.Object.{Client}
use book_filer_module_ssh.Client.Channel.{buffer_size, read}
use book_filer_module_ssh.Client.Channel.Reading.{ReadContract, read_lem}
use book_filer_module_ssh.Tunnel.Connection.{LocalSocket, write_local, run_pull}

module _ (p : Platform) (socket : LocalSocket p.World) (contract : ReadContract p) where
  open p use {World, channel_read}

  -- The client after a read.
  abbrev pulled : Client World → Client World
  pulled c =
      let (rc, buffer, w) = channel_read c.command_channel buffer_size c.world in
      record c {
        world = w;
        command_channel_read_str = take (magnitude rc) buffer;
        command_channel_read_len = length (take (magnitude rc) buffer);
      }

  run_pull_lem :
      (fuel : ℕ) (c : Client World)
      → run_pull p socket (suc fuel) c
        ≡ write_local p socket
            (run_pull p socket fuel)
            (pos 0, (pulled c).command_channel_read_str, (pulled c).command_channel_read_len)
            (pulled c)
  unfolding run_pull
  run_pull_lem fuel c =
      >>=-returned (read p) (write_local p socket (run_pull p socket fuel)) c
        (read_lem p contract c).0

  module _ (again : M (Client World) ℤ) (bytes : Bytes) (c : Client World) where
    write_local-empty :
        length bytes ≡ 0 → write_local p socket again (pos 0, bytes, length bytes) c ≡ again c
    unfolding write_local
    write_local-empty e = ground arith

    write_local-chunk :
        0 < length bytes
        → write_local p socket again (pos 0, bytes, length bytes) c ≡ (
            let (ec, w) = socket.write bytes c.world in
            elim ec [
              | true ↦ returned (negsuc 0) (record c { world = w })
              | false ↦ again (record c { world = w })
            ])
    unfolding write_local
    write_local-chunk h = ground (arith, take_of_length-le (length bytes) bytes)

  no_bytes :
      (rc : ℤ) (buffer : Bytes) → is_positive rc ≡ false → length (take (magnitude rc) buffer) ≡ 0
  no_bytes (pos zero) buffer h = refl
  no_bytes (pos (suc k)) buffer h = ground arith
  no_bytes (negsuc e) buffer h = refl

  -- Where the world is in a set of worlds that reads of a channel never leave and in which they
  -- give no bytes, and the channel obeys the contract of libssh2_channel_read, `run_pull` still
  -- runs after any number of rounds, and the world is still in the set.
  pub silent_channel_spins :
      (Silent : World → Type 0)
      → ((channel : Option ℕ) (w : World)
          → Silent w
          → let (rc, buffer, w') = channel_read channel buffer_size w in
            (is_positive rc ≡ false) × Silent w')
      → (fuel : ℕ) (c : Client World) → Silent c.world
      → (d : Client World) × (run_pull p socket fuel c ≡ unfinished d) × Silent d.world
  unfolding run_pull
  silent_channel_spins Silent stays zero c s = (c, refl, s)
  silent_channel_spins Silent stays (suc fuel) c s =
      let (empty, s') = stays c.command_channel c.world s in
      let (d, run, s'') = silent_channel_spins Silent stays fuel (pulled c) s' in
      (
        d,
        run_pull_lem fuel c
            ∙ (write_local-empty (run_pull p socket fuel) (pulled c).command_channel_read_str
                  (pulled c)
                  (no_bytes (channel_read c.command_channel buffer_size c.world).0
                    (channel_read c.command_channel buffer_size c.world).1 empty)
                ∙ run),
        s'',
      )

  -- What the world has given from the channel, and taken at the local socket. A write that fails may
  -- have taken a part.
  pub record Ledger : Type 0 where
    pub received : World → Bytes
    pub written : World → Bytes
    pub reading :
        (channel : Option ℕ) (n : ℕ) (w : World)
        → let (rc, buffer, w') = channel_read channel n w in
          (received w' ≡ received w ++ take (magnitude rc) buffer) × (written w' ≡ written w)
    pub writing :
        (bytes : Bytes) (w : World)
        → let (ec, w') = socket.write bytes w in
          (received w' ≡ received w)
          × (((ec ≡ false) × (written w' ≡ written w ++ bytes))
              ⊎ ((ec ≡ true) × ((k : ℕ) × (written w' ≡ written w ++ take k bytes))))

  module _ (ledger : Ledger) where
    open ledger use {received, written, reading, writing}

    -- The local socket has what the channel gave, or `runPull` has returned -1 after a failed write
    -- and may have lost a rest.
    abbrev pub PullOutcome : Result (Client World) ℤ → Type 0
    PullOutcome (unfinished d) = received d.world ≡ written d.world
    PullOutcome (returned rc d) =
        (rc ≡ negsuc 0) × ((lost : Bytes) × (received d.world ≡ written d.world ++ lost))
    PullOutcome (thrown e d) = ⊥
    PullOutcome (undefined d) = ⊥
    PullOutcome (terminated d) = ⊥

    after_write :
        (again : M (Client World) ℤ) (bytes : Bytes) (c : Client World)
        → ((d : Client World) → received d.world ≡ written d.world → PullOutcome (again d))
        → received c.world ≡ written c.world ++ bytes
        → (ec : Bool) (w : World)
        → (received w ≡ received c.world)
          × (((ec ≡ false) × (written w ≡ written c.world ++ bytes))
              ⊎ ((ec ≡ true) × ((k : ℕ) × (written w ≡ written c.world ++ take k bytes))))
        → PullOutcome (elim ec [
          | true ↦ returned (negsuc 0) (record c { world = w })
          | false ↦ again (record c { world = w })
        ])
    after_write again bytes c later e true w (same, inl (x, _)) = cc
    after_write again bytes c later e true w (same, inr (_, (k, cut))) = (
      refl,
      (
        drop k bytes,
        same
            ∙ (e
                ∙ (ap (◌++◌ (written c.world)) (sym (take-append-drop k bytes))
                    ∙ (sym (append_assoc (written c.world) (take k bytes) (drop k bytes))
                        ∙ ap (λ t. t ++ drop k bytes) (sym cut)))),
      ),
    )
    after_write again bytes c later e false w (same, inl (_, all)) =
        later (record c { world = w }) (same ∙ (e ∙ sym all))
    after_write again bytes c later e false w (same, inr (x, _)) = cc

    chunk-PullOutcome :
        (again : M (Client World) ℤ) (bytes : Bytes) (c : Client World)
        → ((d : Client World) → received d.world ≡ written d.world → PullOutcome (again d))
        → received c.world ≡ written c.world ++ bytes
        → PullOutcome (write_local p socket again (pos 0, bytes, length bytes) c)
    chunk-PullOutcome again [] c later e =
        subst PullOutcome (sym (write_local-empty again [] c refl)) (later c (e ∙ append-nil _))
    chunk-PullOutcome again (b ∷ bs) c later e =
        subst PullOutcome (sym (write_local-chunk again (b ∷ bs) c (omega arith))) (
          after_write again (b ∷ bs) c later e (socket.write (b ∷ bs) c.world).0
            (socket.write (b ∷ bs) c.world).1 (writing (b ∷ bs) c.world))

    -- Where reads of the channel and writes of the local socket obey their contracts, and what
    -- was received has so far all been written: after any number of rounds `run_pull` either
    -- still runs, with every byte that the channel gave written to the local socket in order, or
    -- has returned -1, with a prefix of them written.
    pub run_pull-PullOutcome :
        (fuel : ℕ) (c : Client World)
        → received c.world ≡ written c.world
        → PullOutcome (run_pull p socket fuel c)
    unfolding run_pull
    run_pull-PullOutcome zero c e = e
    run_pull-PullOutcome (suc fuel) c e = subst PullOutcome (sym (run_pull_lem fuel c)) (
        chunk-PullOutcome (run_pull p socket fuel) (pulled c).command_channel_read_str (pulled c)
          (λ d h. run_pull-PullOutcome fuel d h)
          (let (got, same) = reading c.command_channel buffer_size c.world in got ∙ (cc)))
