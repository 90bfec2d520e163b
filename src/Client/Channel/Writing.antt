-- ===== src/Client/Channel/Writing.antt =====
-- What `send` writes to the channel, under the contract of `libssh2_channel_write`.
use book_filer_module_ssh.Prelude.{
  ℕ, zero, suc, ◌+◌, ◌^◌, ◌≤◌, ◌<◌, pos, negsuc, to_int-pos, to_int-negsuc, Option, List, [], ◌∷◌,
  ◌++◌, append_assoc, append-nil, length, take, take_of_length-le, ◌&&◌, false, ltb, ◌≡◌, refl, sym,
  ◌∙◌, ap, ◌⊎◌, inl, inr, arith, Bool-cases,
}
use book_filer_module_ssh.Settings.{Bytes}
use book_filer_module_ssh.Flow.{returned, pure, >>=-returned}
use book_filer_module_ssh.Platform.{Platform}
use book_filer_module_ssh.Client.Object.{Client, State, work_done, still_working}
use book_filer_module_ssh.Client.Channel.Rounds.{Rounds, failed_round, last_round, next_round}
use book_filer_module_ssh.Client.Channel.{write_loop, write_command_channel, send}

abbrev pub sum : List ℕ → ℕ
sum [] = 0
sum (k ∷ ks) = k + sum ks

-- The bytes that go out when each round offers all of `bytes` and `k` of them are taken.
abbrev pub prefixes : Bytes → List ℕ → Bytes
prefixes bytes [] = []
prefixes bytes (k ∷ ks) = take k bytes ++ prefixes bytes ks

module _ (p : Platform) where
  open p use {World, channel_write}

  -- The contract of `libssh2_channel_write`: it takes a prefix of what it is offered and says how
  -- long it was, or returns a negative error code and takes nothing. `sent` is what has gone into a
  -- channel so far.
  pub record WriteContract : Type 0 where
    pub sent : Option ℕ → World → Bytes
    pub writes :
        (channel : Option ℕ) (bytes : Bytes) (n : ℕ) (w : World)
        → let (rc, w') = channel_write channel bytes n w in
          ((k : ℕ) × (rc ≡ pos k) × (k ≤ n) × (sent channel w' ≡ sent channel w ++ take k bytes))
          ⊎ ((e : ℕ) × (rc ≡ negsuc e) × (e < 2 ^ 31) × (sent channel w' ≡ sent channel w))

  -- The client after a round in which the channel took `k` bytes.
  abbrev wrote_round : Client World → ℕ → Client World
  wrote_round c k = record c {
    world = (channel_write c.command_channel c.command_str c.command_str_len c.world).1;
    written_bytes = c.written_bytes + k;
  }

  module _ (fuel k : ℕ) (c : Client World) (small : c.command_str_len < 2 ^ 31)
      (rc : (channel_write c.command_channel c.command_str c.command_str_len c.world).0
        ≡ pos k) where
    write_loop-more :
        0 < k
        → c.written_bytes + k < c.command_str_len
        → write_loop p (suc fuel) c ≡ write_loop p fuel (wrote_round c k)
    unfolding write_loop
    write_loop-more some_taken more = ground (arith, to_int-pos k)

    write_loop-last :
        k ≤ c.command_str_len
        → c.written_bytes ≤ c.command_str_len
        → (k ≡ 0) ⊎ (c.command_str_len ≤ c.written_bytes + k)
        → write_loop p (suc fuel) c ≡ returned work_done (wrote_round c k)
    unfolding write_loop
    write_loop-last le below last = ground (arith, to_int-pos k)

  -- The client when the loop starts.
  abbrev started : Bytes → ℕ → Client World → Client World
  started bytes len c = record c { command_str = bytes; command_str_len = len; written_bytes = 0 }

  write_command_channel_lem :
      (bytes : Bytes) (len : ℕ) (c : Client World)
      → len ≤ length bytes
      → write_command_channel p (started bytes len c) ≡ write_loop p (suc len) (started bytes len c)
  unfolding write_command_channel
  write_command_channel_lem bytes len c inside =
      let test : ltb (length bytes) len ≡ false = ground arith in ground (arith, test)

  send_lem :
      (bytes : Bytes) (len : ℕ) (c : Client World) {st : State} {d : Client World}
      → len ≤ length bytes
      → write_loop p (suc len) (started bytes len c) ≡ returned st d
      → send p bytes len c ≡ returned (pos 0) d
  unfolding send
  send_lem bytes len c inside run =
      >>=-returned (write_command_channel p) (λ _. pure (pos 0)) (started bytes len c)
        (write_command_channel_lem bytes len c inside ∙ run)

  module _ (contract : WriteContract) where
    open contract use {sent, writes}

    -- What the rounds of a write have done, if the channel took the numbers of bytes `ks`.
    pub record Wrote (c d : Client World) (ks : List ℕ) : Type 0 where
      pub delivered :
          sent c.command_channel d.world
          ≡ sent c.command_channel c.world ++ prefixes c.command_str ks
      pub rounds :
          Rounds p c.command_channel c.command_str c.command_str_len c.written_bytes c.world ks
            d.world
      pub counted : d.written_bytes ≡ c.written_bytes + sum ks
      pub kept : d ≡ record c { world = d.world; written_bytes = d.written_bytes }

    write_loop-Wrote :
        (fuel : ℕ) (c : Client World)
        → c.command_str_len < 2 ^ 31
        → c.written_bytes ≤ c.command_str_len
        → c.command_str_len < c.written_bytes + fuel
        → (st : State) × (ks : List ℕ) × (d : Client World) × (write_loop p fuel c ≡ returned st d)
          × Wrote c d ks
    unfolding write_loop
    write_loop-Wrote zero c small below enough = absurd (omega arith)
    write_loop-Wrote (suc fuel) c small below enough =
        elim (writes c.command_channel c.command_str c.command_str_len c.world) [
          | inr (e, rc, small_e, same) ↦ (
            still_working,
            [],
            record (wrote_round c 0) { written_bytes = c.written_bytes },
            ground (arith, to_int-negsuc e),
            record {
              delivered = same ∙ sym (append-nil _);
              rounds = failed_round e rc;
              counted = omega arith;
              kept = refl;
            },
          )
          | inl (k, rc, le, taken) ↦
              elim (Bool-cases (ltb 0 k && ltb (c.written_bytes + k) c.command_str_len)) [
                | inr done ↦ (
                  work_done,
                  k ∷ [],
                  wrote_round c k,
                  write_loop-last fuel k c small rc le below (ground arith),
                  record {
                    delivered = taken ∙ ap (◌++◌ _) (sym (append-nil _));
                    rounds = last_round k rc (ground arith);
                    counted = omega arith;
                    kept = refl;
                  },
                )
                | inl more ↦
                    let (st, ks, d, run, wrote) =
                      write_loop-Wrote fuel (wrote_round c k) small (ground arith) (ground arith) in
                    (
                      st,
                      k ∷ ks,
                      d,
                      write_loop-more fuel k c small rc (ground arith) (ground arith) ∙ run,
                      record {
                        delivered =
                            wrote.delivered
                            ∙ (rw taken (
                                append_assoc (sent c.command_channel c.world) (take k c.command_str)
                                  (prefixes c.command_str ks)));
                        rounds = next_round k rc (ground arith) (ground arith) wrote.rounds;
                        counted = omega (arith, wrote.counted);
                        kept = wrote.kept;
                      },
                    )
              ]
        ]

    -- Where the channel obeys the contract of libssh2_channel_write, the length is below 2 ^ 31 and
    -- no more than there are bytes, `send` returns 0 after finitely many rounds. Each round is a call
    -- that offers the bytes from their start; while calls take some bytes, but together fewer than
    -- the length, there is another one, and a call that fails, takes nothing, or reaches the length
    -- is the last one. What goes into the channel is that many prefixes of the bytes, one after the
    -- other, as the calls took, and `written_bytes` is the sum of the numbers.
    pub send-rounds :
        (bytes : Bytes) (len : ℕ) (c : Client World)
        → len < 2 ^ 31
        → len ≤ length bytes
        → (ks : List ℕ) × (d : Client World) × (send p bytes len c ≡ returned (pos 0) d)
          × Rounds p c.command_channel bytes len 0 c.world ks d.world
          × (sent c.command_channel d.world ≡ sent c.command_channel c.world ++ prefixes bytes ks)
          × (d.written_bytes ≡ sum ks)
    send-rounds bytes len c small inside =
        let (st, ks, d, run, wrote) =
          write_loop-Wrote (suc len) (started bytes len c) small (omega arith) (omega arith) in
        (
          ks,
          d,
          send_lem bytes len c inside run,
          wrote.rounds,
          wrote.delivered,
          wrote.counted ∙ (omega arith),
        )

    -- Where the channel obeys the contract of libssh2_channel_write, there are fewer than 2 ^ 31
    -- bytes, and the first round takes all of them, `send` returns 0 after one round, and exactly
    -- these bytes go into the channel.
    pub send_whole :
        (bytes : Bytes) (c : Client World)
        → length bytes < 2 ^ 31
        → (channel_write c.command_channel bytes (length bytes) c.world).0 ≡ pos (length bytes)
        → (d : Client World) × (send p bytes (length bytes) c ≡ returned (pos 0) d)
          × (d.world ≡ (channel_write c.command_channel bytes (length bytes) c.world).1)
          × (d.command_channel ≡ c.command_channel)
          × (sent c.command_channel d.world ≡ sent c.command_channel c.world ++ bytes)
    send_whole bytes c small all =
        let n : ℕ = length bytes in
        let start = started bytes n c in
        (
          wrote_round start n,
          send_lem bytes n c (omega arith)
              (write_loop-last n n start small all (omega arith) (omega arith) (inr (omega arith))),
          refl,
          refl,
          ground (arith, writes c.command_channel bytes n c.world, take_of_length-le n bytes),
        )

    -- Where the channel obeys the contract of libssh2_channel_write, the length is below 2 ^ 31
    -- and no more than there are bytes, the first round takes k bytes, fewer than all but not
    -- none, and the second one j, at least as many as are then missing: `send` returns 0, and what
    -- goes into the channel is the first k bytes and then the first j bytes, again from the start.
    pub send_partial :
        (bytes : Bytes) (len k j : ℕ) (c : Client World)
        → len < 2 ^ 31
        → 0 < k
        → k < len
        → len ≤ k + j
        → j ≤ len
        → len ≤ length bytes
        → let (rc, w) = channel_write c.command_channel bytes len c.world in
          rc ≡ pos k
          → (channel_write c.command_channel bytes len w).0 ≡ pos j
          → (d : Client World) × (send p bytes len c ≡ returned (pos 0) d)
            × (sent c.command_channel d.world
                ≡ sent c.command_channel c.world ++ (take k bytes ++ take j bytes))
    send_partial bytes zero k j c small some_taken part rest le inside first second =
        absurd (omega arith)
    send_partial bytes (suc n) k j c small some_taken part rest le inside first second =
        let start = started bytes (suc n) c in
        let next = wrote_round start k in
        (
          wrote_round next j,
          send_lem bytes (suc n) c inside (
              write_loop-more (suc n) k start small first some_taken (omega arith)
              ∙ write_loop-last n j next small second le (omega arith) (inr (omega arith))),
          ground (
            arith,
            writes c.command_channel bytes (suc n) c.world,
            writes c.command_channel bytes (suc n) next.world,
            append_assoc (sent c.command_channel c.world) (take k bytes) (take j bytes),
          ),
        )
