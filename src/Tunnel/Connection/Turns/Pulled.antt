-- ===== src/Tunnel/Connection/Turns/Pulled.antt =====
-- The steps of `runPull`: a read of the channel, and the end of a write to the local socket.
use mathlib.Core.Path.{subst}
use book_filer_module_ssh.Prelude.{
  ℕ, magnitude, Bool, true, false, Option, [], ◌∷◌, ◌++◌, append_assoc, append-nil,
  take-append-drop, drop, length, take, take_of_length-le, ◌≡◌, refl, sym, ap, ◌∙◌, ◌⊎◌, inl, inr,
  arith,
}
use book_filer_module_ssh.Settings.{Bytes}
use book_filer_module_ssh.Flow.{returned}
use book_filer_module_ssh.Platform.{Platform}
use book_filer_module_ssh.Client.Object.{Client}
use book_filer_module_ssh.Client.Channel.{buffer_size}
use book_filer_module_ssh.Client.Channel.Writing.{WriteContract}
use book_filer_module_ssh.Client.Channel.Reading.{ReadContract, read_lem}
use book_filer_module_ssh.Tunnel.Connection.{LocalSocket}
use book_filer_module_ssh.Tunnel.Connection.Turns.{
  Pull, ready, writing, Pair, pull_chunk, chunk_written,
}
use book_filer_module_ssh.Tunnel.Connection.Turns.Contract.{
  DuplexContract, InHand, IsFaithful, StaysFaithful,
}

module _ (p : Platform) (socket : LocalSocket p.World) (writes : WriteContract p)
    (reads : ReadContract p) (channel : Option ℕ)
    (duplex : DuplexContract p socket writes channel) where
  open p use {World, channel_read, channel_write}
  open duplex use {received, written, typed}

  reading_at :
      (ch : Option ℕ)
      → ch ≡ channel
      → (n : ℕ) (w : World)
      → let (rc, buffer, w') = channel_read ch n w in
        (received w' ≡ received w ++ take (magnitude rc) buffer)
        × (written w' ≡ written w)
        × (typed w' ≡ typed w)
        × (writes.sent channel w' ≡ writes.sent channel w)
  reading_at ch e n w = rw e (duplex.channel_reading n w)

  -- The client after a read, and what the read gave.
  abbrev pub chunk : Client World → Bytes
  chunk c =
      let (rc, buffer, w) = channel_read c.command_channel buffer_size c.world in
      take (magnitude rc) buffer

  abbrev after_read : Client World → Client World
  after_read c = record c {
    world = (channel_read c.command_channel buffer_size c.world).2;
    command_channel_read_str = chunk c;
    command_channel_read_len = length (chunk c);
  }

  pub pull_chunk-empty :
      (s : Pair World)
      → chunk s.client ≡ []
      → pull_chunk p socket s ≡ returned tt (record s { client = after_read s.client })
  unfolding pull_chunk
  pull_chunk-empty s e = ground (arith, (read_lem p reads s.client).0)

  pub pull_chunk-full :
      (s : Pair World) (b : ℕ) (bs : Bytes)
      → chunk s.client ≡ b ∷ bs
      → pull_chunk p socket s
        ≡ returned tt (record s { client = after_read s.client; pull = writing (chunk s.client) })
  unfolding pull_chunk
  pull_chunk-full s b bs e = ground (
    arith,
    (read_lem p reads s.client).0,
    take_of_length-le (length (chunk s.client)) (chunk s.client),
  )

  module _ (s : Pair World) (f : IsFaithful p socket writes channel duplex s) where
    -- A read of the channel.
    read-IsFaithful :
        s.pull ≡ ready
        → (pull : Pull) → InHand pull (chunk s.client)
        → IsFaithful p socket writes channel duplex
            (record s { client = after_read s.client; pull = pull })
    read-IsFaithful e pull hand =
        let (rest, held, sum) = f.pulled in
        let (got, same, typing, out) =
          reading_at s.client.command_channel f.same_channel buffer_size s.client.world in
        let nothing : rest ≡ [] = subst (λ q. InHand q rest) e held in
        record {
          same_channel = f.same_channel;
          pulled = (
            chunk s.client,
            hand,
            got
                ∙ ap (λ u. u ++ chunk s.client)
                    (sum
                      ∙ (ap (λ r. written s.client.world ++ r) nothing
                          ∙ (append-nil _ ∙ sym same))),
          );
          pushed = out ∙ (f.pushed ∙ sym typing);
        }

    pub pull_chunk-IsFaithful :
        s.pull ≡ ready → StaysFaithful p socket writes channel duplex (pull_chunk p socket s)
    pull_chunk-IsFaithful e = go (chunk s.client) refl
      where
        go :
            (bytes : Bytes)
            → chunk s.client ≡ bytes
            → StaysFaithful p socket writes channel duplex (pull_chunk p socket s)
        go [] none_read =
            subst (StaysFaithful p socket writes channel duplex)
              (sym (pull_chunk-empty s none_read))
              (subst
                (λ q.
                  IsFaithful p socket writes channel duplex
                    (record s { client = after_read s.client; pull = q }))
                (sym e) (read-IsFaithful e ready none_read))
        go (b ∷ bs) some_read =
            subst (StaysFaithful p socket writes channel duplex)
              (sym (pull_chunk-full s b bs some_read))
              (read-IsFaithful e (writing (chunk s.client)) refl)

    -- The write of `bytes` to the local socket, by its error code.
    write-IsFaithful :
        (bytes : Bytes) (ec : Bool) (w : World)
        → received s.client.world ≡ written s.client.world ++ bytes
        → (((ec ≡ false) × (written w ≡ written s.client.world ++ bytes))
            ⊎ ((ec ≡ true) × ((k : ℕ) × (written w ≡ written s.client.world ++ take k bytes))))
          × (received w ≡ received s.client.world)
          × (typed w ≡ typed s.client.world)
          × (writes.sent channel w ≡ writes.sent channel s.client.world)
        → IsFaithful p socket writes channel duplex (record s {
          client = record (s.client) { world = w };
          pull = elim ec [ true ↦ Pull.ended | false ↦ ready ];
        })
    write-IsFaithful bytes true w sum (inl (x, _), got, typing, out) = cc
    write-IsFaithful bytes true w sum (inr (_, (k, cut)), got, typing, out) = record {
      same_channel = f.same_channel;
      pulled = (
        drop k bytes,
        tt,
        got
            ∙ (sum
                ∙ (ap (◌++◌ (written s.client.world)) (sym (take-append-drop k bytes))
                    ∙ (sym (append_assoc (written s.client.world) (take k bytes) (drop k bytes))
                        ∙ ap (λ t. t ++ drop k bytes) (sym cut)))),
      );
      pushed = out ∙ (f.pushed ∙ sym typing);
    }
    write-IsFaithful bytes false w sum (inl (_, all), got, typing, out) = record {
      same_channel = f.same_channel;
      pulled = ([], refl, got ∙ (sum ∙ (sym all ∙ sym (append-nil _))));
      pushed = out ∙ (f.pushed ∙ sym typing);
    }
    write-IsFaithful bytes false w sum (inr (x, _), got, typing, out) = cc

    pub chunk_written-IsFaithful :
        (bytes : Bytes)
        → s.pull ≡ writing bytes
        → StaysFaithful p socket writes channel duplex (chunk_written p socket bytes s)
    unfolding chunk_written
    chunk_written-IsFaithful bytes e =
        let (rest, held, sum) = f.pulled in
        let all : rest ≡ bytes = subst (λ q. InHand q rest) e held in
        write-IsFaithful bytes (socket.write bytes s.client.world).0
          (socket.write bytes s.client.world).1 (sum ∙ ap (λ r. written s.client.world ++ r) all)
          (duplex.socket_writing bytes s.client.world)
