-- ===== src/Tunnel/Connection/Turns/Pushed.antt =====
-- The step of `runPush`: a read of the local socket, and what it gave is sent.
use mathlib.Core.Path.{subst}
use book_filer_module_ssh.Prelude.{
  ℕ, pos, ◌≤◌, Option, none, some, ◌++◌, length, ◌≡◌, sym, ap, ◌∙◌, inl, inr, arith,
}
use book_filer_module_ssh.Settings.{Bytes}
use book_filer_module_ssh.Flow.{returned}
use book_filer_module_ssh.Platform.{Platform}
use book_filer_module_ssh.Client.Object.{Client}
use book_filer_module_ssh.Client.Channel.{send}
use book_filer_module_ssh.Client.Channel.Writing.{WriteContract, send_whole}
use book_filer_module_ssh.Client.Channel.Reading.{ReadContract}
use book_filer_module_ssh.Tunnel.Connection.{LocalSocket, read_buffer_length}
use book_filer_module_ssh.Tunnel.Connection.Turns.{Push, Pair, push_chunk}
use book_filer_module_ssh.Tunnel.Connection.Turns.Contract.{
  DuplexContract, IsFaithful, StaysFaithful,
}

module _ (p : Platform) (socket : LocalSocket p.World) (writes : WriteContract p)
    (reads : ReadContract p) (channel : Option ℕ)
    (duplex : DuplexContract p socket writes channel) where
  open p use {World, channel_read, channel_write}
  open duplex use {received, written, typed}

  module _ (s : Pair World) (f : IsFaithful p socket writes channel duplex s) where
    -- The client after a read of the local socket.
    abbrev pub typing_client : Client World
    typing_client = record (s.client) {
      world = (socket.read_some read_buffer_length s.client.world).1;
    }

    pub push_chunk-end :
        (socket.read_some read_buffer_length s.client.world).0 ≡ none
        → push_chunk p socket s
          ≡ returned tt (record s { client = typing_client; push = Push.ended })
    unfolding push_chunk
    push_chunk-end e = ground arith

    pub push_chunk-sent :
        (bytes : Bytes) (d : Client World)
        → (socket.read_some read_buffer_length s.client.world).0 ≡ some bytes
        → send p bytes (length bytes) typing_client ≡ returned (pos 0) d
        → push_chunk p socket s ≡ returned tt (record s { client = d })
    unfolding push_chunk
    push_chunk-sent bytes d e run = ground arith

    -- The client after the bytes were sent.
    sent-IsFaithful :
        (bytes : Bytes) (d : Client World)
        → d.world ≡ (channel_write channel bytes (length bytes) typing_client.world).1
        → d.command_channel ≡ s.client.command_channel
        → writes.sent channel d.world ≡ writes.sent channel typing_client.world ++ bytes
        → let w = typing_client.world in
          (received w ≡ received s.client.world)
            × (written w ≡ written s.client.world)
            × (typed w ≡ typed s.client.world ++ bytes)
            × (writes.sent channel w ≡ writes.sent channel s.client.world)
          → IsFaithful p socket writes channel duplex (record s { client = d })
    sent-IsFaithful bytes d moved kept sent (got, same, typing, out) =
        let (rest, held, sum) = f.pulled in
        let (_, got', same', typing') =
          duplex.channel_writing bytes (length bytes) typing_client.world in
        record {
          same_channel = kept ∙ f.same_channel;
          pulled = (
            rest,
            held,
            ap received moved
                ∙ (got'
                    ∙ (got
                        ∙ (sum ∙ ap (λ u. u ++ rest) (sym (ap written moved ∙ (same' ∙ same)))))),
          );
          pushed =
              sent
              ∙ (ap (λ u. u ++ bytes) (out ∙ f.pushed) ∙ sym (ap typed moved ∙ (typing' ∙ typing)));
        }

    -- `send` of what was typed.
    pub typed_sent :
        (bytes : Bytes)
        → length bytes ≤ read_buffer_length
        → (d : Client World) × (send p bytes (length bytes) typing_client ≡ returned (pos 0) d)
          × (d.world ≡ (channel_write channel bytes (length bytes) typing_client.world).1)
          × (d.command_channel ≡ s.client.command_channel)
          × (writes.sent channel d.world ≡ writes.sent channel typing_client.world ++ bytes)
    typed_sent bytes fit =
        let n : ℕ = length bytes in
        let (d, run, moved, kept, sent) = send_whole p writes bytes typing_client (omega arith) (
          subst (λ ch. (channel_write ch bytes n typing_client.world).0 ≡ pos n)
            (sym f.same_channel) (duplex.channel_writing bytes n typing_client.world).0) in
        (
          d,
          run,
          moved ∙ ap (λ ch. (channel_write ch bytes n typing_client.world).1) f.same_channel,
          kept,
          subst (λ ch. writes.sent ch d.world ≡ writes.sent ch typing_client.world ++ bytes)
              f.same_channel sent,
        )

    pub push_chunk-IsFaithful : StaysFaithful p socket writes channel duplex (push_chunk p socket s)
    push_chunk-IsFaithful =
        let (outcome, got, same, out) = duplex.socket_reading s.client.world in
        let (rest, held, sum) = f.pulled in
        elim outcome [
          | inl (nothing, typing) ↦
              subst (StaysFaithful p socket writes channel duplex) (sym (push_chunk-end nothing))
                (record {
                  same_channel = f.same_channel;
                  pulled = (rest, held, got ∙ (sum ∙ ap (λ u. u ++ rest) (sym same)));
                  pushed = out ∙ (f.pushed ∙ sym typing);
                })
          | inr (bytes, e, fit, typing) ↦
              let (d, run, moved, kept, sent) = typed_sent bytes fit in
              subst (StaysFaithful p socket writes channel duplex)
                (sym (push_chunk-sent bytes d e run))
                (sent-IsFaithful bytes d moved kept sent (got, same, typing, out))
        ]
