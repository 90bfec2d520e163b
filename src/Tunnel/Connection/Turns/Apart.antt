-- ===== src/Tunnel/Connection/Turns/Apart.antt =====
-- What a turn of a tunnel's connection leaves alone: all that the operations on its channel and on its
-- local socket do.
use book_filer_module_ssh.Prelude.{ℕ, Option, [], ◌∷◌, ◌≡◌, refl, sym, ap, subst, ◌∙◌, inl, inr}
use book_filer_module_ssh.Settings.{Bytes}
use book_filer_module_ssh.Flow.{Result, returned, thrown, undefined, terminated, unfinished}
use book_filer_module_ssh.Platform.{Platform}
use book_filer_module_ssh.Client.Channel.{buffer_size}
use book_filer_module_ssh.Client.Channel.Writing.{WriteContract}
use book_filer_module_ssh.Client.Channel.Reading.{ReadContract}
use book_filer_module_ssh.Tunnel.Connection.{LocalSocket, read_buffer_length}
use book_filer_module_ssh.Tunnel.Connection.Turns.{
  Pull, ready, writing, Push, reading, Pair, Turn, pull_turn, push_turn, pull_chunk, push_chunk,
  chunk_written, pull_at, push_at, turn,
}
use book_filer_module_ssh.Tunnel.Connection.Turns.Contract.{DuplexContract, IsFaithful}
use book_filer_module_ssh.Tunnel.Connection.Turns.Pulled.{chunk, pull_chunk-empty, pull_chunk-full}
use book_filer_module_ssh.Tunnel.Connection.Turns.Pushed.{
  push_chunk-end, push_chunk-sent, typed_sent,
}

module _ (p : Platform) (socket : LocalSocket p.World) (channel : Option ℕ) where
  open p use {World, channel_read, channel_write}

  -- A view of the world that the operations on this channel and this socket do not change.
  pub record IsApart {A : Type 0} (f : World → A) : Type 0 where
    pub from_channel_read : (n : ℕ) (w : World) → f (channel_read channel n w).2 ≡ f w
    pub from_channel_write :
        (bytes : Bytes) (n : ℕ) (w : World) → f (channel_write channel bytes n w).1 ≡ f w
    pub from_socket_write : (bytes : Bytes) (w : World) → f (socket.write bytes w).1 ≡ f w
    pub from_socket_read : (w : World) → f (socket.read_some read_buffer_length w).1 ≡ f w

  module _ {A : Type 0} (f : World → A) (apart : IsApart f) where
    -- It returns, and the view is as before.
    abbrev pub LeavesAlone : Pair World → Result (Pair World) (Unit {0}) → Type 0
    LeavesAlone s (returned _ s') = f s'.client.world ≡ f s.client.world
    LeavesAlone s (thrown e s') = ⊥
    LeavesAlone s (undefined s') = ⊥
    LeavesAlone s (terminated s') = ⊥
    LeavesAlone s (unfinished s') = ⊥

    module _ (writes : WriteContract p) (reads : ReadContract p)
        (duplex : DuplexContract p socket writes channel) (s : Pair World)
        (faithful : IsFaithful p socket writes channel duplex s) where
      read-LeavesAlone :
          f (channel_read s.client.command_channel buffer_size s.client.world).2 ≡ f s.client.world
      read-LeavesAlone =
          subst (λ ch. f (channel_read ch buffer_size s.client.world).2 ≡ f s.client.world)
            (sym faithful.same_channel) (apart.from_channel_read buffer_size s.client.world)

      pull_chunk-LeavesAlone : LeavesAlone s (pull_chunk p socket s)
      pull_chunk-LeavesAlone = go (chunk p socket writes reads channel duplex s.client) refl
        where
          go :
              (bytes : Bytes)
              → chunk p socket writes reads channel duplex s.client ≡ bytes
              → LeavesAlone s (pull_chunk p socket s)
          go [] e =
              subst (LeavesAlone s)
                (sym (pull_chunk-empty p socket writes reads channel duplex s e)) read-LeavesAlone
          go (b ∷ bs) e =
              subst (LeavesAlone s)
                (sym (pull_chunk-full p socket writes reads channel duplex s b bs e))
                read-LeavesAlone

      push_chunk-LeavesAlone : LeavesAlone s (push_chunk p socket s)
      push_chunk-LeavesAlone =
          let (outcome, _, _, _) = duplex.socket_reading s.client.world in
          let typed = apart.from_socket_read s.client.world in
          elim outcome [
            | inl (nothing, _) ↦
                subst (LeavesAlone s)
                  (sym (push_chunk-end p socket writes reads channel duplex s faithful nothing))
                  typed
            | inr (bytes, e, fit, _) ↦
                let (d, run, moved, _, _) =
                  typed_sent p socket writes reads channel duplex s faithful bytes fit in
                subst (LeavesAlone s)
                  (sym
                    (push_chunk-sent p socket writes reads channel duplex s faithful bytes d e run))
                  (ap f moved ∙ apart.from_channel_write bytes _ _ ∙ typed)
          ]

      pull_at-LeavesAlone : (q : Pull) → LeavesAlone s (pull_at p socket q s)
      unfolding pull_at chunk_written
      pull_at-LeavesAlone ready = pull_chunk-LeavesAlone
      pull_at-LeavesAlone (writing bytes) = apart.from_socket_write bytes s.client.world
      pull_at-LeavesAlone Pull.ended = refl

      push_at-LeavesAlone : (q : Push) → LeavesAlone s (push_at p socket q s)
      unfolding push_at
      push_at-LeavesAlone reading = push_chunk-LeavesAlone
      push_at-LeavesAlone Push.ended = refl

      pub turn-LeavesAlone : (t : Turn) → LeavesAlone s (turn p socket t s)
      unfolding turn
      turn-LeavesAlone pull_turn = pull_at-LeavesAlone s.pull
      turn-LeavesAlone push_turn = push_at-LeavesAlone s.push
