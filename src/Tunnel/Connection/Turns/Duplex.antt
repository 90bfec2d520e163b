-- ===== src/Tunnel/Connection/Turns/Duplex.antt =====
-- What the two coroutines of a tunnel's connection carry together.
use mathlib.Core.Path.{subst}
use book_filer_module_ssh.Prelude.{ℕ, Option, List, [], ◌∷◌, ◌≡◌, refl, sym}
use book_filer_module_ssh.Flow.{
  Result, returned, thrown, undefined, terminated, unfinished, >>=-returned,
}
use book_filer_module_ssh.Platform.{Platform}
use book_filer_module_ssh.Client.Channel.Writing.{WriteContract}
use book_filer_module_ssh.Client.Channel.Reading.{ReadContract}
use book_filer_module_ssh.Tunnel.Connection.{LocalSocket}
use book_filer_module_ssh.Tunnel.Connection.Turns.{
  Pull, ready, writing, Push, reading, Pair, Turn, pull_turn, push_turn, pull_at, push_at, turn,
  turns,
}
use book_filer_module_ssh.Tunnel.Connection.Turns.Contract.{
  DuplexContract, IsFaithful, StaysFaithful,
}
use book_filer_module_ssh.Tunnel.Connection.Turns.Pulled.{
  pull_chunk-IsFaithful, chunk_written-IsFaithful,
}
use book_filer_module_ssh.Tunnel.Connection.Turns.Pushed.{push_chunk-IsFaithful}

module _ (p : Platform) (socket : LocalSocket p.World) (writes : WriteContract p)
    (reads : ReadContract p) (channel : Option ℕ)
    (duplex : DuplexContract p socket writes channel) where
  open p use {World, channel_read, channel_write}
  open duplex use {received, written, typed}

  pull_at-IsFaithful :
      (q : Pull) (s : Pair World)
      → s.pull ≡ q
      → IsFaithful p socket writes channel duplex s
      → StaysFaithful p socket writes channel duplex (pull_at p socket q s)
  unfolding pull_at
  pull_at-IsFaithful ready s e f = pull_chunk-IsFaithful p socket writes reads channel duplex s f e
  pull_at-IsFaithful (writing bytes) s e f =
      chunk_written-IsFaithful p socket writes reads channel duplex s f bytes e
  pull_at-IsFaithful Pull.ended s e f = f

  push_at-IsFaithful :
      (q : Push) (s : Pair World)
      → IsFaithful p socket writes channel duplex s
      → StaysFaithful p socket writes channel duplex (push_at p socket q s)
  unfolding push_at
  push_at-IsFaithful reading s f = push_chunk-IsFaithful p socket writes reads channel duplex s f
  push_at-IsFaithful Push.ended s f = f

  pub turn-IsFaithful :
      (t : Turn) (s : Pair World)
      → IsFaithful p socket writes channel duplex s
      → StaysFaithful p socket writes channel duplex (turn p socket t s)
  unfolding turn
  turn-IsFaithful pull_turn s f = pull_at-IsFaithful s.pull s refl f
  turn-IsFaithful push_turn s f = push_at-IsFaithful s.push s f

  turn_then-IsFaithful :
      (t : Turn) (ts : List Turn) (s : Pair World) (r : Result (Pair World) (Unit {0}))
      → turn p socket t s ≡ r
      → StaysFaithful p socket writes channel duplex r
      → ((s' : Pair World)
          → IsFaithful p socket writes channel duplex s'
          → StaysFaithful p socket writes channel duplex (turns p socket ts s'))
      → StaysFaithful p socket writes channel duplex (turns p socket (t ∷ ts) s)
  unfolding turns
  turn_then-IsFaithful t ts s (returned _ s') e f' later =
      subst (StaysFaithful p socket writes channel duplex)
        (sym (>>=-returned (turn p socket t) (λ _. turns p socket ts) s e)) (later s' f')
  turn_then-IsFaithful t ts s (thrown x s') e f' later = absurd f'
  turn_then-IsFaithful t ts s (undefined s') e f' later = absurd f'
  turn_then-IsFaithful t ts s (terminated s') e f' later = absurd f'
  turn_then-IsFaithful t ts s (unfinished s') e f' later = absurd f'

  -- Where reads and writes of the channel and of the local socket obey their contracts and move
  -- their own direction only, and the channel takes all that it is offered: every sequence of
  -- turns of the two coroutines on one client returns, and it keeps this: the channel of the
  -- client is the given one, what the channel gave is what was written to the local socket and
  -- then the chunk that is being written, if one is, and what was typed at the local socket is
  -- what was sent into the channel; once a failed write has ended `runPull`, what was written is
  -- a prefix of what the channel gave.
  pub turns-IsFaithful :
      (ts : List Turn) (s : Pair World)
      → IsFaithful p socket writes channel duplex s
      → StaysFaithful p socket writes channel duplex (turns p socket ts s)
  unfolding turns
  turns-IsFaithful [] s f = f
  turns-IsFaithful (t ∷ ts) s f =
      turn_then-IsFaithful t ts s (turn p socket t s) refl (turn-IsFaithful t s f)
        (λ s'. turns-IsFaithful ts s')
