-- ===== src/Tunnel/Connection/Turns.antt =====
-- `runPull` and `runPush` (src/core/TunnelServerConnection.cpp) on one client: each runs from where it
-- waits for an operation of the local socket to where it waits next, and the operations complete in
-- any order. Calls of the client do not wait, so nothing runs between the read of a chunk and the
-- start of its write. A turn of `runPull` also ends at a read that gave nothing, after which the code
-- reads again without waiting: the turns are finer than the code there, and their orders include its
-- own.
pub mod Contract
pub mod Pulled
pub mod Pushed
pub mod Duplex
pub mod Apart
pub mod Many
use book_filer_module_ssh.Prelude.{
  ℕ, ℤ, is_negative, Bool, true, false, Option, none, some, List, [], ◌∷◌, length, take, ◌==◌,
}
use book_filer_module_ssh.Settings.{Bytes}
use book_filer_module_ssh.Flow.{
  M, Result, returned, thrown, undefined, terminated, unfinished, ◌>>=◌, ◌>>◌, pure, get, modify,
}
use book_filer_module_ssh.Platform.{Platform}
use book_filer_module_ssh.Client.Object.{Client}
use book_filer_module_ssh.Client.Channel.{read, send}
use book_filer_module_ssh.Tunnel.Connection.{LocalSocket, read_buffer_length}

-- Where `runPull` stands: before the read of the channel, waiting for a write, or returned.
pub data Pull : Type 0 where
  ready ended : Pull
  writing : Bytes → Pull

-- Where `runPush` stands: waiting for a read, or returned.
pub data Push : Type 0 where
  reading ended : Push

pub record Pair (World : Type 0) : Type 0 where
  pub client : Client World
  pub pull : Pull
  pub push : Push

pub data Turn : Type 0 where
  pull_turn push_turn : Turn

-- A method of the client.
abbrev pub on_client : {World A : Type 0} → M (Client World) A → M (Pair World) A
on_client m s = elim (m s.client) [
  | returned a d ↦ returned a (record s { client = d })
  | thrown e d ↦ thrown e (record s { client = d })
  | undefined d ↦ undefined (record s { client = d })
  | terminated d ↦ terminated (record s { client = d })
  | unfinished d ↦ unfinished (record s { client = d })
]

module _ (p : Platform) (socket : LocalSocket p.World) where
  open p use {World}

  -- `sshClient->read`, and the start of the write unless it gave nothing.
  unfoldable pub pull_chunk : M (Pair World) (Unit {0})
  pull_chunk = do
    (rc, bytes, len) ← on_client (read p)
    elim (len == 0) [
      | true ↦ pure tt
      | false ↦ modify (λ s. record s { pull = writing (take len bytes) })
    ]

  -- The write of a chunk completes.
  unfoldable pub chunk_written : Bytes → M (Pair World) (Unit {0})
  chunk_written bytes s =
      let (ec, w) = socket.write bytes s.client.world in
      let next : Pull = elim ec [ true ↦ Pull.ended | false ↦ ready ] in
      returned tt (record s { client = record (s.client) { world = w }; pull = next })

  -- The read of the local socket completes, and what it gave is sent.
  unfoldable pub push_chunk : M (Pair World) (Unit {0})
  push_chunk s =
      let (got, w) = socket.read_some read_buffer_length s.client.world in
      let s : Pair World = record s { client = record (s.client) { world = w } } in
      elim got [
        | none ↦ returned tt (record s { push = Push.ended })
        | some bytes ↦
            (do
              rc ← on_client (send p bytes (length bytes))
              elim (is_negative rc) [
                | true ↦ modify (λ s. record s { push = Push.ended })
                | false ↦ pure tt
              ])
              s
      ]

  unfoldable pub pull_at : Pull → M (Pair World) (Unit {0})
  pull_at ready = pull_chunk
  pull_at (writing bytes) = chunk_written bytes
  pull_at ended = pure tt

  unfoldable pub push_at : Push → M (Pair World) (Unit {0})
  push_at reading = push_chunk
  push_at ended = pure tt

  -- A coroutine that has returned takes no more turns.
  unfoldable pub turn : Turn → M (Pair World) (Unit {0})
  unfolding pull_at push_at
  turn pull_turn s = pull_at s.pull s
  turn push_turn s = push_at s.push s

  unfoldable pub turns : List Turn → M (Pair World) (Unit {0})
  turns [] = pure tt
  turns (t ∷ ts) = turn t >> turns ts
