-- ===== src/Port/Connection.antt =====
-- `port::ConnectionImpl` (src/core/PortForwardingServerConnection.hpp and .cpp): the coroutines `run`
-- and `run2`, which relay bytes between two sockets and share the object. A coroutine is suspended
-- where it waits for an asynchronous operation, so it is a phase and a function that resumes it with
-- the operation's completion. Between two suspensions a coroutine runs alone. `async_write` is a
-- composed operation: its bytes go out piece by piece, and those of another write to the same socket
-- may come between two pieces.
-- `none` is undefined behaviour: the front of an empty queue, or memory that is not allocated.
pub mod Ownership
pub mod Memory
pub mod Relay
pub mod Taken
pub mod Stream
pub mod History
pub mod Open
pub mod Bounds
use Prim.Native.Nat.{min}
use mathlib.Core.Option
use book_filer_module_ssh.Prelude.{
  ℕ, Bool, true, false, ◌&&◌, Option, none, some, List, [], ◌∷◌, ◌++◌, ◌+◌, ◌-◌, length, take, drop,
  replicate, ◌==◌, if◌then◌else◌,
}
use book_filer_module_ssh.Settings.{Bytes}

abbrev pub read_buffer_length : ℕ
read_buffer_length = 1500

-- The size of `buf`, the array of zeros that both coroutines write first.
abbrev pub greeting_length : ℕ
greeting_length = 512

-- `write_buffer_type`: a pointer and a size.
pub record Buffer : Type 0 where
  pub address : ℕ
  pub size : ℕ

-- Where a coroutine is suspended, with the bytes that its write has still to put out, or that it has
-- returned -1.
pub data Phase : Type 0 where
  greeting reading ended : Phase
  writing : Bytes → Phase

-- `run` relays forward, from the source to the destination, and `run2` backward.
pub data Direction : Type 0 where
  forward backward : Direction

-- What belongs to one direction: the coroutine's phase, the queue of the socket that it writes to,
-- and what it has done so far: the bytes that the reads of its source gave, those that its writes to
-- its target have put out, and the zeros that its greeting has put out.
pub record Half : Type 0 where
  pub phase : Phase
  pub write_queue : List Buffer
  pub taken : Bytes
  pub given : Bytes
  pub zeros : ℕ

pub record Connection : Type 0 where
  pub conn_id : Option ℕ
  pub forth : Half
  pub back : Half
  -- The buffers that are allocated.
  pub live : List Buffer
  -- What was written to the two sockets, and whether they are open.
  pub src_out : Bytes
  pub dest_out : Bytes
  pub src_open : Bool
  pub dest_open : Bool

-- How an asynchronous operation goes on: a read of some bytes completes, for which the allocator
-- returns an address; a write puts out a piece of so many bytes; it puts out its rest and completes;
-- or an operation fails, a write after a piece.
pub data Completion : Type 0 where
  got : Bytes → ℕ → Completion
  sent_some : ℕ → Completion
  wrote : Completion
  failed : ℕ → Completion

abbrev pub new_half : Half
new_half = record { phase = greeting; write_queue = []; taken = []; given = []; zeros = 0 }

-- The constructor, and the two coroutines as they are spawned.
unfoldable pub new_connection : Connection
new_connection = record {
  conn_id = none;
  forth = new_half;
  back = new_half;
  live = [];
  src_out = [];
  dest_out = [];
  src_open = true;
  dest_open = true;
}

unfoldable pub set_id : ℕ → Connection → Connection
set_id id c = record c { conn_id = some id }

abbrev pub half : Direction → Connection → Half
half forward c = c.forth
half backward c = c.back

abbrev pub set_half : Direction → Half → Connection → Connection
set_half forward h c = record c { forth = h }
set_half backward h c = record c { back = h }

-- Bytes that go out to a direction's target, and to its source.
abbrev pub put : Direction → Bytes → Connection → Connection
put forward bs c = record c { dest_out = c.dest_out ++ bs }
put backward bs c = record c { src_out = c.src_out ++ bs }

abbrev pub opposite : Direction → Direction
opposite forward = backward
opposite backward = forward

-- A piece of a greeting, and one of the write of a chunk, with the phase that follows.
abbrev pub greet : Direction → ℕ → Phase → Connection → Connection
greet d n ph c =
    put (opposite d) (replicate n 0)
      (set_half d (record (half d c) { phase = ph; zeros = (half d c).zeros + n }) c)

abbrev pub give : Direction → Bytes → Phase → Connection → Connection
give d bs ph c =
    put d bs (set_half d (record (half d c) { phase = ph; given = (half d c).given ++ bs }) c)

-- The zeros that a greeting has still to put out.
abbrev pub rest_of_greeting : Direction → Connection → ℕ
rest_of_greeting d c = greeting_length - (half d c).zeros

unfoldable pub deallocate : Buffer → List Buffer → Option (List Buffer)
deallocate b [] = none
deallocate b (x ∷ xs) =
    if x.address == b.address && x.size == b.size
    then some xs
    else Option.map (λ ys. x ∷ ys) (deallocate b xs)

-- `dest_write_handler` and `src_write_handler`: the front buffer of the direction's queue is popped
-- and deallocated; on an error both sockets are closed.
unfoldable pub write_handler : Direction → Bool → Connection → Option Connection
write_handler d ec c = elim (half d c).write_queue [
  | [] ↦ none
  | b ∷ rest ↦
      Option.map
        (λ live.
          let popped = record (set_half d (record (half d c) { write_queue = rest }) c) {
            live = live;
          } in
          if ec then record popped { src_open = false; dest_open = false } else popped)
        (deallocate b c.live)
]

unfoldable pub dest_write_handler : Bool → Connection → Option Connection
dest_write_handler = write_handler forward

unfoldable pub src_write_handler : Bool → Connection → Option Connection
src_write_handler = write_handler backward

-- The loop's body from the end of a read to the start of the write: the bytes go to a buffer of
-- their own, which is queued.
unfoldable pub start_write : Direction → Bytes → ℕ → Connection → Connection
start_write d bs address c =
    let b : Buffer = record { address = address; size = length bs } in
    record (set_half d
      (record (half d c) {
        phase = writing bs;
        write_queue = (half d c).write_queue ++ b ∷ [];
        taken = (half d c).taken ++ bs;
      })
      c) { live = b ∷ c.live }

-- A completion resumes the coroutine that waits for it; any other leaves the connection as it is.
unfoldable pub resume_at : Phase → Direction → Completion → Connection → Option Connection
resume_at greeting d wrote c = some (greet d (rest_of_greeting d c) reading c)
resume_at greeting d (sent_some k) c = some (greet d (min k (rest_of_greeting d c)) greeting c)
resume_at greeting d (failed k) c = some (greet d (min k (rest_of_greeting d c)) ended c)
resume_at reading d (got bs address) c = some (start_write d bs address c)
resume_at reading d (failed k) c = some (set_half d (record (half d c) { phase = ended }) c)
resume_at (writing bs) d wrote c = write_handler d false (give d bs reading c)
resume_at (writing bs) d (sent_some k) c = some (give d (take k bs) (writing (drop k bs)) c)
resume_at (writing bs) d (failed k) c = some (give d (take k bs) ended c)
resume_at _ d _ c = some c

unfoldable pub resume : Direction → Completion → Connection → Option Connection
resume d done c = resume_at (half d c).phase d done c

unfoldable pub run : Completion → Connection → Option Connection
run = resume forward

unfoldable pub run2 : Completion → Connection → Option Connection
run2 = resume backward

-- The destructor.
unfoldable pub destroy : Connection → Connection
destroy c = record c { src_open = false; dest_open = false }
