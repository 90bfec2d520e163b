-- ===== src/Tunnel/Connection/Turns/Contract.antt =====
-- What the contract of the world says of a tunnel's connection, and what its coroutines keep.
use book_filer_module_ssh.Prelude.{
  ℕ, ◌≤◌, pos, magnitude, true, false, Option, none, some, [], ◌++◌, length, take, ◌≡◌, ◌⊎◌, refl,
  arith,
}
use book_filer_module_ssh.Settings.{Bytes}
use book_filer_module_ssh.Flow.{Result, returned, thrown, undefined, terminated, unfinished}
use book_filer_module_ssh.Platform.{Platform}
use book_filer_module_ssh.Client.Object.{Client}
use book_filer_module_ssh.Client.Channel.Writing.{WriteContract}
use book_filer_module_ssh.Tunnel.Connection.{LocalSocket, read_buffer_length}
use book_filer_module_ssh.Tunnel.Connection.Turns.{Pull, ready, writing, reading, Pair}

-- What `runPull` has read and not written.
abbrev pub InHand : Pull → Bytes → Type 0
InHand ready rest = rest ≡ []
InHand (writing bytes) rest = rest ≡ bytes
InHand Pull.ended rest = Unit {0}

-- What has gone through a channel and its local socket so far.
pub record Traffic : Type 0 where
  pub from_channel : Bytes
  pub to_socket : Bytes
  pub from_socket : Bytes
  pub to_channel : Bytes

abbrev pub no_traffic : Traffic
no_traffic = record { from_channel = []; to_socket = []; from_socket = []; to_channel = [] }

-- The coroutines of a connection that has just got its client.
abbrev pub new_pair : {World : Type 0} → Client World → Pair World
new_pair c = record { client = c; pull = ready; push = reading }

module _ (p : Platform) (socket : LocalSocket p.World) (writes : WriteContract p)
    (channel : Option ℕ) where
  open p use {World, channel_read, channel_write}

  -- What the world has given and taken through this channel and this socket, and that each operation
  -- on them moves only its own direction. A write to the channel takes all that it is offered.
  pub record DuplexContract : Type 0 where
    pub received : World → Bytes
    pub written : World → Bytes
    pub typed : World → Bytes
    pub channel_reading :
        (n : ℕ) (w : World)
        → let (rc, buffer, w') = channel_read channel n w in
          (received w' ≡ received w ++ take (magnitude rc) buffer)
          × (written w' ≡ written w)
          × (typed w' ≡ typed w)
          × (writes.sent channel w' ≡ writes.sent channel w)
    pub channel_writing :
        (bytes : Bytes) (n : ℕ) (w : World)
        → let (rc, w') = channel_write channel bytes n w in
          (rc ≡ pos n)
          × (received w' ≡ received w)
          × (written w' ≡ written w)
          × (typed w' ≡ typed w)
    pub socket_writing :
        (bytes : Bytes) (w : World)
        → let (ec, w') = socket.write bytes w in
          (((ec ≡ false) × (written w' ≡ written w ++ bytes))
            ⊎ ((ec ≡ true) × ((k : ℕ) × (written w' ≡ written w ++ take k bytes))))
          × (received w' ≡ received w)
          × (typed w' ≡ typed w)
          × (writes.sent channel w' ≡ writes.sent channel w)
    pub socket_reading :
        (w : World)
        → let (got, w') = socket.read_some read_buffer_length w in
          (((got ≡ none) × (typed w' ≡ typed w))
            ⊎ ((bytes : Bytes) × (got ≡ some bytes)
                × (length bytes ≤ read_buffer_length)
                × (typed w' ≡ typed w ++ bytes)))
          × (received w' ≡ received w)
          × (written w' ≡ written w)
          × (writes.sent channel w' ≡ writes.sent channel w)

  module _ (duplex : DuplexContract) where
    open duplex use {received, written, typed}

    abbrev pub traffic : World → Traffic
    traffic w = record {
      from_channel = received w;
      to_socket = written w;
      from_socket = typed w;
      to_channel = writes.sent channel w;
    }

    pub record IsFaithful (s : Pair World) : Type 0 where
      pub same_channel : s.client.command_channel ≡ channel
      pub pulled :
          (rest : Bytes) × InHand s.pull rest
          × (received s.client.world ≡ written s.client.world ++ rest)
      pub pushed : writes.sent channel s.client.world ≡ typed s.client.world

    abbrev pub StaysFaithful : Result (Pair World) (Unit {0}) → Type 0
    StaysFaithful (returned _ s) = IsFaithful s
    StaysFaithful (thrown e s) = ⊥
    StaysFaithful (undefined s) = ⊥
    StaysFaithful (terminated s) = ⊥
    StaysFaithful (unfinished s) = ⊥

    pub new_pair-IsFaithful :
        (c : Client World)
        → c.command_channel ≡ channel
        → traffic c.world ≡ no_traffic
        → IsFaithful (new_pair c)
    new_pair-IsFaithful c made quiet = record {
      same_channel = made;
      pulled = ([], refl, ground arith);
      pushed = ground arith;
    }
