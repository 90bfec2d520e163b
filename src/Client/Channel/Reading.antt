-- ===== src/Client/Channel/Reading.antt =====
-- What `read` takes from the channel, under the contract of `libssh2_channel_read`.
use book_filer_module_ssh.Prelude.{
  ℕ, suc, ◌^◌, ◌≤◌, ◌<◌, pos, negsuc, magnitude, to_int-pos, to_int-negsuc, Option, length,
  length-take, take, ◌≡◌, ◌⊎◌, inl, inr, arith,
}
use book_filer_module_ssh.Flow.{returned}
use book_filer_module_ssh.Platform.{Platform}
use book_filer_module_ssh.Client.Object.{Client}
use book_filer_module_ssh.Client.Channel.{buffer_size, read_loop, do_read_command_channel, read}

module _ (p : Platform) where
  open p use {World, channel_read}

  -- The contract of `libssh2_channel_read`: it fills a part of the buffer and says how much, or
  -- returns a negative error code.
  pub record ReadContract : Type 0 where
    pub reads :
        (channel : Option ℕ) (n : ℕ) (w : World)
        → let (rc, buffer, w') = channel_read channel n w in
          ((k : ℕ) × (rc ≡ pos k) × (k ≤ n) × (k ≤ length buffer))
          ⊎ ((e : ℕ) × (rc ≡ negsuc e) × (e < 2 ^ 31))

  -- With the outer return code 0, the loop that reads the command channel does the same with any
  -- fuel as with fuel for one round: it never makes a second round.
  pub read_loop-once :
      (fuel : ℕ) (c : Client World) → read_loop p (suc fuel) (pos 0) c ≡ read_loop p 1 (pos 0) c
  unfolding read_loop
  read_loop-once fuel c = ground arith

  -- Where the channel obeys the contract of libssh2_channel_read, `read` calls it once. It
  -- returns 0, the bytes that the call gave and their number, which is at most the size of the
  -- buffer and 0 on an error, and keeps both in the client, in which nothing else but the world
  -- changes.
  pub read_lem :
      ReadContract
      → (c : Client World)
      → let (rc, buffer, w) = channel_read c.command_channel buffer_size c.world in
        let bytes = take (magnitude rc) buffer in
        (read p c
          ≡ returned
              (pos 0, bytes, length bytes)
              (record c {
                world = w;
                command_channel_read_str = bytes;
                command_channel_read_len = length bytes;
              }))
        × (length bytes ≤ buffer_size)
  unfolding read do_read_command_channel read_loop
  read_lem contract c = elim (contract.reads c.command_channel buffer_size c.world) [
    | inl (k, rc, le, filled) ↦
        ground (
          arith,
          to_int-pos k,
          length-take k (channel_read c.command_channel buffer_size c.world).1,
        )
    | inr (e, rc, small) ↦ ground (arith, to_int-negsuc e)
  ]
