-- ===== src/Tunnel/Connection.antt =====
-- `ssh::ConnectionImpl` (src/core/TunnelServerConnection.cpp): the coroutines `runPull`, from the SSH
-- channel to the local socket, and `runPush`, the other way. Each is a loop that never ends by its
-- test, so it takes fuel, and `unfinished` is a loop that still runs. The client and the local socket
-- act on one world.
pub mod Pulling
pub mod Pushing
pub mod Turns
use book_filer_module_ssh.Prelude.{
  ℕ, zero, suc, ℤ, negsuc, is_negative, Bool, true, false, Option, none, some, length, take, ◌==◌,
}
use book_filer_module_ssh.Settings.{Bytes}
use book_filer_module_ssh.Flow.{M, unfinished, ◌>>=◌, ◌>>◌, pure, modify}
use book_filer_module_ssh.Platform.{Platform}
use book_filer_module_ssh.Client.Object.{Client, call}
use book_filer_module_ssh.Client.Session.{destroy as destroy_client}
use book_filer_module_ssh.Client.Channel.{read, send}

abbrev pub read_buffer_length : ℕ
read_buffer_length = 1500

-- The local socket of a connection, `srcSocket`: a read of at most so many bytes, or an error; and a
-- write of all the bytes, or `true` for an error; and its end.
pub record LocalSocket (World : Type 0) : Type 0 where
  pub read_some : ℕ → World → Option Bytes × World
  pub write : Bytes → World → Bool × World
  pub close : World → World

module _ (p : Platform) (socket : LocalSocket p.World) where
  open p use {World}

  -- The loop's body after `sshClient->read`; `again` is the rest of the loop.
  unfoldable pub write_local : M (Client World) ℤ → ℤ × Bytes × ℕ → M (Client World) ℤ
  write_local again (rc, bytes, len) = elim (len == 0) [
    | true ↦ again
    | false ↦ do
      ec ← call (socket.write (take len bytes))
      elim ec [ true ↦ pure (negsuc 0) | false ↦ again ]
  ]

  unfoldable pub run_pull : ℕ → M (Client World) ℤ
  run_pull zero = unfinished
  run_pull (suc fuel) = read p >>= write_local (run_pull fuel)

  -- The loop's body after `srcSocket.async_read_some`.
  unfoldable pub send_remote : M (Client World) ℤ → Option Bytes → M (Client World) ℤ
  send_remote again none = pure (negsuc 0)
  send_remote again (some bytes) = do
    rc ← send p bytes (length bytes)
    elim (is_negative rc) [ true ↦ pure (negsuc 0) | false ↦ again ]

  unfoldable pub run_push : ℕ → M (Client World) ℤ
  run_push zero = unfinished
  run_push (suc fuel) = call (socket.read_some read_buffer_length) >>= send_remote (run_push fuel)

  -- The destructor: the local socket is closed, and the client goes with the last pointer to it.
  unfoldable pub destroy : M (Client World) (Unit {0})
  destroy = do modify (λ c. record c { world = socket.close c.world }); destroy_client p
