-- ===== src/Platform.antt =====
-- What src/core/Client.cpp calls: libssh2, and the socket of Boost.Asio that it connects. Both act on
-- a world that the model knows only through them. A handle (a pointer to a session, a channel or a
-- listener) is a number, and a null pointer is `none`.
use book_filer_module_ssh.Prelude.{ℕ, ℤ, Bool, Option}
use book_filer_module_ssh.Settings.{Bytes}

pub record Platform : Type 1 where
  pub World : Type 0
  -- LIBSSH2_ERROR_EAGAIN.
  pub error_eagain : ℤ
  pub session_init : World → Option ℕ × World
  pub session_set_blocking : Option ℕ → Bool → World → World
  pub session_handshake : Option ℕ → World → ℤ × World
  pub userauth_password : Option ℕ → Bytes → Bytes → World → ℤ × World
  pub session_last_error : Option ℕ → World → ℤ × World
  pub session_disconnect : Option ℕ → World → World
  pub session_free : Option ℕ → World → World
  pub channel_open_session : Option ℕ → World → Option ℕ × World
  -- Session, host, port, source host, source port.
  pub channel_direct_tcpip_ex : Option ℕ → Bytes → ℤ → Bytes → ℤ → World → Option ℕ × World
  pub channel_exec : Option ℕ → Bytes → World → ℤ × World
  -- Channel, data, length: the return value of type `ssize_t`.
  pub channel_write : Option ℕ → Bytes → ℕ → World → ℤ × World
  -- Channel, size of the buffer: the return value of type `ssize_t`, and the buffer's contents.
  pub channel_read : Option ℕ → ℕ → World → ℤ × Bytes × World
  pub channel_close : Option ℕ → World → ℤ × World
  pub channel_get_exit_status : Option ℕ → World → ℤ × World
  pub channel_get_exit_signal : Option ℕ → World → Option Bytes × World
  pub channel_free : Option ℕ → World → World
  -- Session, host, port, queue length: the listener, and what was written to the bound port.
  pub channel_forward_listen_ex : Option ℕ → Bytes → ℤ → ℕ → World → Option ℕ × Option ℤ × World
  pub channel_forward_accept : Option ℕ → World → Option ℕ × World
  pub channel_forward_cancel : Option ℕ → World → World
  -- Resolve a host and a port and connect the socket; `false` when one of them throws.
  pub socket_connect : Bytes → ℕ → World → Bool × World
  pub socket_is_open : World → Bool
  pub socket_shutdown : World → World
  pub socket_close : World → World
