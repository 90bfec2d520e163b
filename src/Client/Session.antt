-- ===== src/Client/Session.antt =====
-- The methods of `ClientImpl` (src/core/Client.cpp) that make and end a session: `connect`, `tunnel`
-- and the destructor.
pub mod Outcomes
pub mod Release
pub mod Setup
use book_filer_module_ssh.Prelude.{
  ℤ, pos, negsuc, is_nonzero, true, false, none, some, if◌then◌else◌,
}
use book_filer_module_ssh.Flow.{
  M, terminated, returned, ◌>>=◌, ◌>>◌, pure, throw, get, modify, assigned, unless,
  creating_session, system_error,
}
use book_filer_module_ssh.Platform.{Platform}
use book_filer_module_ssh.Client.Object.{Client, call, act}
use book_filer_module_ssh.Client.Channel.{c_str}

module _ (p : Platform) where
  open p use {
    World, session_init, session_set_blocking, session_handshake, userauth_password,
    session_disconnect, session_free, channel_direct_tcpip_ex, channel_free, channel_forward_cancel,
    socket_connect, socket_is_open, socket_shutdown, socket_close,
  }

  unfoldable pub connect_socket : M (Client World) (Unit {0})
  connect_socket = do
    c ← get
    port ← assigned c.client_state.port
    connected ← call (socket_connect c.client_state.host_name port)
    unless connected system_error

  unfoldable pub create_ssh_session : M (Client World) (Unit {0})
  create_ssh_session = do
    session ← call session_init
    modify (λ c. record c { session = session })
    elim session [
      | none ↦ throw creating_session
      | some handle ↦ act (session_set_blocking (some handle) true)
    ]

  -- Assigning a new thread to `threadIo` destroys the old one, which nobody has joined.
  unfoldable pub start_thread : M (Client World) (Unit {0})
  start_thread c = elim c.thread_io [
    | true ↦ terminated c
    | false ↦ returned tt (record c { thread_io = true })
  ]

  unfoldable pub connect : M (Client World) ℤ
  connect = do
    connect_socket
    create_ssh_session
    c ← get
    rc ← call (session_handshake c.session)
    elim (is_nonzero rc) [
      | true ↦ pure (negsuc 0)
      | false ↦ do
        start_thread
        rc ← call (
            userauth_password c.session (c_str c.client_state.user_name)
              (c_str c.client_state.password))
        pure (if is_nonzero rc then negsuc 0 else pos 0)
    ]

  unfoldable pub tunnel : M (Client World) ℤ
  tunnel = do
    c ← get
    remote_port ← assigned c.client_state.remote_port
    src_port ← assigned c.client_state.src_port
    channel ← call (
        channel_direct_tcpip_ex c.session (c_str c.client_state.remote_host_name) remote_port
          (c_str c.client_state.src_host_name) src_port)
    modify (λ c. record c { command_channel = channel })
    elim channel [ none ↦ pure (negsuc 0) | some _ ↦ pure (pos 0) ]

  unfoldable pub release_channels : M (Client World) (Unit {0})
  release_channels = do
    c ← get
    elim c.command_channel [
      | none ↦ pure tt
      | some _ ↦ do
        act (channel_free c.command_channel)
        modify (λ c. record c { command_channel = none })
    ]
    elim c.listen_channel [
      | none ↦ pure tt
      | some _ ↦ do
        act (channel_free c.listen_channel)
        modify (λ c. record c { listen_channel = none })
    ]
    elim c.listener [
      | none ↦ pure tt
      | some _ ↦ do
        act (channel_forward_cancel c.listener)
        modify (λ c. record c { listener = none })
    ]

  unfoldable pub release_session : M (Client World) (Unit {0})
  release_session = do
    c ← get
    elim c.session [
      | none ↦ pure tt
      | some _ ↦ do
        act (session_set_blocking c.session true)
        act (session_disconnect c.session)
        act (session_free c.session)
        modify (λ c. record c { session = none })
    ]

  unfoldable pub close_socket : M (Client World) (Unit {0})
  close_socket = do
    c ← get
    if socket_is_open c.world then (act socket_shutdown >> act socket_close) else pure tt

  -- The destructor's body, and then the members': to destroy a thread that was never joined is a
  -- call of `std::terminate`.
  unfoldable pub destroy : M (Client World) (Unit {0})
  destroy = do
    release_channels
    release_session
    close_socket
    (λ c. if c.thread_io then terminated c else returned tt c)
