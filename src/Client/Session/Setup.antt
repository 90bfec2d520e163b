-- ===== src/Client/Session/Setup.antt =====
-- What `connect` and `tunnel` of `ClientImpl` (src/core/Client.cpp) leave alone, and what they have
-- called when they return 0.
use book_filer_module_ssh.Prelude.{
  ℕ, ℤ, pos, Bool, true, Option, some, ◌≡◌, arith, Option-cases, inl, inr,
}
use book_filer_module_ssh.Settings.{Bytes}
use book_filer_module_ssh.Flow.{returned}
use book_filer_module_ssh.Platform.{Platform}
use book_filer_module_ssh.Client.Object.{Client}
use book_filer_module_ssh.Client.Channel.{c_str}
use book_filer_module_ssh.Client.Session.{
  connect_socket, create_ssh_session, start_thread, connect, tunnel,
}

-- Something in the world that the calls which make a session and its channel do not change.
pub record SetupContract (p : Platform) {A : Type 0} (view : p.World → A) : Type 0 where
  pub by_connect :
      (host : Bytes) (port : ℕ) (w : p.World) → view (p.socket_connect host port w).1 ≡ view w
  pub by_init : (w : p.World) → view (p.session_init w).1 ≡ view w
  pub by_blocking :
      (s : Option ℕ) (b : Bool) (w : p.World) → view (p.session_set_blocking s b w) ≡ view w
  pub by_handshake : (s : Option ℕ) (w : p.World) → view (p.session_handshake s w).1 ≡ view w
  pub by_password :
      (s : Option ℕ) (user password : Bytes) (w : p.World)
      → view (p.userauth_password s user password w).1 ≡ view w
  pub by_tunnel :
      (s : Option ℕ) (host : Bytes) (port : ℤ) (src : Bytes) (src_port : ℤ) (w : p.World)
      → view (p.channel_direct_tcpip_ex s host port src src_port w).1 ≡ view w

module _ (p : Platform) {A : Type 0} (view : p.World → A) (setup : SetupContract p view) where
  open p use {World}

  pub connect-view :
      (c d : Client World) (rc : ℤ)
      → connect p c ≡ returned rc d
      → (view d.world ≡ view c.world) × (d.client_state ≡ c.client_state)
  unfolding connect connect_socket create_ssh_session start_thread
  connect-view c d rc run = grind (
    arith, setup.by_connect, setup.by_init, setup.by_blocking, setup.by_handshake,
    setup.by_password,
  )

  pub tunnel-view :
      (c d : Client World) (rc : ℤ) → tunnel p c ≡ returned rc d → view d.world ≡ view c.world
  unfolding tunnel
  tunnel-view c d rc run = grind (arith, setup.by_tunnel)

module _ (p : Platform) where
  open p use {World, socket_connect, userauth_password, channel_direct_tcpip_ex}

  -- A client that is connected has reached its host and port, and given its user and password.
  pub connect-called :
      (c d : Client World) (port : ℕ)
      → c.client_state.port ≡ some port
      → connect p c ≡ returned (pos 0) d
      → ((socket_connect c.client_state.host_name port c.world).0 ≡ true)
        × ((w : World) × (userauth_password d.session
                (c_str c.client_state.user_name)
                (c_str c.client_state.password)
                w
              ≡ (pos 0, d.world)))
  unfolding connect connect_socket create_ssh_session start_thread
  connect-called c d port e run =
      let w₁ = (socket_connect c.client_state.host_name port c.world).1 in
      let (session, w₂) = p.session_init w₁ in
      let w₃ = p.session_set_blocking session true w₂ in
      let w₄ = (p.session_handshake session w₃).1 in (ground arith, (w₄, ground arith))

  -- A client whose tunnel is made has the channel that was opened for it.
  pub tunnel-called :
      (c d : Client World) (remote_port src_port : ℤ)
      → c.client_state.remote_port ≡ some remote_port
      → c.client_state.src_port ≡ some src_port
      → tunnel p c ≡ returned (pos 0) d
      → (channel : ℕ) × (d.command_channel ≡ some channel)
        × (channel_direct_tcpip_ex c.session
              (c_str c.client_state.remote_host_name)
              remote_port
              (c_str c.client_state.src_host_name)
              src_port
              c.world
            ≡ (some channel, d.world))
  unfolding tunnel
  tunnel-called c d remote_port src_port e f run = elim (Option-cases d.command_channel) [
    | inl missing ↦ absurd (ground arith)
    | inr (channel, made) ↦ (channel, made, ground arith)
  ]
