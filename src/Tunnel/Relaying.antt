-- ===== src/Tunnel/Relaying.antt =====
-- The parts of the tunnel together: from the map that configures the server
-- (src/core/TunnelServer.cpp) through the round of the listener that accepts a connection
-- (src/core/TunnelServerListener.cpp) and the session of its client (src/core/Client.cpp) to the
-- bytes that its coroutines carry (src/core/TunnelServerConnection.cpp).
use book_filer_module_ssh.Prelude.{
  ℕ, ◌+◌, ◌%◌, ◌^◌, ℤ, pos, to_u16, true, some, List, [], ◌∷◌, ◌++◌, ◌≡◌, refl, ◌∙◌, sym, ap, subst,
}
use mathlib.Core.Option.{some-injective}
use book_filer_module_ssh.Settings.{Bytes, Settings, int, string, lookup, IsMap}
use book_filer_module_ssh.Asio.{AddressApi, IsCanonical}
use book_filer_module_ssh.Flow.{returned}
use book_filer_module_ssh.Platform.{Platform}
use book_filer_module_ssh.Client.State.{ClientState, configure as configure_client}
use book_filer_module_ssh.Client.Object.{Client, new_client}
use book_filer_module_ssh.Client.Channel.{c_str}
use book_filer_module_ssh.Client.Channel.Writing.{WriteContract}
use book_filer_module_ssh.Client.Channel.Reading.{ReadContract}
use book_filer_module_ssh.Client.Session.{connect, tunnel}
use book_filer_module_ssh.Client.Session.Setup.{
  SetupContract, connect-view, tunnel-view, connect-called, tunnel-called,
}
use book_filer_module_ssh.Tunnel.State.{configure}
use book_filer_module_ssh.Tunnel.Listener.{Listener, client_settings, accepted_round}
use book_filer_module_ssh.Tunnel.Listener.Propagation.{client_of, client_settings-configure}
use book_filer_module_ssh.Tunnel.Listener.Round.{accepted_round_lem}
use book_filer_module_ssh.Tunnel.Connection.{LocalSocket}
use book_filer_module_ssh.Tunnel.Connection.Turns.{Turn, turns}
use book_filer_module_ssh.Tunnel.Connection.Turns.Contract.{
  Traffic, no_traffic, new_pair, DuplexContract, traffic as traffic_of, StaysFaithful,
  new_pair-IsFaithful,
}
use book_filer_module_ssh.Tunnel.Connection.Turns.Duplex.{turns-IsFaithful}

module _ (api : AddressApi) (p : Platform) (socket : LocalSocket p.World) (writes : WriteContract p)
    (reads : ReadContract p)
    (duplex : (channel : ℕ) → DuplexContract p socket writes (some channel)) where
  open api use {Address}
  open p use {World}

  abbrev pub traffic : ℕ → World → Traffic
  traffic channel = traffic_of p socket writes (some channel) (duplex channel)

  -- Where a map with distinct keys gives the tunnel all eight settings, each with the type that
  -- the code expects, and the source address is a canonical text; the listener of a server with
  -- this configuration makes a client from its settings, and the client's `connect` and `tunnel`
  -- return 0; reads and writes of the channel and of the local socket obey their contracts, move
  -- their own direction only, and the channel takes all that it is offered; and no bytes have
  -- moved before, nor do the calls that make the session and its channel move any: then the client
  -- has reached the configured host and port, with the configured user and password, and its
  -- channel was opened to the remote address and port from the source address and port; the round
  -- of the listener returns, with one more connection, which has the next id and this client; and
  -- every sequence of turns of the two coroutines on that client returns and carries the bytes of
  -- each direction in order: what the channel gave is what was written to the local socket and
  -- then the chunk being written, and what was typed is what was sent; once a failed write has
  -- ended `runPull`, what was written is a prefix of what the channel gave.
  pub accepted_relays :
      (m : Settings) (source dest remote user password : Bytes)
      (source_port dest_port remote_port : ℤ) (settings : Settings) (l : Listener Address World)
      (d e : Client World) (ts : List Turn)
      → IsMap m
      → IsCanonical api source
      → lookup "sourceAddress" m ≡ some (string source)
      → lookup "sourcePort" m ≡ some (int source_port)
      → lookup "destAddress" m ≡ some (string dest)
      → lookup "destPort" m ≡ some (int dest_port)
      → lookup "remoteAddress" m ≡ some (string remote)
      → lookup "remotePort" m ≡ some (int remote_port)
      → lookup "userName" m ≡ some (string user)
      → lookup "password" m ≡ some (string password)
      → l.server_state ≡ configure api m
      → client_settings api l.server_state ≡ some settings
      → connect p (new_client settings l.world) ≡ returned (pos 0) d
      → tunnel p d ≡ returned (pos 0) e
      → ((channel : ℕ) → SetupContract p (traffic channel))
      → ((channel : ℕ) → traffic channel l.world ≡ no_traffic)
      → (channel : ℕ) × (l' : Listener Address World) × ((p.socket_connect dest
            (to_u16 dest_port)
            l.world).0
          ≡ true)
        × ((w : World) × (p.userauth_password d.session (c_str user) (c_str password) w
              ≡ (pos 0, d.world)))
        × (p.channel_direct_tcpip_ex d.session
              (c_str remote)
              remote_port
              (c_str source)
              (pos (to_u16 source_port))
              d.world
            ≡ (some channel, e.world))
        × (accepted_round api p l ≡ returned tt l')
        × (l'.connection_list
            ≡ l.connection_list
              ++ record {
                conn_id = some ((l.connection_id_increment + 1) % 2 ^ 32);
                ssh_client = some e;
              }
                ∷ [])
        × StaysFaithful p socket writes
            (some channel)
            (duplex channel)
            (turns p socket ts (new_pair e))
  unfolding new_client
  accepted_relays m source dest remote user password a b c settings l d e ts u canon e₀ e₁ e₂ e₃ e₄
        e₅ e₆ e₇ served made run opened setup quiet =
      let state = client_of source dest remote user password a b c in
      let c₀ : Client World = new_client settings l.world in
      let (given, made', described) =
        client_settings-configure api m source dest remote user password a b c u canon e₀ e₁ e₂ e₃
          e₄ e₅ e₆ e₇ in
      let same : some settings ≡ some given = sym made ∙ ap (client_settings api) served ∙ made' in
      let configured : c₀.client_state ≡ state =
        ap configure_client (some-injective settings given same) ∙ described in
      let (reached, (w, allowed)) =
        connect-called p c₀ d (to_u16 b) (ap (λ (s : ClientState). s.port) configured) run in
      let kept : d.client_state ≡ state =
        (connect-view p (traffic 0) (setup 0) c₀ d (pos 0) run).1 ∙ configured in
      let (channel, has_channel, called) =
        tunnel-called p d e c (pos (to_u16 a)) (ap (λ (s : ClientState). s.remote_port) kept)
          (ap (λ (s : ClientState). s.src_port) kept) opened in
      let still : traffic channel e.world ≡ no_traffic =
        tunnel-view p (traffic channel) (setup channel) d e (pos 0) opened
        ∙ (connect-view p (traffic channel) (setup channel) c₀ d (pos 0) run).0
        ∙ quiet channel in
      (
        channel,
        _,
        subst (λ (s : ClientState). (p.socket_connect s.host_name (to_u16 b) l.world).0 ≡ true)
            configured reached,
        (
          w,
          subst
              (λ (s : ClientState).
                p.userauth_password d.session (c_str s.user_name) (c_str s.password) w
                ≡ (pos 0, d.world))
              configured allowed,
        ),
        subst
            (λ (s : ClientState).
              p.channel_direct_tcpip_ex d.session (c_str s.remote_host_name) c
                (c_str s.src_host_name) (pos (to_u16 a)) d.world
              ≡ (some channel, e.world))
            kept called,
        accepted_round_lem api p l settings made d e run opened,
        refl,
        turns-IsFaithful p socket writes reads (some channel) (duplex channel) ts (new_pair e) (
            new_pair-IsFaithful p socket writes (some channel) (duplex channel) e has_channel
              still),
      )
