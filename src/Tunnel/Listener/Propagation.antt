-- ===== src/Tunnel/Listener/Propagation.antt =====
-- From the map that configures a tunnel server to the client of one of its connections.
use book_filer_module_ssh.Prelude.{ℕ, ℤ, pos, to_u16, none, some, ◌≡◌, refl, ◌∙◌, arith}
use book_filer_module_ssh.Settings.{Bytes, Settings, int, string, lookup, for_each, IsMap}
use book_filer_module_ssh.Asio.{AddressApi, IsCanonical}
use book_filer_module_ssh.Client.State.{
  ClientState, new_client_state, set_entry, configure as configure_client,
}
use book_filer_module_ssh.Tunnel.State.{ServerState, configure}
use book_filer_module_ssh.Tunnel.Configure.{tunnel_configure-described}
use book_filer_module_ssh.Tunnel.Listener.{settings_with, client_settings}

-- The client that a server state describes.
abbrev pub client_of : Bytes → Bytes → Bytes → Bytes → Bytes → ℤ → ℤ → ℤ → ClientState
client_of source dest remote user password source_port dest_port remote_port = record {
  port = some (to_u16 dest_port);
  src_port = some (pos (to_u16 source_port));
  remote_port = some remote_port;
  remote_bound_port = none;
  host_name = dest;
  user_name = user;
  password = password;
  remote_host_name = remote;
  src_host_name = source;
}

module _ (api : AddressApi) where
  client_settings_lem :
      (s : ServerState api.Address) (a : ℕ) (b c : ℤ)
      → s.source_port ≡ some a
      → s.dest_port_int ≡ some b
      → s.remote_port_int ≡ some c
      → client_settings api s ≡ some (settings_with api a b c s)
  unfolding client_settings
  client_settings_lem s a b c e f g = ground arith

  configure-settings_with :
      (s : ServerState api.Address) (a : ℕ) (b c : ℤ)
      → configure_client (settings_with api a b c s) ≡ record {
        port = some (to_u16 b);
        src_port = some (pos a);
        remote_port = some c;
        remote_bound_port = none;
        host_name = s.dest_address_str;
        user_name = s.user_name_str;
        password = s.password_str;
        remote_host_name = s.remote_address_str;
        src_host_name = api.to_string s.source_address;
      }
  unfolding settings_with configure_client for_each set_entry new_client_state
  configure-settings_with s a b c = refl

  -- Where a map with distinct keys gives the tunnel all eight settings, each with the type that
  -- the code expects, and the source address is a canonical text, the listener can make the
  -- settings of a client, and a client configured with them has the destination as its host and
  -- port, the remote address and port, the source address and port, the user name and the
  -- password, each in its own field, with the host port and the source port taken modulo 2 ^ 16.
  pub client_settings-configure :
      (m : Settings) (source dest remote user password : Bytes)
      (source_port dest_port remote_port : ℤ)
      → IsMap m
      → IsCanonical api source
      → lookup "sourceAddress" m ≡ some (string source)
      → lookup "sourcePort" m ≡ some (int source_port)
      → lookup "destAddress" m ≡ some (string dest)
      → lookup "destPort" m ≡ some (int dest_port)
      → lookup "remoteAddress" m ≡ some (string remote)
      → lookup "remotePort" m ≡ some (int remote_port)
      → lookup "userName" m ≡ some (string user)
      → lookup "password" m ≡ some (string password)
      → (settings : Settings) × (client_settings api (configure api m) ≡ some settings)
        × (configure_client settings
            ≡ client_of source dest remote user password source_port dest_port remote_port)
  client_settings-configure m source dest remote user password a b c u canon e₀ e₁ e₂ e₃ e₄ e₅ e₆
        e₇ =
      let s = configure api m in
      let d = tunnel_configure-described api m u in
      (
        settings_with api (to_u16 a) b c s,
        client_settings_lem s (to_u16 a) b c (ground (arith, d)) (ground (arith, d))
            (ground (arith, d)),
        configure-settings_with s (to_u16 a) b c ∙ (ground (arith, d)),
      )
