-- ===== src/Tunnel/Serving.antt =====
-- All connections of a tunnel, from the rounds of the listener that open them
-- (src/core/TunnelServerListener.cpp) to the turns of their coroutines
-- (src/core/TunnelServerConnection.cpp), in any order.
use book_filer_module_ssh.Prelude.{ℕ, pos, none, some, ◌≡◌, ◌≢◌, ◌∙◌, subst}
use book_filer_module_ssh.Settings.{Settings}
use book_filer_module_ssh.Flow.{returned}
use book_filer_module_ssh.Platform.{Platform}
use book_filer_module_ssh.Client.Object.{Client, new_client}
use book_filer_module_ssh.Client.Channel.Writing.{WriteContract}
use book_filer_module_ssh.Client.Channel.Reading.{ReadContract}
use book_filer_module_ssh.Client.Session.{connect, tunnel}
use book_filer_module_ssh.Client.Session.Setup.{SetupContract, connect-view, tunnel-view}
use book_filer_module_ssh.Tunnel.Connection.{LocalSocket}
use book_filer_module_ssh.Tunnel.Connection.Turns.{Turn}
use book_filer_module_ssh.Tunnel.Connection.Turns.Contract.{
  no_traffic, new_pair, DuplexContract, new_pair-IsFaithful,
}
use book_filer_module_ssh.Tunnel.Connection.Turns.Apart.{IsApart}
use book_filer_module_ssh.Tunnel.Connection.Turns.Many.{
  Connections, leave, turn_of, traffic_of, AreFaithful, StayFaithful, leave-AreFaithful,
  turn_of-StayFaithful,
}

-- Before the first connection.
abbrev pub no_connections : {World : Type 0} → World → Connections World
no_connections w = record { world = w; pairs = λ i. none }

module _ (p : Platform) (sockets : ℕ → LocalSocket p.World) (writes : WriteContract p)
    (reads : ReadContract p) (duplex : (i : ℕ) → DuplexContract p (sockets i) writes (some i)) where
  open p use {World}

  -- What can happen, one thing after the other.
  pub data Steps (s : Connections World) : Connections World → Type 0 where
    here : Steps s s
    -- The round of the listener that makes a client from some settings, of which `connect` and
    -- `tunnel` return 0 with a channel that no other connection has and nothing has gone through.
    opened :
        {s' : Connections World} (settings : Settings) (d e : Client World) (channel : ℕ)
        → Steps s s'
        → connect p (new_client settings s'.world) ≡ returned (pos 0) d
        → tunnel p d ≡ returned (pos 0) e
        → e.command_channel ≡ some channel
        → traffic_of p sockets writes reads duplex channel s'.world ≡ no_traffic
        → Steps s (leave channel s' (new_pair e))
    -- A turn of a coroutine of the connection with the channel.
    turned :
        {s' s'' : Connections World} (channel : ℕ) (t : Turn)
        → Steps s s'
        → turn_of p sockets channel t s' ≡ returned tt s''
        → Steps s s''

  module _
      (apart : (i j : ℕ)
        → i ≢ j
        → IsApart p (sockets i) (some i) (traffic_of p sockets writes reads duplex j))
      (setup : (i : ℕ) → SetupContract p (traffic_of p sockets writes reads duplex i)) where
    opened-AreFaithful :
        (settings : Settings) (d e : Client World) (channel : ℕ) (s : Connections World)
        → connect p (new_client settings s.world) ≡ returned (pos 0) d
        → tunnel p d ≡ returned (pos 0) e
        → e.command_channel ≡ some channel
        → traffic_of p sockets writes reads duplex channel s.world ≡ no_traffic
        → AreFaithful p sockets writes reads duplex s
        → AreFaithful p sockets writes reads duplex (leave channel s (new_pair e))
    unfolding new_client
    opened-AreFaithful settings d e channel s run made has_channel quiet all =
        let view = traffic_of p sockets writes reads duplex in
        let c₀ : Client World = new_client settings s.world in
        let still : (i : ℕ) → view i e.world ≡ view i s.world = λ i.
          tunnel-view p (view i) (setup i) d e (pos 0) made
          ∙ (connect-view p (view i) (setup i) c₀ d (pos 0) run).0 in
        leave-AreFaithful p sockets writes reads duplex channel s (new_pair e) all
          (new_pair-IsFaithful p (sockets channel) writes (some channel) (duplex channel) e
            has_channel (still channel ∙ quiet))
          (λ j other. still j)

    Steps-AreFaithful :
        {s s' : Connections World}
        → AreFaithful p sockets writes reads duplex s
        → Steps s s'
        → AreFaithful p sockets writes reads duplex s'
    Steps-AreFaithful all here = all
    Steps-AreFaithful all (opened {s'} settings d e channel earlier run made has_channel quiet) =
        opened-AreFaithful settings d e channel s' run made has_channel quiet
          (Steps-AreFaithful all earlier)
    Steps-AreFaithful all (turned {s'} channel t earlier e) =
        subst (StayFaithful p sockets writes reads duplex) e (
          turn_of-StayFaithful p sockets writes reads duplex apart channel t s'
            (Steps-AreFaithful all earlier))

    -- Where each channel and its local socket have reads and writes that obey their contracts and
    -- move their own direction only, each channel takes all that it is offered, and neither the
    -- operations on one channel and its socket nor the calls that make a session and its channel
    -- change the traffic of another: after any sequence of rounds of the listener that open a
    -- connection, whose channel has no traffic yet, and of turns of the coroutines of the open
    -- connections, in any order, each connection has its own bytes only and in order: what its
    -- channel gave is what was written to its local socket and then the chunk that is being
    -- written, if one is, and what was typed at that socket is what was sent into that channel;
    -- once a failed write has ended its `runPull`, what was written is a prefix of what the channel
    -- gave. And the next turn of any connection returns, and keeps this.
    pub serving-AreFaithful :
        {s : Connections World} (w : World) (channel : ℕ) (t : Turn)
        → Steps (no_connections w) s
        → AreFaithful p sockets writes reads duplex s
          × StayFaithful p sockets writes reads duplex (turn_of p sockets channel t s)
    serving-AreFaithful {s} w channel t steps =
        let all = Steps-AreFaithful {s = no_connections w} (λ i q e. cc) steps in
        (all, turn_of-StayFaithful p sockets writes reads duplex apart channel t s all)
