-- ===== src/Tests/Many.antt =====
-- The connections of a tunnel side by side at concrete inputs: a world of numbered wires, of which
-- each channel and each local socket has its own.
use book_filer_module_ssh.Prelude.{
  ℕ, ℤ, magnitude, modulo, suc, pos, negsuc, true, Option, none, some, [], ◌∷◌, ◌≡◌, ◌≢◌, refl,
  arith, update,
}
use book_filer_module_ssh.Settings.{Settings, int, for_each}
use book_filer_module_ssh.Client.State.{configure, set_entry, new_client_state}
use book_filer_module_ssh.Client.Session.{
  connect, connect_socket, create_ssh_session, start_thread, tunnel,
}
use book_filer_module_ssh.Client.Session.Setup.{SetupContract}
use book_filer_module_ssh.Platform.{Platform}
use book_filer_module_ssh.Client.Object.{Client, new_client}
use book_filer_module_ssh.Client.Channel.Writing.{WriteContract}
use book_filer_module_ssh.Client.Channel.Reading.{ReadContract}
use book_filer_module_ssh.Tunnel.Connection.{LocalSocket}
use book_filer_module_ssh.Tunnel.Connection.Turns.{pull_turn}
use book_filer_module_ssh.Tunnel.Connection.Turns.Contract.{DuplexContract, new_pair}
use book_filer_module_ssh.Tunnel.Connection.Turns.Apart.{IsApart}
use book_filer_module_ssh.Tunnel.Connection.Turns.Many.{
  Connections, leave, turn_of, AreFaithful, StayFaithful, traffic_of,
}
use book_filer_module_ssh.Tunnel.Serving.{no_connections, Steps, here, opened, serving-AreFaithful}
use book_filer_module_ssh.Tests.World.{Wires, wide, wide_writes, wide_reads, socket, duplex}

update-same : (w : ℕ → Wires) (n : ℕ) (x : Wires) → update w n x n ≡ x
update-same w n x = ground arith

update-other : (w : ℕ → Wires) (n m : ℕ) (x : Wires) → n ≢ m → update w n x m ≡ w m
update-other w n m x other = ground (arith, other)

-- The wires of a channel.
abbrev index : Option ℕ → ℕ
index none = 0
index (some h) = suc h

abbrev wired : Platform
wired = record {
  World = ℕ → Wires;
  error_eagain = negsuc 36;
  session_init = λ w. (some 1, w);
  session_set_blocking = λ s b w. w;
  session_handshake = λ s w. (pos 0, w);
  userauth_password = λ s user password w. (pos 0, w);
  session_last_error = λ s w. (negsuc 36, w);
  session_disconnect = λ s w. w;
  session_free = λ s w. w;
  channel_open_session = λ s w. (some 2, w);
  channel_direct_tcpip_ex = λ s host port src src_port w. (some (magnitude port), w);
  channel_exec = λ c text w. (pos 0, w);
  channel_write = λ c bytes n w.
      let (rc, x) = wide.channel_write c bytes n (w (index c)) in (rc, update w (index c) x);
  channel_read = λ c n w.
      let (rc, buffer, x) = wide.channel_read c n (w (index c)) in
      (rc, buffer, update w (index c) x);
  channel_close = λ c w. (pos 0, w);
  channel_get_exit_status = λ c w. (pos 0, w);
  channel_get_exit_signal = λ c w. (none, w);
  channel_free = λ c w. w;
  channel_forward_listen_ex = λ s host port queue w. (some 4, none, w);
  channel_forward_accept = λ l w. (some 5, w);
  channel_forward_cancel = λ l w. w;
  socket_connect = λ host port w. (true, w);
  socket_is_open = λ w. true;
  socket_shutdown = λ w. w;
  socket_close = λ w. w;
}

abbrev sockets : ℕ → LocalSocket (ℕ → Wires)
sockets i = record {
  read_some = λ n w. let (got, x) = socket.read_some n (w (suc i)) in (got, update w (suc i) x);
  close = λ w. w;
  write = λ bytes w. let (ec, x) = socket.write bytes (w (suc i)) in (ec, update w (suc i) x);
}

abbrev wired_writes : WriteContract wired
wired_writes = record {
  sent = λ c w. (w (index c)).outgoing;
  writes = λ c bytes n w.
      rw (update-same w (index c) (wide.channel_write c bytes n (w (index c))).1)
        (wide_writes.writes c bytes n (w (index c)));
}

abbrev wired_reads : ReadContract wired
wired_reads = record { reads = λ c n w. wide_reads.reads c n (w (index c)) }

abbrev wired_duplex : (i : ℕ) → DuplexContract wired (sockets i) wired_writes (some i)
wired_duplex i = record {
  received = λ w. (w (suc i)).received;
  written = λ w. (w (suc i)).local_out;
  typed = λ w. (w (suc i)).typed;
  channel_reading = λ n w.
      rw (update-same w (suc i) (wide.channel_read none n (w (suc i))).2)
        ((duplex none).channel_reading n (w (suc i)));
  channel_writing = λ bytes n w.
      rw (update-same w (suc i) (wide.channel_write none bytes n (w (suc i))).1)
        ((duplex none).channel_writing bytes n (w (suc i)));
  socket_writing = λ bytes w.
      rw (update-same w (suc i) (socket.write bytes (w (suc i))).1)
        ((duplex none).socket_writing bytes (w (suc i)));
  socket_reading = λ w.
      rw (update-same w (suc i) (socket.read_some 1500 (w (suc i))).1)
        ((duplex none).socket_reading (w (suc i)));
}

wired-IsApart :
    (i j : ℕ)
    → i ≢ j
    → IsApart wired
        (sockets i)
        (some i)
        (traffic_of wired sockets wired_writes wired_reads wired_duplex j)
wired-IsApart i j other =
    let apart : suc i ≢ suc j = omega (arith, other) in
    record {
      from_channel_read = λ n w.
          rw (update-other w (suc i) (suc j) (wide.channel_read none n (w (suc i))).2 apart) refl;
      from_channel_write = λ bytes n w.
          rw (update-other w (suc i) (suc j) (wide.channel_write none bytes n (w (suc i))).1 apart)
            refl;
      from_socket_write = λ bytes w.
          rw (update-other w (suc i) (suc j) (socket.write bytes (w (suc i))).1 apart) refl;
      from_socket_read =
          λ w. rw (update-other w (suc i) (suc j) (socket.read_some 1500 (w (suc i))).1 apart) refl;
    }

abbrev wires : Wires
wires = record {
  incoming = 1 ∷ 2 ∷ [];
  received = [];
  outgoing = [];
  window = 3;
  local_in = 5 ∷ 6 ∷ [];
  typed = [];
  local_out = [];
  freed = [];
}

abbrev settings : ℤ → Settings
settings remote_port =
    ("port", int (pos 22)) ∷ ("remotePort", int remote_port) ∷ ("srcPort", int (pos 81)) ∷ []

-- The client of a connection to a remote port, which is the number of its channel here.
abbrev tunnelled : ℕ → (ℕ → Wires) → Client (ℕ → Wires)
tunnelled remote_port w = record (new_client (settings (pos remote_port)) w) {
  session = some 1;
  thread_io = true;
  command_channel = some remote_port;
}

abbrev wired-setup :
    (i : ℕ) → SetupContract wired (traffic_of wired sockets wired_writes wired_reads wired_duplex i)
wired-setup i = record {
  by_connect = λ host port w. refl;
  by_init = λ w. refl;
  by_blocking = λ s b w. refl;
  by_handshake = λ s w. refl;
  by_password = λ s user password w. refl;
  by_tunnel = λ s host port src src_port w. refl;
}

abbrev start : ℕ → Wires
start n = wires

abbrev one_open : Connections (ℕ → Wires)
one_open = leave 80 (no_connections start) (new_pair (tunnelled 80 start))

abbrev two_open : Connections (ℕ → Wires)
two_open = leave 90 one_open (new_pair (tunnelled 90 start))

-- Two connections are opened, one after the other.
to_two_open :
    Steps wired sockets wired_writes wired_reads wired_duplex (no_connections start) two_open
unfolding new_client configure for_each set_entry new_client_state modulo connect connect_socket
    create_ssh_session start_thread tunnel
to_two_open =
    opened {s' = one_open} (settings (pos 90))
      (record (tunnelled 90 start) { command_channel = none }) (tunnelled 90 start) 90
      (opened {s' = no_connections start} (settings (pos 80))
        (record (tunnelled 80 start) { command_channel = none }) (tunnelled 80 start) 80 here refl
        refl refl refl)
      refl refl refl refl

serving-AreFaithful_example :
    AreFaithful wired sockets wired_writes wired_reads wired_duplex two_open
    × StayFaithful wired sockets wired_writes wired_reads wired_duplex
        (turn_of wired sockets 80 pull_turn two_open)
serving-AreFaithful_example =
    serving-AreFaithful wired sockets wired_writes wired_reads wired_duplex wired-IsApart
      wired-setup start 80 pull_turn to_two_open
