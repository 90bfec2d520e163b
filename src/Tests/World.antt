-- ===== src/Tests/World.antt =====
-- A small platform: one channel, of which a write takes so many bytes at most, and one local socket.
use Prim.Native.Nat.{min}
use book_filer_module_ssh.Prelude.{
  ℕ, ℤ, pos, negsuc, eq_int, true, false, Option, none, some, List, [], ◌∷◌, ◌++◌, take, drop,
  length, length-take, take_of_length-le, append-nil, ◌≤◌, ◌≡◌, refl, ap, sym, ◌⊎◌, inl, inr, arith,
  if◌then◌else◌,
}
use book_filer_module_ssh.Settings.{Bytes}
use book_filer_module_ssh.Asio.{AddressApi}
use book_filer_module_ssh.Platform.{Platform}
use book_filer_module_ssh.Client.Channel.Writing.{WriteContract}
use book_filer_module_ssh.Client.Channel.Reading.{ReadContract}
use book_filer_module_ssh.Client.Session.Release.{
  Handle, channel, listener, session, held, FreeContract,
}
use book_filer_module_ssh.Tunnel.Connection.{LocalSocket}
use book_filer_module_ssh.Tunnel.Connection.Turns.Contract.{DuplexContract}
use book_filer_module_ssh.Tunnel.Connection.Pulling.{Ledger}

pub record Wires : Type 0 where
  pub incoming : Bytes
  pub received : Bytes
  pub outgoing : Bytes
  pub window : ℕ
  pub local_in : Bytes
  pub typed : Bytes
  pub local_out : Bytes
  pub freed : List Handle

-- Any address is its own text.
abbrev pub texts : AddressApi
texts = record {
  Address = Bytes;
  unspecified = [];
  from_string = λ t. (t, false);
  to_string = λ t. t;
}

abbrev login : Bytes → ℤ
login [] = negsuc 17
login (b ∷ bs) = pos 0

-- A password is needed, and port 0 is refused.
abbrev pub platform : Platform
platform = record {
  World = Wires;
  error_eagain = negsuc 36;
  session_init = λ w. (some 1, w);
  session_set_blocking = λ s b w. w;
  session_handshake = λ s w. (pos 0, w);
  userauth_password = λ s user password w. (login password, w);
  session_last_error = λ s w. (negsuc 36, w);
  session_disconnect = λ s w. w;
  session_free = λ s w. record w { freed = w.freed ++ held session s };
  channel_open_session = λ s w. (some 2, w);
  channel_direct_tcpip_ex =
      λ s host port src src_port w. ((if eq_int port (pos 0) then none else some 3), w);
  channel_exec = λ c text w. (pos 0, w);
  channel_write = λ c bytes n w.
      (pos (min n w.window), record w { outgoing = w.outgoing ++ take (min n w.window) bytes });
  channel_read = λ c n w. (
    pos (length (take n w.incoming)),
    take n w.incoming,
    record w { incoming = drop n w.incoming; received = w.received ++ take n w.incoming },
  );
  channel_close = λ c w. (pos 0, w);
  channel_get_exit_status = λ c w. (pos 0, w);
  channel_get_exit_signal = λ c w. (none, w);
  channel_free = λ c w. record w { freed = w.freed ++ held channel c };
  channel_forward_listen_ex = λ s host port queue w. (some 4, none, w);
  channel_forward_accept = λ l w. (some 5, w);
  channel_forward_cancel = λ l w. record w { freed = w.freed ++ held listener l };
  socket_connect = λ host port w. (true, w);
  socket_is_open = λ w. true;
  socket_shutdown = λ w. w;
  socket_close = λ w. w;
}

abbrev pub write_contract : WriteContract platform
write_contract = record {
  sent = λ c w. w.outgoing;
  writes = λ c bytes n w. inl (min n w.window, refl, omega arith, refl);
}

abbrev pub read_contract : ReadContract platform
read_contract = record {
  reads = λ c n w.
      inl (length (take n w.incoming), refl, omega (arith, length-take n w.incoming), omega arith);
}

abbrev pub local_read : Bytes → ℕ → Option Bytes
local_read [] n = none
local_read (b ∷ bs) n = some (take n (b ∷ bs))

-- What such a read takes.
abbrev pub fresh : ℕ → Bytes → Bytes
fresh n [] = []
fresh n (b ∷ bs) = take n (b ∷ bs)

-- A read at the end fails, and no write does.
abbrev pub socket : LocalSocket Wires
socket = record {
  read_some = λ n w. (
    local_read w.local_in n,
    record w { local_in = drop n w.local_in; typed = w.typed ++ fresh n w.local_in },
  );
  close = λ w. w;
  write = λ bytes w. (false, record w { local_out = w.local_out ++ bytes });
}

abbrev pub ledger : Ledger platform socket read_contract
ledger = record {
  received = λ w. w.received;
  written = λ w. w.local_out;
  reading = λ c n w. (
    ap (λ bs. w.received ++ bs)
        (sym (take_of_length-le (length (take n w.incoming)) (take n w.incoming) (omega arith))),
    refl,
  );
  writing = λ bytes w. (refl, inl (refl, refl));
}

abbrev pub free_contract : FreeContract platform
free_contract = record {
  freed = λ w. w.freed;
  frees_channel = λ h w. refl;
  frees_listener = λ h w. refl;
  frees_session = λ h w. refl;
  keeps_blocking = λ h b w. refl;
  keeps_disconnect = λ h w. refl;
  keeps_shutdown = λ w. refl;
  keeps_close = λ w. refl;
}

-- The platform whose channel takes all that it is offered.
abbrev pub wide : Platform
wide = record platform {
  channel_write = λ c bytes n w. (pos n, record w { outgoing = w.outgoing ++ take n bytes });
}

abbrev pub wide_writes : WriteContract wide
wide_writes = record {
  sent = λ c w. w.outgoing;
  writes = λ c bytes n w. inl (n, refl, omega arith, refl);
}

abbrev pub wide_reads : ReadContract wide
wide_reads = record { reads = read_contract.reads }

pub fresh-typed :
    (n : ℕ) (xs typed : Bytes)
    → ((local_read xs n ≡ none) × (typed ++ fresh n xs ≡ typed))
      ⊎ ((bytes : Bytes) × (local_read xs n ≡ some bytes)
          × (length bytes ≤ n)
          × (typed ++ fresh n xs ≡ typed ++ bytes))
fresh-typed n [] typed = inl (refl, append-nil typed)
fresh-typed n (x ∷ xs) typed =
    inr (take n (x ∷ xs), refl, omega (arith, length-take n (x ∷ xs)), refl)

abbrev pub duplex : (handle : Option ℕ) → DuplexContract wide socket wide_writes handle
duplex handle = record {
  received = λ w. w.received;
  written = λ w. w.local_out;
  typed = λ w. w.typed;
  channel_reading = λ n w. (
    ap (λ bs. w.received ++ bs)
        (sym (take_of_length-le (length (take n w.incoming)) (take n w.incoming) (omega arith))),
    refl,
    refl,
    refl,
  );
  channel_writing = λ bytes n w. (refl, refl, refl, refl);
  socket_writing = λ bytes w. (inl (refl, refl), refl, refl, refl);
  socket_reading = λ w. (fresh-typed 1500 w.local_in w.typed, refl, refl, refl);
}
