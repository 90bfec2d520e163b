-- ===== src/Tunnel/Connection/Pushing.antt =====
-- How `runPush` ends.
use mathlib.Core.Path.{subst}
use book_filer_module_ssh.Prelude.{
  ℕ, zero, suc, ◌+◌, ◌^◌, ◌≤◌, ◌<◌, ℤ, pos, negsuc, Option, none, some, length, ◌≡◌, refl, sym,
  arith,
}
use book_filer_module_ssh.Settings.{Bytes}
use book_filer_module_ssh.Flow.{
  Result, returned, thrown, undefined, terminated, unfinished, M, >>=-returned,
}
use book_filer_module_ssh.Platform.{Platform}
use book_filer_module_ssh.Client.Object.{Client}
use book_filer_module_ssh.Client.Channel.{send}
use book_filer_module_ssh.Client.Channel.Writing.{WriteContract, send-rounds}
use book_filer_module_ssh.Tunnel.Connection.{LocalSocket, read_buffer_length, send_remote, run_push}

module _ (p : Platform) (socket : LocalSocket p.World) (contract : WriteContract p) where
  open p use {World}

  -- A read of the local socket gives no more than the buffer holds.
  abbrev pub ReadsFit : Type 0
  ReadsFit =
      (w : World) (bytes : Bytes)
      → (socket.read_some read_buffer_length w).0 ≡ some bytes
      → length bytes ≤ read_buffer_length

  -- So many rounds of `runPush`: each reads some bytes from the local socket, and sends them.
  pub data Pushes (c : Client World) : ℕ → Client World → Type 0 where
    none_yet : Pushes c 0 c
    one_more :
        {n : ℕ} {m d : Client World} (bytes : Bytes)
        → Pushes c n m
        → (socket.read_some read_buffer_length m.world).0 ≡ some bytes
        → send p bytes
            (length bytes)
            (record m { world = (socket.read_some read_buffer_length m.world).1 })
          ≡ returned (pos 0) d
        → Pushes c (suc n) d

  -- The coroutine runs as long as reads of the local socket give bytes, and returns at the first one
  -- that fails.
  abbrev pub PushOutcome : Client World → ℕ → Result (Client World) ℤ → Type 0
  PushOutcome c fuel (unfinished d) = Pushes c fuel d
  PushOutcome c fuel (returned rc d) =
      (rc ≡ negsuc 0)
      × ((n : ℕ) × (m : Client World) × (n < fuel)
          × Pushes c n m
          × ((socket.read_some read_buffer_length m.world).0 ≡ none)
          × (d ≡ record m { world = (socket.read_some read_buffer_length m.world).1 }))
  PushOutcome c fuel (thrown e d) = ⊥
  PushOutcome c fuel (undefined d) = ⊥
  PushOutcome c fuel (terminated d) = ⊥

  send_remote-again :
      (again : M (Client World) ℤ) (bytes : Bytes) (c d : Client World)
      → send p bytes (length bytes) c ≡ returned (pos 0) d
      → send_remote p socket again (some bytes) c ≡ again d
  unfolding send_remote
  send_remote-again again bytes c d run = >>=-returned (send p bytes (length bytes)) _ c run

  -- `total` rounds are those that have been made and those that the fuel is for.
  from-PushOutcome :
      ReadsFit
      → (c : Client World) (fuel n total : ℕ) (m : Client World) → Pushes c n m
      → n + fuel ≡ total
      → PushOutcome c total (run_push p socket fuel m)
  unfolding run_push send_remote
  from-PushOutcome fit c zero n total m done sum =
      let same : n ≡ total = omega arith in subst (λ k. Pushes c k m) same done
  from-PushOutcome fit c (suc fuel) n total m done sum =
      go (socket.read_some read_buffer_length m.world).0 refl
        (λ d more. from-PushOutcome fit c fuel (suc n) total d more (omega arith))
    where
      m' : Client World
      m' = record m { world = (socket.read_some read_buffer_length m.world).1 }

      go :
          (got : Option Bytes)
          → (socket.read_some read_buffer_length m.world).0 ≡ got
          → ((d : Client World)
              → Pushes c (suc n) d
              → PushOutcome c total (run_push p socket fuel d))
          → PushOutcome c total (
              send_remote p socket
                (run_push p socket fuel)
                got
                (record m { world = (socket.read_some read_buffer_length m.world).1 }))
      go none e later = (refl, (n, m, omega arith, done, e, refl))
      go (some bytes) e later =
          let small : length bytes < 2 ^ 31 = omega (arith, fit m.world bytes e) in
          let (ks, d, run, _, _, _) =
            send-rounds p contract bytes (length bytes) m' small (omega arith) in
          subst (PushOutcome c total)
            (sym (send_remote-again (run_push p socket fuel) bytes m' d run))
            (later d (one_more bytes done e run))

  -- Where the channel obeys the contract of libssh2_channel_write and a read of the local socket
  -- fits its buffer: with fuel for some number of rounds, `run_push` either still runs, and then it
  -- has made that many rounds, each of which read some bytes and sent them; or it has returned -1
  -- after fewer such rounds, right after a read of the local socket that failed. No failure of the
  -- channel ends it.
  pub run_push-PushOutcome :
      ReadsFit → (fuel : ℕ) (c : Client World) → PushOutcome c fuel (run_push p socket fuel c)
  run_push-PushOutcome fit fuel c = from-PushOutcome fit c fuel 0 fuel c none_yet (omega arith)
