-- ===== src/Tunnel/Server/Running.antt =====
-- What the `run` of a tunnel server reads.
use book_filer_module_ssh.Prelude.{ℕ, ℤ, none, ◌≡◌, refl, arith}
use book_filer_module_ssh.Settings.{Settings, IsMap}
use book_filer_module_ssh.Asio.{AddressApi}
use book_filer_module_ssh.Flow.{Result, returned, thrown, undefined, terminated, unfinished}
use book_filer_module_ssh.Tunnel.Configure.{tunnel_configure-described}
use book_filer_module_ssh.Tunnel.Server.{Server, new_server, run}

-- A member was read that was never assigned, before a thread or a listener was started.
abbrev pub ReadsUnassigned :
    {Address : Type 0} → Server Address → Result (Server Address) ℤ → Type 0
ReadsUnassigned s (undefined t) = (t.threads ≡ s.threads) × (t.listeners ≡ s.listeners)
ReadsUnassigned s (returned rc t) = ⊥
ReadsUnassigned s (thrown e t) = ⊥
ReadsUnassigned s (terminated t) = ⊥
ReadsUnassigned s (unfinished t) = ⊥

pub run-without-dest_port :
    {Address : Type 0} (n : ℕ) (s : Server Address)
    → s.server_state.dest_port ≡ none
    → ReadsUnassigned s (run n s)
unfolding run
run-without-dest_port n s e = ground arith

-- The server at such a read.
pub ReadsUnassigned-undefined :
    {Address : Type 0} (s : Server Address) (r : Result (Server Address) ℤ)
    → ReadsUnassigned s r
    → (t : Server Address) × (r ≡ undefined t)
      × (t.threads ≡ s.threads)
      × (t.listeners ≡ s.listeners)
ReadsUnassigned-undefined s (undefined t) h = (t, refl, h.0, h.1)
ReadsUnassigned-undefined s (returned rc t) h = absurd h
ReadsUnassigned-undefined s (thrown e t) h = absurd h
ReadsUnassigned-undefined s (terminated t) h = absurd h
ReadsUnassigned-undefined s (unfinished t) h = absurd h

module _ (api : AddressApi) where
  -- For every map with distinct keys, `run` on the new tunnel server reads a member that was
  -- never assigned, before it spawns a listener or starts a thread.
  pub run-ReadsUnassigned :
      (m : Settings) (hardware_threads : ℕ)
      → IsMap m
      → ReadsUnassigned (new_server api m) (run hardware_threads (new_server api m))
  unfolding new_server
  run-ReadsUnassigned m n u =
      let d = tunnel_configure-described api m u in
      run-without-dest_port n (new_server api m) (ground (arith, d))
