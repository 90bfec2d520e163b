-- ===== src/Port/Server.antt =====
-- `ForwardingServerImpl` (src/core/PortForwardingServer.hpp and .cpp): the object, `setSettingsDoc`,
-- `run` and the destructor. The number of hardware threads is an argument, and the listener that
-- `run` spawns is known by its two endpoints. What `run`
-- logs is left out, but not that it reads the number of threads for its log.
pub mod Running
use book_filer_module_ssh.Prelude.{
  ℕ, zero, suc, ◌+◌, ℤ, pos, magnitude, to_int, Bool, true, false, Option, none, some, List, [],
  ◌∷◌, ◌++◌,
}
use book_filer_module_ssh.Settings.{Settings}
use book_filer_module_ssh.Asio.{AddressApi}
use book_filer_module_ssh.Flow.{M, returned, unfinished, ◌>>=◌, ◌>>◌, pure, get, modify, assigned}
use book_filer_module_ssh.Port.State.{ServerState, configure}

pub record Endpoint (Address : Type 0) : Type 0 where
  pub address : Address
  pub port : ℕ

pub record Server (Address : Type 0) : Type 0 where
  pub settings_doc : Option ℕ
  pub server_state : ServerState Address
  -- The concurrency hint of `ioContext`, and the endpoints of the listeners spawned on it.
  pub io_context : Option ℤ
  pub listeners : List (Endpoint Address × Endpoint Address)
  -- The length of `threadList`.
  pub threads : ℕ

-- `for (auto i = threadsNum; i > 0; --i)`.
unfoldable pub launch : {Address : Type 0} → ℕ → Server Address → Server Address
launch zero s = s
launch (suc i) s = launch i (record s { threads = s.threads + 1 })

module _ (api : AddressApi) where
  open api use {Address}

  unfoldable pub new_server : Settings → Server Address
  new_server m = record {
    settings_doc = none;
    server_state = configure api m;
    io_context = none;
    listeners = [];
    threads = 0;
  }

unfoldable pub set_settings_doc : {Address : Type 0} → Option ℕ → M (Server Address) ℤ
set_settings_doc doc s = returned (pos 0) (record s { settings_doc = doc })

unfoldable pub run : {Address : Type 0} → ℕ → M (Server Address) ℤ
run hardware_threads = do
  before ← get
  _ ← assigned before.server_state.threads_num
  let threads_num = to_int (pos hardware_threads)
  modify (λ s. record s {
    server_state = record (s.server_state) { threads_num = some threads_num };
    io_context = some threads_num;
  })
  s ← get
  source_port ← assigned s.server_state.source_port
  dest_port ← assigned s.server_state.dest_port
  modify (λ s. record s {
    listeners =
        s.listeners
        ++ (
          record { address = s.server_state.source_address; port = source_port },
          record { address = s.server_state.dest_address; port = dest_port },
        )
          ∷ [];
  })
  modify (launch (magnitude threads_num))
  pure (pos 0)

-- `thread.join()`, for each of so many threads; whether the threads end is an argument. A thread runs
-- `ioContext`, so it ends when no coroutine is left.
unfoldable pub join_all : {S : Type 0} → Bool → ℕ → M S (Unit {0})
join_all ended zero = pure tt
join_all ended (suc i) = elim ended [ true ↦ join_all ended i | false ↦ (λ s. unfinished s) ]

-- The destructor.
unfoldable pub destroy : {Address : Type 0} → Bool → M (Server Address) (Unit {0})
destroy ended = do s ← get; join_all ended s.threads
