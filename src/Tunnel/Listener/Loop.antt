-- ===== src/Tunnel/Listener/Loop.antt =====
-- The whole of `ssh::ListenerImpl::run` (src/core/TunnelServerListener.cpp). The calls on the acceptor
-- are those of the other listener. The loop never ends by itself, so a run is given the outcomes of
-- the calls of `async_accept` that have happened.
pub mod Outcome
pub mod Served
use book_filer_module_ssh.Prelude.{ℤ, negsuc, Bool, true, false, Option, none, some, List, [], ◌∷◌}
use book_filer_module_ssh.Asio.{AddressApi}
use book_filer_module_ssh.Flow.{M, ◌>>=◌, ◌>>◌, pure}
use book_filer_module_ssh.Platform.{Platform}
use book_filer_module_ssh.Port.Listener.{AcceptorCall, prepare, acceptor_calls}
use book_filer_module_ssh.Tunnel.State.{ServerState}
use book_filer_module_ssh.Tunnel.Listener.{Listener, accepted_round}

pub data Accept : Type 0 where
  accept_failed accepted : Accept

unfoldable pub new_listener :
    {Address World : Type 0} → ServerState Address → World → Listener Address World
new_listener s w = record {
  server_state = s;
  connection_list = [];
  connection_id_increment = 0;
  spawned = [];
  world = w;
}

module _ (api : AddressApi) (p : Platform) where
  open api use {Address}
  open p use {World}

  -- One round of the loop, with `continue` where `async_accept` failed.
  unfoldable pub round : Accept → M (Listener Address World) (Unit {0})
  round accept_failed = pure tt
  round accepted = accepted_round api p

  unfoldable pub rounds : List Accept → M (Listener Address World) (Unit {0})
  rounds [] = pure tt
  rounds (r ∷ rs) = round r >> rounds rs

  -- The result -1, if it returned.
  unfoldable pub run : (AcceptorCall → Bool) → List Accept → M (Listener Address World) (Option ℤ)
  run ec rs = elim (prepare ec acceptor_calls).1 [
    | true ↦ do rounds rs; pure none
    | false ↦ pure (some (negsuc 0))
  ]
