-- ===== src/Port/Listener.antt =====
-- `port::ListenerImpl` (src/core/PortForwardingServerListener.hpp and .cpp). What the operating system
-- answers is an argument: an error code for each call on the acceptor, and how each round of the loop
-- turns out. The loop never ends by itself, so a run is given the rounds that have happened.
pub mod Ids
use book_filer_module_ssh.Prelude.{
  ℕ, zero, suc, ◌+◌, ◌%◌, ◌^◌, ℤ, negsuc, Bool, true, false, Option, none, some, List, [], ◌∷◌,
  ◌++◌,
}
use book_filer_module_ssh.Port.Connection.{
  Connection, Direction, forward, backward, new_connection, set_id,
}

pub data AcceptorCall : Type 0 where
  open_call set_option bind listen : AcceptorCall

-- `destSocket.async_connect` fails; it succeeds and `acceptor.async_accept` fails; both succeed.
pub data Round : Type 0 where
  connect_failed accept_failed accepted : Round

pub record Listener : Type 0 where
  pub connection_list : List Connection
  pub connection_id_increment : ℕ  -- unsigned int
  -- The coroutines that were spawned, by the connection's id: `run` goes forward, `run2` backward.
  pub spawned : List (Option ℕ × Direction)

unfoldable pub new_listener : Listener
new_listener = record { connection_list = []; connection_id_increment = 0; spawned = [] }

-- The calls that are made, in order, and whether the last of them succeeded.
unfoldable pub prepare : (AcceptorCall → Bool) → List AcceptorCall → List AcceptorCall × Bool
prepare ec [] = ([], true)
prepare ec (call ∷ calls) =
    let (made, ready) = prepare ec calls in
    elim (ec call) [ true ↦ (call ∷ [], false) | false ↦ (call ∷ made, ready) ]

abbrev pub acceptor_calls : List AcceptorCall
acceptor_calls = open_call ∷ set_option ∷ bind ∷ listen ∷ []

-- One round of the loop, with `continue` where a call failed.
unfoldable pub round : Round → Listener → Listener
round connect_failed l = l
round accept_failed l = l
round accepted l =
    let id = (l.connection_id_increment + 1) % 2 ^ 32 in
    let conn = set_id id new_connection in
    record {
      connection_list = l.connection_list ++ conn ∷ [];
      connection_id_increment = id;
      spawned = l.spawned ++ (conn.conn_id, forward) ∷ (conn.conn_id, backward) ∷ [];
    }

unfoldable pub rounds : List Round → Listener → Listener
rounds [] l = l
rounds (r ∷ rs) l = rounds rs (round r l)

-- `run`: the calls on the acceptor, the listener after the rounds, and the result -1 if it returned.
unfoldable pub run :
    (AcceptorCall → Bool) → List Round → Listener → List AcceptorCall × Listener × Option ℤ
run ec rs l =
    let (calls, ready) = prepare ec acceptor_calls in
    elim ready [ true ↦ (calls, rounds rs l, none) | false ↦ (calls, l, some (negsuc 0)) ]
