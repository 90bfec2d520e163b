-- ===== src/Port/Listener/Ids.antt =====
-- The connections that a listener has accepted, and their ids.
use book_filer_module_ssh.Prelude.{
  ℕ, zero, suc, ◌+◌, ◌%◌, ◌^◌, ◌<◌, ℤ, negsuc, Bool, true, false, ◌||◌, Option, none, some, List,
  [], ◌∷◌, ◌++◌, append_assoc, append-nil, ◌≡◌, sym, ◌∙◌, ap, arith,
}
use mathlib.Core.Path.{subst}
use mathlib.Core.List.{map, map-append}
use book_filer_module_ssh.Port.Connection.{Direction, forward, backward, set_id}
use book_filer_module_ssh.Port.Listener.{
  AcceptorCall, open_call, set_option, bind, listen, acceptor_calls, Round, connect_failed,
  accept_failed, accepted, Listener, new_listener, prepare, round, rounds, run,
}

abbrev pub ids : Listener → List (Option ℕ)
ids l = map (λ c. c.conn_id) l.connection_list

-- How many rounds accepted a connection.
abbrev pub accepts : List Round → ℕ
accepts [] = 0
accepts (connect_failed ∷ rs) = accepts rs
accepts (accept_failed ∷ rs) = accepts rs
accepts (accepted ∷ rs) = suc (accepts rs)

-- The ids `s`, `s + 1` and so on, `n` of them.
abbrev pub count_up : ℕ → ℕ → List (Option ℕ)
count_up s zero = []
count_up s (suc n) = some s ∷ count_up (s + 1) n

-- Both coroutines of each connection, in order.
abbrev pub coroutines : List (Option ℕ) → List (Option ℕ × Direction)
coroutines [] = []
coroutines (id ∷ rest) = (id, forward) ∷ (id, backward) ∷ coroutines rest

-- An accepted round hands out the next id, once, while the counter does not wrap.
round-ids :
    (l : Listener)
    → l.connection_id_increment + 1 < 2 ^ 32
    → ((round accepted l).connection_id_increment ≡ l.connection_id_increment + 1)
      × (ids (round accepted l) ≡ ids l ++ some (l.connection_id_increment + 1) ∷ [])
      × ((round accepted l).spawned
          ≡ l.spawned ++ coroutines (some (l.connection_id_increment + 1) ∷ []))
unfolding round set_id
round-ids l h =
    let e : (l.connection_id_increment + 1) % 2 ^ 32 ≡ l.connection_id_increment + 1 =
      omega arith in
    (
      e,
      map-append _ l.connection_list _ ∙ ap (λ i. ids l ++ some i ∷ []) e,
      ap (λ i. l.spawned ++ coroutines (some i ∷ [])) e,
    )

-- A run of successive numbers, taken one further at the front.
extend {ℓ} :
    {A : Type ℓ} {whole first : List A} (front step rest : List A)
    → whole ≡ first ++ rest
    → first ≡ front ++ step
    → whole ≡ front ++ (step ++ rest)
extend front step rest p q = p ∙ ap (λ u. u ++ rest) q ∙ append_assoc front step rest

rounds-ids :
    (rs : List Round) (l : Listener)
    → l.connection_id_increment + accepts rs < 2 ^ 32
    → (ids (rounds rs l) ≡ ids l ++ count_up (l.connection_id_increment + 1) (accepts rs))
      × ((rounds rs l).spawned
          ≡ l.spawned ++ coroutines (count_up (l.connection_id_increment + 1) (accepts rs)))
unfolding rounds round
rounds-ids [] l h = (sym (append-nil _), sym (append-nil _))
rounds-ids (connect_failed ∷ rs) l h = rounds-ids rs l h
rounds-ids (accept_failed ∷ rs) l h = rounds-ids rs l h
rounds-ids (accepted ∷ rs) l h =
    let (e, is, ss) = round-ids l (omega arith) in
    let (i, s) = rounds-ids rs (round accepted l) (omega (arith, e)) in
    let next = round accepted l in
    (
      extend _ _ _
          (subst (λ n. ids (rounds rs next) ≡ ids next ++ count_up (n + 1) (accepts rs)) e i) is,
      extend _ _ _
          (subst
            (λ n.
              (rounds rs next).spawned ≡ next.spawned ++ coroutines (count_up (n + 1) (accepts rs)))
            e s)
          ss,
    )

-- Whether one of the calls on the acceptor fails.
abbrev pub any_fails : (AcceptorCall → Bool) → Bool
any_fails ec = ec open_call || ec set_option || ec bind || ec listen

-- What `run` does to a new listener, if a call on the acceptor fails and if none does.
abbrev pub Accepted : Bool → List AcceptorCall × Listener × Option ℤ → ℕ → Type 0
Accepted true (calls, l, result) n = (result ≡ some (negsuc 0)) × (l ≡ new_listener)
Accepted false (calls, l, result) n =
    (result ≡ none)
    × (calls ≡ acceptor_calls)
    × (ids l ≡ count_up 1 n)
    × (l.spawned ≡ coroutines (count_up 1 n))

outcome :
    (ec : AcceptorCall → Bool) (rs : List Round) (n : ℕ)
    → ids (rounds rs new_listener) ≡ count_up 1 n
    → (rounds rs new_listener).spawned ≡ coroutines (count_up 1 n)
    → Accepted (any_fails ec) (run ec rs new_listener) n
unfolding run prepare
outcome ec rs n i s = ground arith

-- For every behaviour of the acceptor and every sequence of rounds with fewer than 2 ^ 32
-- accepted connections, on a new listener: if one of the four calls on the acceptor fails, `run`
-- returns -1 and the listener is unchanged; otherwise it has not returned and has made all four
-- calls, the accepted connections have the ids 1, 2 and so on in the order in which they were
-- accepted, and for each of them, in that order, the forward coroutine and then the backward one
-- was spawned.
pub run-Accepted :
    (ec : AcceptorCall → Bool) (rs : List Round)
    → accepts rs < 2 ^ 32
    → Accepted (any_fails ec) (run ec rs new_listener) (accepts rs)
unfolding new_listener
run-Accepted ec rs h =
    let (i, s) = rounds-ids rs new_listener (omega arith) in outcome ec rs (accepts rs) i s
