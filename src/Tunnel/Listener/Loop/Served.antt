-- ===== src/Tunnel/Listener/Loop/Served.antt =====
-- Which connections of a tunnel's listener have coroutines.
use book_filer_module_ssh.Prelude.{
  ℕ, zero, suc, ◌+◌, ◌%◌, ◌^◌, ◌<◌, ℤ, negsuc, Bool, true, false, Bool-cases, Option, none, some,
  List, [], ◌∷◌, ◌++◌, append-nil, ◌≡◌, refl, sym, ◌∙◌, ap, ◌⊎◌, inl, inr, arith,
}
use mathlib.Core.Path.{subst, ap₂}
use mathlib.Core.List.{map, map-append}
use book_filer_module_ssh.Settings.{Settings}
use book_filer_module_ssh.Port.Listener.{AcceptorCall, prepare, acceptor_calls}
use book_filer_module_ssh.Port.Listener.Ids.{count_up}
use book_filer_module_ssh.Asio.{AddressApi}
use book_filer_module_ssh.Flow.{returned, pure, >>=-eq-returned}
use book_filer_module_ssh.Platform.{Platform}
use book_filer_module_ssh.Client.Object.{Client}
use book_filer_module_ssh.Tunnel.State.{ServerState}
use book_filer_module_ssh.Tunnel.Listener.{
  Connection, Listener, Spawned, pulls, pushes, client_settings, accepted_round,
}
use book_filer_module_ssh.Tunnel.Listener.Loop.{
  Accept, accept_failed, accepted, new_listener, round, rounds, run,
}
use book_filer_module_ssh.Tunnel.Listener.Loop.Outcome.{
  added, Served, refused, accepted_with, accepted_round-Served,
}

-- The coroutines of the connections that have a client, in order: two for each.
abbrev pub served : {World : Type 0} → List (Connection World) → List Spawned
served [] = []
served (conn ∷ rest) = elim conn.ssh_client [
  | none ↦ served rest
  | some _ ↦ elim conn.conn_id [ none ↦ served rest | some id ↦ pulls id ∷ pushes id ∷ served rest ]
]

served-append :
    {World : Type 0} (xs : List (Connection World)) (c : Connection World)
    → served (xs ++ c ∷ []) ≡ served xs ++ served (c ∷ [])
served-append [] c = refl
served-append (x ∷ xs) c = ground (arith, served-append xs c)

count_up-snoc : (s n : ℕ) → count_up s n ++ some (s + n) ∷ [] ≡ count_up s (suc n)
count_up-snoc s zero = ground arith
count_up-snoc s (suc n) = ground (arith, count_up-snoc (s + 1) n)

-- How many connections were accepted.
abbrev pub accepts : List Accept → ℕ
accepts [] = 0
accepts (accept_failed ∷ rs) = accepts rs
accepts (accepted ∷ rs) = suc (accepts rs)

abbrev pub ids : {World : Type 0} → List (Connection World) → List (Option ℕ)
ids = map (λ conn. conn.conn_id)

-- The ids count up from 1, and `runPull` and `runPush` were spawned for the connections that have a
-- client, once for each, and for no other.
pub record IsServed {Address World : Type 0} (l : Listener Address World) : Type 0 where
  pub numbered : ids l.connection_list ≡ count_up 1 l.connection_id_increment
  pub spawned_served : l.spawned ≡ served l.connection_list

module _ (api : AddressApi) (p : Platform) where
  open api use {Address}
  open p use {World}

  added-IsServed :
      (l : Listener Address World) (client : Option (Client World)) (more : List Spawned)
      (w : World)
      → l.connection_id_increment + 1 < 2 ^ 32
      → more
        ≡ served {World = World} (
            record {
              conn_id = some ((l.connection_id_increment + 1) % 2 ^ 32);
              ssh_client = client;
            }
            ∷ [])
      → IsServed l
      → IsServed (added api p l client (l.spawned ++ more) w)
        × ((added api p l client (l.spawned ++ more) w).connection_id_increment
            ≡ l.connection_id_increment + 1)
  added-IsServed l client more w small e s =
      let n = l.connection_id_increment in
      (
        record {
          numbered =
              map-append _ l.connection_list _
              ∙ (ap (λ xs. xs ++ some ((n + 1) % 2 ^ 32) ∷ []) s.numbered
                  ∙ (ap (λ k. count_up 1 n ++ some k ∷ []) (omega arith)
                      ∙ (count_up-snoc 1 n ∙ ap (count_up 1) {x = suc n} (omega arith))));
          spawned_served = ap₂ ◌++◌ s.spawned_served e ∙ sym (served-append l.connection_list _);
        },
        omega arith,
      )

  -- The rounds of a loop, from one state of the listener to another.
  pub data AllServed : List Accept → Listener Address World → Listener Address World → Type 0 where
    all_done : (l : Listener Address World) → AllServed [] l l
    passed_over :
        {rs : List Accept} {l d : Listener Address World}
        → AllServed rs l d
        → AllServed (accept_failed ∷ rs) l d
    taken :
        {rs : List Accept} {l m d : Listener Address World} (settings : Settings)
        → client_settings api l.server_state ≡ some settings
        → Served api p l settings m
        → AllServed rs m d
        → AllServed (accepted ∷ rs) l d

  Served-IsServed :
      (l d : Listener Address World) (settings : Settings)
      → l.connection_id_increment + 1 < 2 ^ 32
      → Served api p l settings d
      → IsServed l
      → IsServed d × (d.connection_id_increment ≡ l.connection_id_increment + 1)
  Served-IsServed l _ settings small (refused rc d e run fails gone) s =
      subst
        (λ xs.
          IsServed (added api p l none xs e.world)
          × ((added api p l none xs e.world).connection_id_increment
              ≡ l.connection_id_increment + 1))
        (append-nil l.spawned) (added-IsServed l none [] e.world small refl s)
  Served-IsServed l _ settings small (accepted_with rc rc' d e run fine made fine') s =
      added-IsServed l (some e) _ e.world small refl s

  rounds-AllServed :
      (rs : List Accept) (l d : Listener Address World)
      → rounds api p rs l ≡ returned tt d
      → AllServed rs l d
  unfolding rounds round
  rounds-AllServed [] l d h =
      let same : l ≡ d = ground arith in subst (AllServed [] l) same (all_done l)
  rounds-AllServed (accept_failed ∷ rs) l d h = passed_over (rounds-AllServed rs l d h)
  rounds-AllServed (accepted ∷ rs) l d h =
      let (_, m, one, more) = >>=-eq-returned (accepted_round api p) (λ _. rounds api p rs) l h in
      let (settings, e, kept) =
        accepted_round-Served api p l m (client_settings api l.server_state) refl one in
      taken settings e kept (rounds-AllServed rs m d more)

  AllServed-IsServed :
      (rs : List Accept) (l d : Listener Address World)
      → AllServed rs l d
      → l.connection_id_increment + accepts rs < 2 ^ 32
      → IsServed l
      → IsServed d × (d.connection_id_increment ≡ l.connection_id_increment + accepts rs)
  AllServed-IsServed _ l _ (all_done _) small s = (s, omega arith)
  AllServed-IsServed _ l d (passed_over more) small s = AllServed-IsServed _ l d more small s
  AllServed-IsServed _ l d (taken {m = m} settings _ one more) small s =
      let (kept, count) = Served-IsServed l m settings (omega arith) one s in
      let (served_all, total) = AllServed-IsServed _ m d more (omega (arith, count)) kept in
      (served_all, omega (arith, count, total))

  new_listener-IsServed :
      (s : ServerState Address) (w : World) → IsServed (new_listener {World = World} s w)
  unfolding new_listener
  new_listener-IsServed s w = record { numbered = refl; spawned_served = refl }

  -- Where fewer than 2 ^ 32 connections are accepted and `run` on a new listener of the tunnel
  -- ends in a state, instead of by an exception, a read of an unassigned member or a call of
  -- `std::terminate`: if the calls on the acceptor succeeded, it has not returned, and each
  -- accepted connection in turn has either met a `connect` that returned a negative number, and was
  -- added with no client and no coroutine, after its client was destroyed, or met a `connect` and a
  -- `tunnel` that did not, and was added with the client that they left and with `runPull` and
  -- `runPush`; and otherwise it has returned -1 with the listener unchanged. In both cases the ids
  -- of the connections count up from 1, and `runPull` and `runPush` were spawned for the
  -- connections that have a client, in order, once for each and for no other.
  pub run-IsServed :
      (ec : AcceptorCall → Bool) (rs : List Accept) (s : ServerState Address) (w : World)
      (result : Option ℤ) (d : Listener Address World)
      → accepts rs < 2 ^ 32
      → run api p ec rs (new_listener s w) ≡ returned result d
      → IsServed d
        × ((((prepare ec acceptor_calls).1 ≡ true)
              × (result ≡ none)
              × AllServed rs (new_listener s w) d)
            ⊎ (((prepare ec acceptor_calls).1 ≡ false)
                × (result ≡ some (negsuc 0))
                × (d ≡ new_listener s w)))
  unfolding run new_listener
  run-IsServed ec rs s w result d small h = elim (Bool-cases (prepare ec acceptor_calls).1) [
    | inl ready ↦
        let (_, m, ran, end) =
          >>=-eq-returned (rounds api p rs) (λ _. pure none) (new_listener s w)
            (rw (ready, run) at h) in
        let all = rounds-AllServed rs (new_listener s w) m ran in
        let (kept, _) =
          AllServed-IsServed rs (new_listener s w) m all (omega arith)
            (new_listener-IsServed s w) in
        let same : m ≡ d = ground arith in
        let ended : result ≡ none = ground arith in
        (
          subst IsServed same kept,
          inl (ready, ended, subst (AllServed rs (new_listener s w)) same all),
        )
    | inr broken ↦ let end = rw (broken, run) at h in ground (arith, new_listener-IsServed s w)
  ]
