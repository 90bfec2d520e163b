-- ===== src/Tunnel/Connection/Turns/Many.antt =====
-- The connections of a tunnel side by side: each has its own channel and its own local socket, and all
-- act on one world. They go by their channels.
use native.Mathlib.Decide.{ℕ_discrete}
use mathlib.Core.Option.{some-injective}
use book_filer_module_ssh.Prelude.{
  ℕ, Option, none, some, ◌++◌, ◌≡◌, ◌≢◌, refl, sym, ap, subst, ◌∙◌, arith, update, Option-cases,
  inl, inr,
}
use book_filer_module_ssh.Flow.{M, Result, returned, thrown, undefined, terminated, unfinished}
use book_filer_module_ssh.Platform.{Platform}
use book_filer_module_ssh.Client.Channel.Writing.{WriteContract}
use book_filer_module_ssh.Client.Channel.Reading.{ReadContract}
use book_filer_module_ssh.Tunnel.Connection.{LocalSocket}
use book_filer_module_ssh.Tunnel.Connection.Turns.{Pair, Turn, turn}
use book_filer_module_ssh.Tunnel.Connection.Turns.Contract.{
  Traffic, DuplexContract, traffic, IsFaithful, StaysFaithful,
}
use book_filer_module_ssh.Tunnel.Connection.Turns.Duplex.{turn-IsFaithful}
use book_filer_module_ssh.Tunnel.Connection.Turns.Apart.{IsApart, LeavesAlone, turn-LeavesAlone}

-- The connections that are open, and the world. A connection takes the world over for its turn.
pub record Connections (World : Type 0) : Type 0 where
  pub world : World
  pub pairs : ℕ → Option (Pair World)

abbrev pub enter : {World : Type 0} → World → Pair World → Pair World
enter w s = record s { client = record (s.client) { world = w } }

-- The connection of a channel as it is now, and the world that it left.
abbrev pub leave : {World : Type 0} → ℕ → Connections World → Pair World → Connections World
leave i s q = record { world = q.client.world; pairs = update s.pairs i (some q) }

abbrev left :
    {World : Type 0}
    → ℕ
    → Connections World
    → Result (Pair World) (Unit {0})
    → Result (Connections World) (Unit {0})
left i s (returned u q) = returned u (leave i s q)
left i s (thrown e q) = thrown e (leave i s q)
left i s (undefined q) = undefined (leave i s q)
left i s (terminated q) = terminated (leave i s q)
left i s (unfinished q) = unfinished (leave i s q)

module _ (p : Platform) (sockets : ℕ → LocalSocket p.World) where
  open p use {World}

  -- A turn of a connection, if it is open.
  unfoldable pub turn_of : ℕ → Turn → M (Connections World) (Unit {0})
  turn_of i t s = elim (s.pairs i) [
    | none ↦ returned tt s
    | some q ↦ left i s (turn p (sockets i) t (enter s.world q))
  ]

  turn_of-closed :
      (i : ℕ) (t : Turn) (s : Connections World) → s.pairs i ≡ none → turn_of i t s ≡ returned tt s
  unfolding turn_of
  turn_of-closed i t s e = ground arith

  turn_of-open :
      (i : ℕ) (t : Turn) (s : Connections World) (q : Pair World)
      → s.pairs i ≡ some q
      → turn_of i t s ≡ left i s (turn p (sockets i) t (enter s.world q))
  unfolding turn_of
  turn_of-open i t s q e = rw (e, turn_of) refl

  module _ (writes : WriteContract p) (reads : ReadContract p)
      (duplex : (i : ℕ) → DuplexContract p (sockets i) writes (some i)) where
    abbrev pub traffic_of : ℕ → World → Traffic
    traffic_of i = traffic p (sockets i) writes (some i) (duplex i)

    abbrev IsFaithfulAt : ℕ → Pair World → Type 0
    IsFaithfulAt i = IsFaithful p (sockets i) writes (some i) (duplex i)

    -- What every open connection keeps.
    abbrev pub AreFaithful : Connections World → Type 0
    AreFaithful s = (i : ℕ) (q : Pair World) → s.pairs i ≡ some q → IsFaithfulAt i (enter s.world q)

    abbrev pub StayFaithful : Result (Connections World) (Unit {0}) → Type 0
    StayFaithful (returned _ s) = AreFaithful s
    StayFaithful (thrown e s) = ⊥
    StayFaithful (undefined s) = ⊥
    StayFaithful (terminated s) = ⊥
    StayFaithful (unfinished s) = ⊥

    -- A connection does not see a world that changes beside its own traffic.
    elsewhere-IsFaithful :
        (i : ℕ) (s : Pair World) (w w' : World)
        → traffic_of i w' ≡ traffic_of i w
        → IsFaithfulAt i (enter w s)
        → IsFaithfulAt i (enter w' s)
    elsewhere-IsFaithful i s w w' e f =
        let (rest, held, sum) = f.pulled in
        record {
          same_channel = f.same_channel;
          pulled = (
            rest,
            held,
            ap (λ (t : Traffic). t.from_channel) e
                ∙ (sum ∙ ap (λ (t : Traffic). t.to_socket ++ rest) (sym e)),
          );
          pushed =
              ap (λ (t : Traffic). t.to_channel) e
              ∙ (f.pushed ∙ sym (ap (λ (t : Traffic). t.from_socket) e));
        }

    -- One connection changes, with the world, beside the traffic of the others.
    pub leave-AreFaithful :
        (i : ℕ) (s : Connections World) (q : Pair World)
        → AreFaithful s
        → IsFaithfulAt i q
        → ((j : ℕ) → i ≢ j → traffic_of j q.client.world ≡ traffic_of j s.world)
        → AreFaithful (leave i s q)
    leave-AreFaithful i s q all f still j r e = elim (ℕ_discrete i j) [
      | yes same ↦
          let now : update s.pairs i (some q) j ≡ some q = ground (arith, same) in
          let mine : q ≡ r = some-injective q r (sym now ∙ e) in
          subst (λ k. IsFaithfulAt k (enter q.client.world r)) same
            (subst (λ x. IsFaithfulAt i (enter q.client.world x)) mine f)
      | no other ↦
          let same : update s.pairs i (some q) j ≡ s.pairs j = ground (arith, other) in
          elsewhere-IsFaithful j r s.world q.client.world (still j other) (all j r (sym same ∙ e))
    ]

    module _ (apart : (i j : ℕ) → i ≢ j → IsApart p (sockets i) (some i) (traffic_of j)) where
      left-StayFaithful :
          (i : ℕ) (s : Connections World) (at_i : Pair World) (r : Result (Pair World) (Unit {0}))
          → at_i.client.world ≡ s.world
          → AreFaithful s
          → StaysFaithful p (sockets i) writes (some i) (duplex i) r
          → ((j : ℕ)
              → (other : i ≢ j)
              → LeavesAlone p (sockets i) (some i) (traffic_of j) (apart i j other) at_i r)
          → StayFaithful (left i s r)
      left-StayFaithful i s at_i (returned _ q) e all f still =
          leave-AreFaithful i s q all f (λ j other. still j other ∙ ap (traffic_of j) e)
      left-StayFaithful i s at_i (thrown x q) e all f still = absurd f
      left-StayFaithful i s at_i (undefined q) e all f still = absurd f
      left-StayFaithful i s at_i (terminated q) e all f still = absurd f
      left-StayFaithful i s at_i (unfinished q) e all f still = absurd f

      -- A turn of any connection returns, and all connections keep it.
      pub turn_of-StayFaithful :
          (i : ℕ) (t : Turn) (s : Connections World) → AreFaithful s → StayFaithful (turn_of i t s)
      turn_of-StayFaithful i t s all = elim (Option-cases (s.pairs i)) [
        | inl closed ↦ subst StayFaithful (sym (turn_of-closed i t s closed)) all
        | inr (q, e) ↦
            let at_i = enter s.world q in
            subst StayFaithful (sym (turn_of-open i t s q e)) (
              left-StayFaithful i s at_i (turn p (sockets i) t at_i) refl all
                (turn-IsFaithful p (sockets i) writes reads (some i) (duplex i) t at_i (all i q e))
                (λ j other.
                  turn-LeavesAlone p (sockets i) (some i) (traffic_of j) (apart i j other) writes
                    reads (duplex i) at_i (all i q e) t))
      ]
