-- ===== src/Tunnel/Listener/Loop/Outcome.antt =====
-- What one accepted connection does to a tunnel's listener, whatever its client does.
use mathlib.Core.Path.{subst}
use book_filer_module_ssh.Prelude.{
  ◌+◌, ◌%◌, ◌^◌, ℤ, true, false, Bool-cases, Option, none, some, List, [], ◌∷◌, ◌++◌, ◌≡◌, refl,
  sym, ◌∙◌, inl, inr, arith, is_negative,
}
use book_filer_module_ssh.Settings.{Settings}
use book_filer_module_ssh.Asio.{AddressApi}
use book_filer_module_ssh.Flow.{Result, returned, thrown, undefined, terminated, unfinished}
use book_filer_module_ssh.Platform.{Platform}
use book_filer_module_ssh.Client.Object.{Client, new_client}
use book_filer_module_ssh.Client.Session.{
  connect_socket, create_ssh_session, start_thread, connect, tunnel, destroy,
}
use book_filer_module_ssh.Tunnel.Listener.{
  Listener, Spawned, pulls, pushes, client_settings, in_client, discard, start, accepted_round,
}
use book_filer_module_ssh.Tunnel.Listener.Round.{discard-IsTerminated}

module _ (api : AddressApi) (p : Platform) where
  open api use {Address}
  open p use {World}

  -- A listener whose last round added a connection with the client `client`.
  abbrev pub added :
      Listener Address World → Option (Client World) → List Spawned → World → Listener Address World
  added l client spawned w =
      let id = (l.connection_id_increment + 1) % 2 ^ 32 in
      record l {
        connection_id_increment = id;
        connection_list =
            l.connection_list ++ record { conn_id = some id; ssh_client = client } ∷ [];
        spawned = spawned;
        world = w;
      }

  -- What a round with these settings has done, if it goes on: `connect` returned a negative number and
  -- the destructor returned, and the round has added a connection with no client; or
  -- `connect` and `tunnel` did not return a negative number, and it has added one with the client
  -- and spawned its two coroutines.
  pub data Served (l : Listener Address World) (settings : Settings)
      : Listener Address World → Type 0 where
    refused :
        (rc : ℤ) (d e : Client World)
        → connect p (new_client settings l.world) ≡ returned rc d
        → is_negative rc ≡ true
        → destroy p d ≡ returned tt e
        → Served l settings (added l none l.spawned e.world)
    accepted_with :
        (rc rc' : ℤ) (d e : Client World)
        → connect p (new_client settings l.world) ≡ returned rc d
        → is_negative rc ≡ false
        → tunnel p d ≡ returned rc' e
        → is_negative rc' ≡ false
        → Served l settings (
            added l
              (some e)
              (l.spawned
                ++ pulls ((l.connection_id_increment + 1) % 2 ^ 32)
                  ∷ pushes ((l.connection_id_increment + 1) % 2 ^ 32)
                  ∷ [])
              e.world)

  module _ (l m : Listener Address World) (settings : Settings)
      (configured : client_settings api l.server_state ≡ some settings) where
    refused-Served :
        (rc : ℤ) (d : Client World) (end : Result (Client World) (Unit {0}))
        → connect p (new_client settings l.world) ≡ returned rc d
        → is_negative rc ≡ true
        → destroy p d ≡ end
        → accepted_round api p l ≡ returned tt m
        → Served l settings m
    unfolding accepted_round in_client discard new_client
    refused-Served rc d (returned a e) run fails gone went =
        let same : m ≡ added l none l.spawned e.world = ground arith in
        subst (Served l settings) (sym same) (refused rc d e run fails gone)
    refused-Served rc d (thrown x e) run fails gone went = ground arith
    refused-Served rc d (undefined e) run fails gone went = ground arith
    refused-Served rc d (terminated e) run fails gone went = ground arith
    refused-Served rc d (unfinished e) run fails gone went = ground arith

    connect-thread :
        (c d : Client World) (rc : ℤ)
        → connect p c ≡ returned rc d
        → is_negative rc ≡ false
        → d.thread_io ≡ true
    unfolding connect connect_socket create_ssh_session start_thread
    connect-thread c d rc run fine = ground arith

    tunnel-thread :
        (d e : Client World) (rc : ℤ) → tunnel p d ≡ returned rc e → e.thread_io ≡ d.thread_io
    unfolding tunnel
    tunnel-thread d e rc run = ground arith

    tunnelled-Served :
        (rc : ℤ) (d : Client World) (end : Result (Client World) ℤ)
        → connect p (new_client settings l.world) ≡ returned rc d
        → is_negative rc ≡ false
        → tunnel p d ≡ end
        → accepted_round api p l ≡ returned tt m
        → Served l settings m
    unfolding accepted_round in_client start new_client
    tunnelled-Served rc d (returned rc' e) run fine made went =
        elim (Bool-cases (is_negative rc')) [
          | inl fails ↦ ground (
            arith,
            discard-IsTerminated api p e (added l none l.spawned e.world) (
                tunnel-thread d e rc' made
                ∙ connect-thread (new_client settings l.world) d rc run fine),
          )
          | inr fine' ↦
              let same : m
                  ≡ added l (some e)
                      (l.spawned
                        ++ pulls ((l.connection_id_increment + 1) % 2 ^ 32)
                          ∷ pushes ((l.connection_id_increment + 1) % 2 ^ 32)
                          ∷ [])
                      e.world =
                ground arith in
              subst (Served l settings) (sym same) (accepted_with rc rc' d e run fine made fine')
        ]
    tunnelled-Served rc d (thrown x e) run fine made went = ground arith
    tunnelled-Served rc d (undefined e) run fine made went = ground arith
    tunnelled-Served rc d (terminated e) run fine made went = ground arith
    tunnelled-Served rc d (unfinished e) run fine made went = ground arith

    connected-Served :
        (end : Result (Client World) ℤ)
        → connect p (new_client settings l.world) ≡ end
        → accepted_round api p l ≡ returned tt m
        → Served l settings m
    unfolding accepted_round in_client new_client
    connected-Served (returned rc d) run went = elim (Bool-cases (is_negative rc)) [
      | inl fails ↦ refused-Served rc d (destroy p d) run fails refl went
      | inr fine ↦ tunnelled-Served rc d (tunnel p d) run fine refl went
    ]
    connected-Served (thrown x e) run went = ground arith
    connected-Served (undefined e) run went = ground arith
    connected-Served (terminated e) run went = ground arith
    connected-Served (unfinished e) run went = ground arith

  pub accepted_round-Served :
      (l m : Listener Address World) (settings : Option Settings)
      → client_settings api l.server_state ≡ settings
      → accepted_round api p l ≡ returned tt m
      → (used : Settings) × (client_settings api l.server_state ≡ some used) × Served l used m
  unfolding accepted_round
  accepted_round-Served l m none e went = ground arith
  accepted_round-Served l m (some used) e went =
      (used, e, connected-Served l m used e (connect p (new_client used l.world)) refl went)
