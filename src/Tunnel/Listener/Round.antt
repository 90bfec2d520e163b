-- ===== src/Tunnel/Listener/Round.antt =====
-- How a round of the tunnel's listener ends.
use book_filer_module_ssh.Prelude.{
  ◌+◌, ◌%◌, ◌^◌, ℤ, pos, negsuc, true, none, some, [], ◌∷◌, ◌++◌, ◌≡◌, ◌∙◌, arith,
}
use book_filer_module_ssh.Settings.{Settings}
use book_filer_module_ssh.Asio.{AddressApi}
use book_filer_module_ssh.Flow.{returned, IsTerminated}
use book_filer_module_ssh.Platform.{Platform}
use book_filer_module_ssh.Client.Object.{Client, new_client}
use book_filer_module_ssh.Client.Session.{connect, tunnel}
use book_filer_module_ssh.Client.Session.Outcomes.{destroy-DestroyOutcome}
use book_filer_module_ssh.Tunnel.Listener.{
  Listener, pulls, pushes, client_settings, in_client, discard, start, accepted_round,
}

module _ (api : AddressApi) (p : Platform) where
  open api use {Address}
  open p use {World}

  pub discard-IsTerminated :
      (c : Client World) (l : Listener Address World)
      → c.thread_io ≡ true
      → IsTerminated (discard api p c l)
  unfolding discard in_client
  discard-IsTerminated c l e =
      ground (arith, destroy-DestroyOutcome p (record c { world = l.world }))

  -- The listener when the client of a new connection has been at work and left the world `w`.
  abbrev joined : Listener Address World → World → Listener Address World
  joined l w =
      let id = (l.connection_id_increment + 1) % 2 ^ 32 in
      record l {
        connection_id_increment = id;
        connection_list = l.connection_list ++ record { conn_id = some id; ssh_client = none } ∷ [];
        world = w;
      }

  module _ (l : Listener Address World) (settings : Settings)
      (configured : client_settings api l.server_state ≡ some settings) (d : Client World) where
    -- Where the settings of the client can be made, and its `connect` returns -1 after the thread
    -- was started (so the password was refused), the round of the listener ends the whole program
    -- by `std::terminate`.
    pub refused_password_terminates :
        connect p (new_client settings l.world) ≡ returned (negsuc 0) d
        → d.thread_io ≡ true
        → IsTerminated (accepted_round api p l)
    unfolding accepted_round in_client new_client
    refused_password_terminates run thread =
        ground (arith, discard-IsTerminated d (joined l d.world) thread)

    tunnel-thread :
        (e : Client World) (rc : ℤ) → tunnel p d ≡ returned rc e → e.thread_io ≡ d.thread_io
    unfolding tunnel
    tunnel-thread e rc h = ground arith

    -- Where the settings of the client can be made, its `connect` returns 0 after the thread was
    -- started, and its `tunnel` returns -1, the round of the listener ends the whole program by
    -- `std::terminate`.
    pub refused_channel_terminates :
        (e : Client World)
        → connect p (new_client settings l.world) ≡ returned (pos 0) d
        → d.thread_io ≡ true
        → tunnel p d ≡ returned (negsuc 0) e
        → IsTerminated (accepted_round api p l)
    unfolding accepted_round in_client new_client
    refused_channel_terminates e run thread refused = ground (
      arith,
      discard-IsTerminated e (joined l e.world) (tunnel-thread e (negsuc 0) refused ∙ thread),
    )

    -- Where the settings of the client can be made, and its `connect` and its `tunnel` return 0,
    -- the round of the listener increments the counter of connections modulo 2 ^ 32, appends one
    -- connection with the counter as its id and the client as its client, spawns `runPull` and
    -- then `runPush` for that id, and changes nothing else but the world, which is the one that `tunnel` left.
    pub accepted_round_lem :
        (e : Client World)
        → connect p (new_client settings l.world) ≡ returned (pos 0) d
        → tunnel p d ≡ returned (pos 0) e
        → accepted_round api p l
          ≡ returned tt (
              let id = (l.connection_id_increment + 1) % 2 ^ 32 in
              record l {
                connection_id_increment = id;
                connection_list =
                    l.connection_list ++ record { conn_id = some id; ssh_client = some e } ∷ [];
                spawned = l.spawned ++ pulls id ∷ pushes id ∷ [];
                world = e.world;
              })
    unfolding accepted_round in_client new_client start
    accepted_round_lem e run made = ground arith
