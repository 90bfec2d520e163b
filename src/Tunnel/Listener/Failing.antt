-- ===== src/Tunnel/Listener/Failing.antt =====
-- What a connection costs whose client cannot be connected.
use book_filer_module_ssh.Prelude.{pos, negsuc, true, some, ◌≡◌, ◌⊎◌, inl, inr, arith}
use book_filer_module_ssh.Settings.{Settings}
use book_filer_module_ssh.Asio.{AddressApi}
use book_filer_module_ssh.Flow.{Exception, Result, returned, thrown, IsTerminated}
use book_filer_module_ssh.Platform.{Platform}
use book_filer_module_ssh.Client.Object.{Client, new_client}
use book_filer_module_ssh.Client.Session.{connect, tunnel}
use book_filer_module_ssh.Tunnel.Server.{run_io_context}
use book_filer_module_ssh.Tunnel.Listener.{Listener, client_settings, in_client, accepted_round}
use book_filer_module_ssh.Tunnel.Listener.Round.{
  refused_password_terminates, refused_channel_terminates,
}

module _ (api : AddressApi) (p : Platform) where
  open api use {Address}
  open p use {World}

  -- Three ways to fail: an exception; a refused password, where the thread was started; and a refused
  -- channel.
  abbrev pub Fails : Client World → Type 0
  Fails c =
      ((x : Exception) × (d : Client World) × (connect p c ≡ thrown x d))
      ⊎ (((d : Client World) × (connect p c ≡ returned (negsuc 0) d) × (d.thread_io ≡ true))
          ⊎ ((d : Client World) × (e : Client World) × (connect p c ≡ returned (pos 0) d)
              × (d.thread_io ≡ true)
              × (tunnel p d ≡ returned (negsuc 0) e)))

  run_io_context-IsTerminated :
      {S A : Type 0} (m : S → Result S A) (s : S)
      → IsTerminated (m s)
      → IsTerminated (run_io_context m s)
  unfolding run_io_context
  run_io_context-IsTerminated m s h = ground (arith, h)

  module _ (l : Listener Address World) (settings : Settings)
      (configured : client_settings api l.server_state ≡ some settings) where
    thrown-IsTerminated :
        (x : Exception) (d : Client World)
        → connect p (new_client settings l.world) ≡ thrown x d
        → IsTerminated (run_io_context (accepted_round api p) l)
    unfolding run_io_context accepted_round in_client new_client
    thrown-IsTerminated x d e = ground arith

    -- Where the settings of the client can be made, and its `connect` throws, or returns -1 after
    -- the thread was started (so the password was refused), or returns 0 after the thread was
    -- started and then its `tunnel` returns -1: a thread of the server that runs this round of
    -- the listener ends the whole program by `std::terminate`.
    pub failed_client_terminates :
        Fails (new_client settings l.world) → IsTerminated (run_io_context (accepted_round api p) l)
    failed_client_terminates (inl (x, d, e)) = thrown-IsTerminated x d e
    failed_client_terminates (inr (inl (d, e, thread))) =
        run_io_context-IsTerminated (accepted_round api p) l
          (refused_password_terminates api p l settings configured d e thread)
    failed_client_terminates (inr (inr (d, e, ran, thread, refused))) =
        run_io_context-IsTerminated (accepted_round api p) l
          (refused_channel_terminates api p l settings configured d e ran thread refused)
