-- ===== src/Client/Session/Outcomes.antt =====
-- How the destructor of `ClientImpl` ends.
use book_filer_module_ssh.Prelude.{Bool, true, false, none, ◌≡◌, arith}
use book_filer_module_ssh.Flow.{Result, returned, thrown, undefined, terminated, unfinished}
use book_filer_module_ssh.Platform.{Platform}
use book_filer_module_ssh.Client.Object.{Client}
use book_filer_module_ssh.Client.Session.{release_channels, release_session, close_socket, destroy}

module _ {World : Type 0} where
  pub record IsReleased (d : Client World) : Type 0 where
    pub no_command_channel : d.command_channel ≡ none
    pub no_listen_channel : d.listen_channel ≡ none
    pub no_listener : d.listener ≡ none
    pub no_session : d.session ≡ none

  -- The destructor releases every handle, and then ends the program if a thread was started.
  abbrev pub DestroyOutcome : Bool → Result (Client World) (Unit {0}) → Type 0
  DestroyOutcome thread (returned _ d) = (thread ≡ false) × IsReleased d
  DestroyOutcome thread (terminated d) = (thread ≡ true) × IsReleased d
  DestroyOutcome thread (thrown e d) = ⊥
  DestroyOutcome thread (undefined d) = ⊥
  DestroyOutcome thread (unfinished d) = ⊥

module _ (p : Platform) where
  open p use {World, channel_direct_tcpip_ex}

  -- The destructor of a client leaves no command channel, no listen channel, no listener and no
  -- session. It then returns if no thread was started, and otherwise ends the program. It has no
  -- other outcome.
  pub destroy-DestroyOutcome : (c : Client World) → DestroyOutcome c.thread_io (destroy p c)
  unfolding destroy release_channels release_session close_socket
  destroy-DestroyOutcome c = ground arith
