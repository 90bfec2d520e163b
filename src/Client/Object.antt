-- ===== src/Client/Object.antt =====
-- `ClientImpl` as a record (src/core/Client.hpp), its constructor and `setSettingsDoc`. The object's
-- state includes the world that its calls of libssh2 act on, and the handlers that wait on its
-- `ioContext`. The socket and the timer that the constructor makes belong to the world.
use book_filer_module_ssh.Prelude.{ℕ, ℤ, pos, Bool, false, Option, none, List, []}
use book_filer_module_ssh.Settings.{Bytes, Settings}
use book_filer_module_ssh.Client.State.{ClientState, configure}
use book_filer_module_ssh.Flow.{M, returned}

-- `enum state`.
pub data State : Type 0 where
  work_done still_working : State

-- The functions that the program hands to `LoopAsync`.
pub data Work : Type 0 where
  create_channel execute read_command_channel read_listen_channel close_channel : Work

-- A handler `LoopAsync(DoWork, isRead)` that waits on the socket.
pub record Handler : Type 0 where
  pub work : Work
  pub is_read : Bool

pub record Client (World : Type 0) : Type 0 where
  pub settings_doc : Option ℕ
  pub client_state : ClientState
  -- Whether `threadIo` holds a thread. No method joins it.
  pub thread_io : Bool
  pub command_str : Bytes
  pub command_channel_read_str : Bytes
  pub listen_channel_read_str : Bytes
  -- `ioContext`: whether it is stopped, and the handlers that wait.
  pub stopped : Bool
  pub pending : List Handler
  pub session : Option ℕ
  pub listener : Option ℕ
  pub command_channel : Option ℕ
  pub listen_channel : Option ℕ
  pub written_bytes : ℕ
  pub command_channel_read_len : ℕ
  pub command_str_len : ℕ
  pub world : World

-- The three lengths are not initialised, and every method assigns them before it reads them.
unfoldable pub new_client : {World : Type 0} → Settings → World → Client World
new_client m w = record {
  settings_doc = none;
  client_state = configure m;
  thread_io = false;
  command_str = [];
  command_channel_read_str = [];
  listen_channel_read_str = [];
  stopped = false;
  pending = [];
  session = none;
  listener = none;
  command_channel = none;
  listen_channel = none;
  written_bytes = 0;
  command_channel_read_len = 0;
  command_str_len = 0;
  world = w;
}

unfoldable pub set_settings_doc : {World : Type 0} → Option ℕ → M (Client World) ℤ
set_settings_doc doc c = returned (pos 0) (record c { settings_doc = doc })

-- A call of the platform that returns a value.
abbrev pub call : {World A : Type 0} → (World → A × World) → M (Client World) A
call f c = let (a, w) = f c.world in returned a (record c { world = w })

-- A call for its effect.
abbrev pub act : {World : Type 0} → (World → World) → M (Client World) (Unit {0})
act f c = returned tt (record c { world = f c.world })
