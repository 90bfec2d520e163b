-- ===== src/Threads.antt =====
-- Threads of the program that share `globalMutex` (src/bookfiler/Util.cpp) and interleave: those that
-- log or print, that append a connection in a listener's `run` (src/core/PortForwardingServerListener.cpp and
-- src/core/TunnelServerListener.cpp), and that wait on a handle or notify it (src/Module.cpp). A turn
-- is one access to what they share. A condition variable that wakes by itself is left out.
pub mod Holding
pub mod Quiet
pub mod Calls
pub mod Whole
pub mod Progress
pub mod Settling
pub mod Notifying
pub mod Finished
use book_filer_module_ssh.Prelude.{
  ℕ, String, Bool, false, Option, none, some, List, [], ◌∷◌, ◌++◌, ◌||◌, ◌==◌, if◌then◌else◌,
  update,
}
use book_filer_module_ssh.Log.{Printer}
use book_filer_module_ssh.Log.Call.{Call, insertions}
use book_filer_module_ssh.Module.{Thread, Module, new_module, wait, notify}
use book_filer_module_ssh.Module.Waiting.{waiting_on}

-- What a thread calls. `notifies` has the choice of the thread that it wakes.
pub data Task : Type 0 where
  logs : Call → Task
  appends : ℕ → Task
  waits : String → Task
  notifies : ℕ → String → Task
  -- The insertions of `Cleanup` or `init`, without the mutex.
  prints : List String → Task

-- Where a thread stands.
pub data Position : Type 0 where
  -- Before its next call.
  outside : Position
  -- It holds the mutex, and unlocks it after it has inserted these texts.
  inserting : List String → Position
  -- It holds the mutex, before `emplace_back`.
  appending : ℕ → Position
  -- It holds the mutex, before `emplace` and the wait on the handle's variable.
  emplacing : String → Position
  asleep : String → Position
  -- It was notified and locks the mutex again.
  woken : Position
  -- In `notify`, before `find`.
  finding : ℕ → String → Position
  -- It does not hold the mutex, and has these texts left to insert.
  printing : List String → Position

pub record System : Type 0 where
  -- The thread that holds `globalMutex`.
  pub mutex : Option Thread
  -- What was inserted into `std::cout`.
  pub console : List String
  pub connection_list : List ℕ
  pub exported : Module
  pub position : Thread → Position
  -- The calls that a thread has not begun.
  pub tasks : Thread → List Task

abbrev pub is_in : Thread → List Thread → Bool
is_in t [] = false
is_in t (u ∷ us) = u == t || is_in t us

-- A thread goes on at a position.
abbrev pub goes_to : Thread → Position → System → System
goes_to t p s = record s { position = update s.position t p }

-- `lock` and what follows it; a thread that finds the mutex locked waits.
unfoldable pub lock : Thread → System → System → System
lock t locked s = elim s.mutex [ none ↦ record locked { mutex = some t } | some u ↦ s ]

unfoldable pub start : (Thread → List Task) → System
start programs = record {
  mutex = none;
  console = [];
  connection_list = [];
  exported = new_module;
  position = λ t. outside;
  tasks = programs;
}

-- The end of the scope of the `lock_guard`.
unfoldable pub unlock : Thread → System → System
unlock t s = goes_to t outside (record s { mutex = none })

-- One `<<` of a function that logs.
unfoldable pub insert_locked : Thread → String → List String → System → System
insert_locked t text texts s =
    goes_to t (inserting texts) (record s { console = s.console ++ text ∷ [] })

-- One `<<` without the mutex.
unfoldable pub insert_unlocked : Thread → String → List String → System → System
insert_unlocked t text texts s =
    goes_to t (printing texts) (record s { console = s.console ++ text ∷ [] })

unfoldable pub append_connection : Thread → ℕ → System → System
append_connection t c s =
    goes_to t (inserting []) (record s { connection_list = s.connection_list ++ c ∷ [] })

-- `emplace`, `find` and the start of the wait, which unlocks the mutex.
unfoldable pub fall_asleep : Thread → String → System → System
fall_asleep t handle s =
    goes_to t (asleep handle) (record s { mutex = none; exported = wait t handle s.exported })

-- A thread sleeps on until a notification has taken it off the list.
unfoldable pub wake_up : Thread → String → System → System
wake_up t handle s = if is_in t (waiting_on handle s.exported) then s else goes_to t woken s

unfoldable pub find_and_notify : Thread → ℕ → String → System → System
find_and_notify t i handle s =
    goes_to t outside (record s { exported = notify i handle s.exported })

module _ (printer : Printer) where
  -- The first access of a call: `lock` where the code locks the mutex.
  unfoldable pub begin : Thread → List Task → System → System
  unfolding lock
  begin t [] s = s
  begin t (call ∷ rest) s =
      let left : System = record s { tasks = update s.tasks t rest } in
      elim call [
        | logs c ↦ lock t (goes_to t (inserting (insertions printer t c)) left) s
        | appends c ↦ lock t (goes_to t (appending c) left) s
        | waits handle ↦ lock t (goes_to t (emplacing handle) left) s
        | notifies i handle ↦ goes_to t (finding i handle) left
        | prints texts ↦ goes_to t (printing texts) left
      ]

  unfoldable pub go_on : Thread → Position → System → System
  unfolding begin lock unlock insert_locked insert_unlocked append_connection fall_asleep wake_up
      find_and_notify
  go_on t outside s = begin t (s.tasks t) s
  go_on t (inserting []) s = unlock t s
  go_on t (inserting (text ∷ texts)) s = insert_locked t text texts s
  go_on t (appending c) s = append_connection t c s
  go_on t (emplacing handle) s = fall_asleep t handle s
  go_on t (asleep handle) s = wake_up t handle s
  go_on t woken s = lock t (goes_to t (inserting []) s) s
  go_on t (finding i handle) s = find_and_notify t i handle s
  go_on t (printing []) s = goes_to t outside s
  go_on t (printing (text ∷ texts)) s = insert_unlocked t text texts s

  unfoldable pub turn : Thread → System → System
  unfolding go_on
  turn t s = go_on t (s.position t) s

  -- The turns in which threads come to run.
  unfoldable pub run : List Thread → System → System
  unfolding turn
  run [] s = s
  run (t ∷ schedule) s = run schedule (turn t s)
