-- ===== src/Log/Call.antt =====
-- A call of a function that logs, in the namespace `ssh` or `port`, and what it inserts.
use book_filer_module_ssh.Prelude.{ℕ, String, List}
use book_filer_module_ssh.Log.{Printer}
use book_filer_module_ssh.Log.Ssh
use book_filer_module_ssh.Log.Port

pub data Namespace : Type 0 where
  ssh port : Namespace

-- The overloads, with their arguments.
pub data Call : Type 0 where
  status : Namespace → String → String → Call
  status_error : Namespace → String → String → String → Call
  connection_status : Namespace → ℕ → String → String → Call
  connection_status_error : Namespace → ℕ → String → String → String → Call

module _ (printer : Printer) (this_thread : ℕ) where
  unfoldable pub insertions : Call → List String
  insertions (status ssh f msg) = Ssh.log_status printer this_thread f msg
  insertions (status port f msg) = Port.log_status printer this_thread f msg
  insertions (status_error ssh f msg ec) = Ssh.log_status_error printer this_thread f msg ec
  insertions (status_error port f msg ec) = Port.log_status_error printer this_thread f msg ec
  insertions (connection_status ssh id f msg) =
      Ssh.log_connection_status printer this_thread id f msg
  insertions (connection_status port id f msg) =
      Port.log_connection_status printer this_thread id f msg
  insertions (connection_status_error ssh id f msg ec) =
      Ssh.log_connection_status_error printer this_thread id f msg ec
  insertions (connection_status_error port id f msg ec) =
      Port.log_connection_status_error printer this_thread id f msg ec
