-- ===== src/Log/Ssh.antt =====
-- The functions that log in the namespace `ssh` (src/core/Util.cpp): those of `bookfiler` with the code
-- of this module (src/core/config.hpp).
use book_filer_module_ssh.Prelude.{ℕ, String, List}
use book_filer_module_ssh.Log
use book_filer_module_ssh.Log.{Printer}

abbrev pub module_code : String
module_code = "bookfiler::ssh"

module _ (printer : Printer) (this_thread : ℕ) where
  unfoldable pub log_status : String → String → List String
  log_status function_str msg = Log.log_status printer this_thread module_code function_str msg

  unfoldable pub log_status_error : String → String → String → List String
  log_status_error function_str msg ec_message =
      Log.log_status_error printer this_thread module_code function_str msg ec_message

  unfoldable pub log_connection_status : ℕ → String → String → List String
  log_connection_status socket_id function_str msg =
      Log.log_connection_status printer this_thread module_code socket_id function_str msg

  unfoldable pub log_connection_status_error : ℕ → String → String → String → List String
  log_connection_status_error socket_id function_str msg ec_message =
      Log.log_connection_status_error printer this_thread module_code socket_id function_str msg
        ec_message
