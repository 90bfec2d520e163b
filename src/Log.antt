-- ===== src/Log.antt =====
-- The functions that log (src/bookfiler/Util.cpp, and the functions of the same names in
-- src/core/Util.cpp and src/core/PortForwardingUtil.cpp). Each is known by what it inserts into
-- `std::cout` while it holds `globalMutex`, one text for each `<<`. How a stream prints the id of a
-- thread and a number is a parameter, and an error code is its message. Log/File: `readFile`.
pub mod Ssh
pub mod Port
pub mod File
pub mod Call
pub mod Printing
use book_filer_module_ssh.Prelude.{ℕ, String, List, [], ◌∷◌}

-- What `std::cout` makes of a thread's id and of an `unsigned int`.
pub record Printer : Type 0 where
  pub thread_id : ℕ → String
  pub unsigned : ℕ → String

module _ (printer : Printer) (this_thread : ℕ) where
  open printer use {thread_id, unsigned}

  unfoldable pub log_status : String → String → String → List String
  log_status module_code function_str msg =
      "\n=== THREAD "
      ∷ thread_id this_thread
      ∷ " ===\n"
      ∷ module_code
      ∷ function_str
      ∷ " "
      ∷ msg
      ∷ "\n"
      ∷ []

  unfoldable pub log_status_error : String → String → String → String → List String
  log_status_error module_code function_str msg ec_message =
      "\n=== THREAD "
      ∷ thread_id this_thread
      ∷ " ===\n"
      ∷ module_code
      ∷ function_str
      ∷ " "
      ∷ msg
      ∷ " ERROR:\n"
      ∷ ec_message
      ∷ "\n"
      ∷ []

  unfoldable pub log_connection_status : String → ℕ → String → String → List String
  log_connection_status module_code socket_id function_str msg =
      "\n=== THREAD "
      ∷ thread_id this_thread
      ∷ ", conn #"
      ∷ unsigned socket_id
      ∷ " ===\n"
      ∷ module_code
      ∷ function_str
      ∷ " "
      ∷ msg
      ∷ "\n"
      ∷ []

  unfoldable pub log_connection_status_error : String → ℕ → String → String → String → List String
  log_connection_status_error module_code socket_id function_str msg ec_message =
      "\n=== THREAD "
      ∷ thread_id this_thread
      ∷ ", conn #"
      ∷ unsigned socket_id
      ∷ " ===\n"
      ∷ module_code
      ∷ function_str
      ∷ " "
      ∷ msg
      ∷ " ERROR:\n"
      ∷ ec_message
      ∷ "\n"
      ∷ []
