-- ===== src/Log/Printing.antt =====
-- What the program inserts into `std::cout` without the mutex: `Cleanup` (src/core/Client.cpp) and
-- `init` (src/Module.cpp).
use book_filer_module_ssh.Prelude.{String, Option, none, some, List, [], ◌∷◌, str_eq, if◌then◌else◌}

-- The exit signal, as `Cleanup` got it.
unfoldable pub exit_signal_text : Option String → List String
exit_signal_text none = "No signal" ∷ "\n" ∷ []
exit_signal_text (some str) = (if str_eq str "" then "No signal description" else str) ∷ "\n" ∷ []

unfoldable pub init_text : List String
init_text = "BookFiler Module SSH" ∷ ": init()" ∷ "\n" ∷ []
