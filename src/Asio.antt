-- ===== src/Asio.antt =====
-- What the servers take from Boost.Asio's addresses: a type, its default value, the parser that
-- reports an error code, and the printer.
use book_filer_module_ssh.Prelude.{Bool, false, ◌≡◌}
use book_filer_module_ssh.Settings.{Bytes}

pub record AddressApi : Type 1 where
  pub Address : Type 0
  pub unspecified : Address
  pub from_string : Bytes → Address × Bool
  pub to_string : Address → Bytes

-- A text is canonical when it parses without an error and prints as it was.
abbrev pub IsCanonical : AddressApi → Bytes → Type 0
IsCanonical api t = ((api.from_string t).1 ≡ false) × (api.to_string (api.from_string t).0 ≡ t)
