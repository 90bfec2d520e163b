-- ===== src/Settings.antt =====
-- The `std::map<std::string, std::variant<int, double, std::string>>` by which the servers and the
-- client are configured (include/BookFiler-Module-ssh/Interface.hpp, `newForwardingServerType`,
-- `newTunnelServerType`, `newSshClientType`), as an association list in the order of iteration.
-- Texts that the code only hands on are lists of bytes; the keys are texts.
pub mod Lookup
pub mod Distinct
use mathlib.Core.Option
use book_filer_module_ssh.Prelude.{
  ℕ, String, ℤ, to_u16, true, false, Option, none, some, List, [], ◌∷◌, ◌≡◌, str_eq, eq_iff,
  if◌then◌else◌,
}

abbrev pub Bytes : Type 0
Bytes = List ℕ

-- `double` holds the bit pattern of the number, which no constructor of the program looks at.
pub data Setting : Type 0 where
  int : ℤ → Setting
  double : ℕ → Setting
  string : Bytes → Setting

abbrev pub Settings : Type 0
Settings = List (String × Setting)

unfoldable pub lookup : String → Settings → Option Setting
lookup key [] = none
lookup key ((k, v) ∷ m) = if str_eq k key then some v else lookup key m

-- `for (auto val : map_)`.
unfoldable pub for_each {ℓ} : {S : Type ℓ} → (S → String × Setting → S) → S → Settings → S
for_each body s [] = s
for_each body s (entry ∷ m) = for_each body (body s entry) m

abbrev pub IsAbsent : String → Settings → Type 0
IsAbsent key [] = Unit {0}
IsAbsent key ((k, v) ∷ m) = (str_eq k key ≡ false) × IsAbsent key m

-- The keys of a `std::map` are distinct.
abbrev pub IsMap : Settings → Type 0
IsMap [] = Unit {0}
IsMap ((k, v) ∷ m) = IsAbsent k m × IsMap m

-- The two tests by which a constructor reads an entry: `std::get_if<int>` and
-- `std::get_if<std::string>`.
abbrev pub get_int : Setting → Option ℤ
get_int (int n) = some n
get_int (double x) = none
get_int (string t) = none

abbrev pub get_string : Setting → Option Bytes
get_string (int n) = none
get_string (double x) = none
get_string (string t) = some t

-- The entry that `read` accepts under `key`, or what was there before.
abbrev pub override {ℓ} : {V : Type ℓ} → (Setting → Option V) → Option Setting → V → V
override read none old = old
override read (some v) old = elim (read v) [ none ↦ old | some new ↦ new ]

-- An entry has one key.
pub other_key : (k a b : String) → str_eq a b ≡ false → str_eq k a ≡ true → str_eq k b ≡ false
other_key k a b ne hit = rw ((eq_iff k a).0 hit) ne

-- What the constructors store for a number: a port cast to `unsigned short`, or the number itself.
abbrev pub get_port : Setting → Option (Option ℕ)
get_port v = Option.map (λ n. some (to_u16 n)) (get_int v)

abbrev pub get_number : Setting → Option (Option ℤ)
get_number v = Option.map some (get_int v)
