-- ===== src/Settings/Distinct.antt =====
-- A test for maps of settings whose keys are distinct, as those of a `std::map` are.
use book_filer_module_ssh.Prelude.{
  String, Bool, true, false, [], ◌∷◌, ◌≡◌, str_eq, ◌||◌, ◌&&◌, not, arith,
}
use book_filer_module_ssh.Settings.{Settings, IsAbsent, IsMap}

-- Whether the keys of a list of entries are distinct.
abbrev pub has_key : String → Settings → Bool
has_key key [] = false
has_key key ((k, v) ∷ m) = str_eq k key || has_key key m

abbrev pub is_map : Settings → Bool
is_map [] = true
is_map ((k, v) ∷ m) = not (has_key k m) && is_map m

has_key-IsAbsent : (key : String) (m : Settings) → has_key key m ≡ false → IsAbsent key m
has_key-IsAbsent key [] e = tt
has_key-IsAbsent key ((k, v) ∷ m) e = let rest = has_key-IsAbsent key m in ground arith

pub is_map-IsMap : (m : Settings) → is_map m ≡ true → IsMap m
is_map-IsMap [] e = tt
is_map-IsMap ((k, v) ∷ m) e =
    let absent = has_key-IsAbsent k m in let later = is_map-IsMap m in ground arith
