-- ===== src/Settings/Lookup.antt =====
-- A constructor that copies entries into fields, whatever their order, is a lookup for each field.
use mathlib.Core.Path.{subst}
use book_filer_module_ssh.Prelude.{
  String, Option, none, some, [], ◌∷◌, ◌≡◌, refl, ◌∙◌, inl, inr, str_eq, eq_iff, arith,
  if◌then◌else◌, Bool-cases,
}
use book_filer_module_ssh.Settings.{Setting, Settings, lookup, for_each, IsAbsent, IsMap, override}

lookup-IsAbsent : (key : String) (m : Settings) → IsAbsent key m → lookup key m ≡ none
unfolding lookup
lookup-IsAbsent key [] a = refl
lookup-IsAbsent key ((k, v) ∷ m) a = ground (arith, lookup-IsAbsent key m a.1)

-- `body` writes to the field `get` exactly the entries under `key` that `read` accepts.
abbrev pub Reads {ℓ κ} :
    {S : Type ℓ} {V : Type κ}
    → (S → String × Setting → S)
    → (S → V)
    → String
    → (Setting → Option V)
    → Type (ℓ ⊔ κ)
Reads {S = S} body get key read =
    (s : S) (k : String) (v : Setting)
    → get (body s (k, v)) ≡ (if str_eq k key then override read (some v) (get s) else get s)

module _ {ℓ κ} {S : Type ℓ} {V : Type κ} (body : S → String × Setting → S) (get : S → V)
    (key : String) (read : Setting → Option V) (reads : Reads body get key read) where
  for_each-IsAbsent : (s : S) (m : Settings) → IsAbsent key m → get (for_each body s m) ≡ get s
  unfolding for_each
  for_each-IsAbsent s [] a = refl
  for_each-IsAbsent s ((k, v) ∷ m) a =
      for_each-IsAbsent (body s (k, v)) m a.1 ∙ (reads s k v ∙ (rw a.0))

  -- After the loop the field holds the entry under its key, or its old value.
  pub for_each-lookup :
      (s : S) (m : Settings)
      → IsMap m
      → get (for_each body s m) ≡ override read (lookup key m) (get s)
  unfolding for_each lookup
  for_each-lookup s [] u = refl
  for_each-lookup s ((k, v) ∷ m) u = elim (Bool-cases (str_eq k key)) [
    | inl hit ↦
        for_each-IsAbsent (body s (k, v)) m (subst (λ j. IsAbsent j m) ((eq_iff k key).0 hit) u.0)
        ∙ (reads s k v ∙ (rw hit))
    | inr miss ↦ for_each-lookup (body s (k, v)) m u.1 ∙ (rw (reads s k v, miss))
  ]

-- A field that the body never writes keeps its value.
pub for_each-keeps {ℓ κ} :
    {S : Type ℓ} {V : Type κ} (body : S → String × Setting → S) (get : S → V)
    → ((s : S) (k : String) (v : Setting) → get (body s (k, v)) ≡ get s)
    → (s : S) (m : Settings) → get (for_each body s m) ≡ get s
unfolding for_each
for_each-keeps body get keeps s [] = refl
for_each-keeps body get keeps s ((k, v) ∷ m) =
    for_each-keeps body get keeps (body s (k, v)) m ∙ keeps s k v
