-- ===== src/Flow.antt =====
-- How a method of the program ends, and the state that it leaves: the sequencing shared by the
-- models of all methods, with no code of its own in src/.
use book_filer_module_ssh.Prelude.{Bool, true, false, Option, none, some, ◌≡◌, refl}

-- The exceptions of src/core/Client.cpp: five `std::logic_error`s, by their messages' subject, and
-- the `boost::system::system_error` that resolving and connecting throw.
pub data Exception : Type 0 where
  creating_session opening_channel executing_command getting_result closing_channel : Exception
  system_error : Exception

-- `undefined` is a read of a member that was never assigned, a use of a null pointer or an access out
-- of bounds,
-- `terminated` a call of `std::terminate`, and `unfinished` means that the fuel or the schedule ran
-- out, or that a thread waits and is not woken.
pub data Result (S : Type 0) (A : Type 0) : Type 0 where
  returned : A → S → Result S A
  thrown : Exception → S → Result S A
  undefined : S → Result S A
  terminated : S → Result S A
  unfinished : S → Result S A

abbrev pub M : Type 0 → Type 0 → Type 0
M S A = S → Result S A

module _ {S : Type 0} where
  infixl 5 ◌>>=◌ ◌>>◌
  abbrev pub ◌>>=◌ : {A B : Type 0} → M S A → (A → M S B) → M S B
  ◌>>=◌ m f s = elim (m s) [
    | returned a t ↦ f a t
    | thrown e t ↦ thrown e t
    | undefined t ↦ undefined t
    | terminated t ↦ terminated t
    | unfinished t ↦ unfinished t
  ]

  abbrev pub ◌>>◌ : {B : Type 0} → M S (Unit {0}) → M S B → M S B
  m >> k = m >>= λ _. k

  abbrev pub pure : {A : Type 0} → A → M S A
  pure a s = returned a s

  abbrev pub throw : {A : Type 0} → Exception → M S A
  throw e s = thrown e s

  abbrev pub get : M S S
  get s = returned s s

  abbrev pub modify : (S → S) → M S (Unit {0})
  modify f s = returned tt (f s)

  -- An exception where a condition fails.
  abbrev pub unless : Bool → Exception → M S (Unit {0})
  unless true e s = returned tt s
  unless false e s = thrown e s

  -- A read of a member, or a use of a pointer.
  abbrev pub assigned : {A : Type 0} → Option A → M S A
  assigned (some a) s = returned a s
  assigned none s = undefined s

module _ {S A B : Type 0} (m : M S A) (f : A → M S B) where
  -- A step that returned goes on with its value.
  pub >>=-returned : {a : A} (s : S) {t : S} → m s ≡ returned a t → (m >>= f) s ≡ f a t
  >>=-returned s e = rw (e, ◌>>=◌)

  -- And only a step that returned goes on.
  pub >>=-eq-returned :
      (s : S) {b : B} {u : S}
      → (m >>= f) s ≡ returned b u
      → (a : A) × (t : S) × (m s ≡ returned a t) × (f a t ≡ returned b u)
  >>=-eq-returned s {b} {u} h = go (m s) refl
    where
      go :
          (r : Result S A)
          → m s ≡ r
          → (a : A) × (t : S) × (m s ≡ returned a t) × (f a t ≡ returned b u)
      go (returned a t) e = (a, t, e, rw (e, ◌>>=◌) at h)
      go (thrown x t) e = cc (rw (e, ◌>>=◌) at h)
      go (undefined t) e = cc (rw (e, ◌>>=◌) at h)
      go (terminated t) e = cc (rw (e, ◌>>=◌) at h)
      go (unfinished t) e = cc (rw (e, ◌>>=◌) at h)

abbrev pub IsTerminated : {S A : Type 0} → Result S A → Type 0
IsTerminated (terminated t) = Unit {0}
IsTerminated (returned a t) = ⊥
IsTerminated (thrown e t) = ⊥
IsTerminated (undefined t) = ⊥
IsTerminated (unfinished t) = ⊥
