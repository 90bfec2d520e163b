-- ===== src/Port/Connection/Stream.antt =====
-- What comes out of the two sockets: the bytes of one direction, and among them, piece by piece, the
-- zeros of the other direction's greeting.
use mathlib.Core.Path.{subst}
use mathlib.Core.Option.{some-injective}
use Prim.Native.Nat.{min}
use book_filer_module_ssh.Prelude.{
  ℕ, zero, suc, ◌+◌, Bool, false, some, [], ◌∷◌, ◌++◌, take, drop, replicate, ◌≤◌, ◌≡◌, ◌∙◌, ap,
  arith,
}
use book_filer_module_ssh.Settings.{Bytes}
use book_filer_module_ssh.Port.Connection.{
  Phase, greeting, reading, ended, writing, Direction, forward, backward, Connection, Completion,
  got, sent_some, wrote, failed, new_connection, half, greet, give, rest_of_greeting,
  greeting_length, write_handler, start_write, resume_at, resume,
}

-- Two streams in one, each in its order.
pub data Shuffle : Bytes → Bytes → Bytes → Type 0 where
  empty : Shuffle [] [] []
  left : {b : ℕ} {xs ys out : Bytes} → Shuffle xs ys out → Shuffle (b ∷ xs) ys (b ∷ out)
  right : {b : ℕ} {xs ys out : Bytes} → Shuffle xs ys out → Shuffle xs (b ∷ ys) (b ∷ out)

all_left : (bs : Bytes) → Shuffle bs [] bs
all_left [] = empty
all_left (b ∷ bs) = left (all_left bs)

all_right : (bs : Bytes) → Shuffle [] bs bs
all_right [] = empty
all_right (b ∷ bs) = right (all_right bs)

Shuffle-left :
    {xs ys out : Bytes} (bs : Bytes) → Shuffle xs ys out → Shuffle (xs ++ bs) ys (out ++ bs)
Shuffle-left bs empty = all_left bs
Shuffle-left bs (left s) = left (Shuffle-left bs s)
Shuffle-left bs (right s) = right (Shuffle-left bs s)

Shuffle-right :
    {xs ys out : Bytes} (bs : Bytes) → Shuffle xs ys out → Shuffle xs (ys ++ bs) (out ++ bs)
Shuffle-right bs empty = all_right bs
Shuffle-right bs (left s) = left (Shuffle-right bs s)
Shuffle-right bs (right s) = right (Shuffle-right bs s)

-- The relayed bytes and so many zeros.
abbrev pub Mixed : Bytes → ℕ → Bytes → Type 0
Mixed given n out = Shuffle given (replicate n 0) out

replicate-add : (b m n : ℕ) → replicate m b ++ replicate n b ≡ replicate (m + n) b
replicate-add b zero n = ground arith
replicate-add b (suc m) n =
    let count : suc (m + n) ≡ suc m + n = omega arith in
    ap (◌∷◌ b) (replicate-add b m n) ∙ ap (λ k. replicate k b) count

Mixed-greets :
    (given out : Bytes) (m n : ℕ) → Mixed given m out → Mixed given (m + n) (out ++ replicate n 0)
Mixed-greets given out m n s =
    subst (λ zs. Shuffle given zs (out ++ replicate n 0)) (replicate-add 0 m n)
      (Shuffle-right (replicate n 0) s)

pub record Streams (c : Connection) : Type 0 where
  pub dest_mixed : Mixed c.forth.given c.back.zeros c.dest_out
  pub src_mixed : Mixed c.back.given c.forth.zeros c.src_out
  pub few_zeros : (c.forth.zeros ≤ greeting_length) × (c.back.zeros ≤ greeting_length)

min-le : (a b : ℕ) → min a b ≤ b
min-le a b = omega arith

greet-Streams :
    (d : Direction) (n : ℕ) (ph : Phase) (c : Connection)
    → n ≤ rest_of_greeting d c
    → Streams c
    → Streams (greet d n ph c)
greet-Streams forward n ph c few r = record {
  dest_mixed = r.dest_mixed;
  src_mixed = Mixed-greets c.back.given c.src_out c.forth.zeros n r.src_mixed;
  few_zeros = (omega (arith, few, r.few_zeros.0), r.few_zeros.1);
}
greet-Streams backward n ph c few r = record {
  dest_mixed = Mixed-greets c.forth.given c.dest_out c.back.zeros n r.dest_mixed;
  src_mixed = r.src_mixed;
  few_zeros = (r.few_zeros.0, omega (arith, few, r.few_zeros.1));
}

give-Streams :
    (d : Direction) (bs : Bytes) (ph : Phase) (c : Connection)
    → Streams c
    → Streams (give d bs ph c)
give-Streams forward bs ph c r = record {
  dest_mixed = Shuffle-left bs r.dest_mixed;
  src_mixed = r.src_mixed;
  few_zeros = r.few_zeros;
}
give-Streams backward bs ph c r = record {
  dest_mixed = r.dest_mixed;
  src_mixed = Shuffle-left bs r.src_mixed;
  few_zeros = r.few_zeros;
}

-- A handler leaves the streams alone.
write_handler_streams :
    (d : Direction) (ec : Bool) (c c' : Connection)
    → write_handler d ec c ≡ some c'
    → (c'.forth.given ≡ c.forth.given)
      × (c'.back.given ≡ c.back.given)
      × (c'.forth.zeros ≡ c.forth.zeros)
      × (c'.back.zeros ≡ c.back.zeros)
      × (c'.dest_out ≡ c.dest_out)
      × (c'.src_out ≡ c.src_out)
unfolding write_handler
write_handler_streams forward ec c c' h = ground arith
write_handler_streams backward ec c c' h = ground arith

write_handler-Streams :
    (d : Direction) (ec : Bool) (c c' : Connection)
    → write_handler d ec c ≡ some c'
    → Streams c
    → Streams c'
write_handler-Streams d ec c c' h r =
    let (forth, back, zeros, zeros', dest, src) = write_handler_streams d ec c c' h in
    record {
      dest_mixed = rw (forth, zeros', dest) r.dest_mixed;
      src_mixed = rw (back, zeros, src) r.src_mixed;
      few_zeros = rw (zeros, zeros') r.few_zeros;
    }

resume_at-Streams :
    (ph : Phase) (d : Direction) (done : Completion) (c c' : Connection)
    → resume_at ph d done c ≡ some c'
    → Streams c
    → Streams c'
unfolding resume_at start_write
resume_at-Streams greeting d wrote c c' h r =
    subst Streams (some-injective _ _ h)
      (greet-Streams d (rest_of_greeting d c) reading c (omega arith) r)
resume_at-Streams greeting d (sent_some k) c c' h r =
    subst Streams (some-injective _ _ h) (
      greet-Streams d (min k (rest_of_greeting d c)) greeting c (min-le k (rest_of_greeting d c)) r)
resume_at-Streams greeting d (failed k) c c' h r =
    subst Streams (some-injective _ _ h)
      (greet-Streams d (min k (rest_of_greeting d c)) ended c (min-le k (rest_of_greeting d c)) r)
resume_at-Streams greeting d (got bs a) c c' h r = subst Streams (some-injective _ _ h) r
resume_at-Streams reading forward (got bs a) c c' h r =
    subst Streams (some-injective _ _ h)
      (record { dest_mixed = r.dest_mixed; src_mixed = r.src_mixed; few_zeros = r.few_zeros })
resume_at-Streams reading backward (got bs a) c c' h r =
    subst Streams (some-injective _ _ h)
      (record { dest_mixed = r.dest_mixed; src_mixed = r.src_mixed; few_zeros = r.few_zeros })
resume_at-Streams reading forward (failed k) c c' h r =
    subst Streams (some-injective _ _ h)
      (record { dest_mixed = r.dest_mixed; src_mixed = r.src_mixed; few_zeros = r.few_zeros })
resume_at-Streams reading backward (failed k) c c' h r =
    subst Streams (some-injective _ _ h)
      (record { dest_mixed = r.dest_mixed; src_mixed = r.src_mixed; few_zeros = r.few_zeros })
resume_at-Streams reading d wrote c c' h r = subst Streams (some-injective _ _ h) r
resume_at-Streams reading d (sent_some k) c c' h r = subst Streams (some-injective _ _ h) r
resume_at-Streams (writing bs) d wrote c c' h r =
    write_handler-Streams d false (give d bs reading c) c' h (give-Streams d bs reading c r)
resume_at-Streams (writing bs) d (sent_some k) c c' h r =
    subst Streams (some-injective _ _ h) (give-Streams d (take k bs) (writing (drop k bs)) c r)
resume_at-Streams (writing bs) d (failed k) c c' h r =
    subst Streams (some-injective _ _ h) (give-Streams d (take k bs) ended c r)
resume_at-Streams (writing bs) d (got cs a) c c' h r = subst Streams (some-injective _ _ h) r
resume_at-Streams ended d wrote c c' h r = subst Streams (some-injective _ _ h) r
resume_at-Streams ended d (sent_some k) c c' h r = subst Streams (some-injective _ _ h) r
resume_at-Streams ended d (failed k) c c' h r = subst Streams (some-injective _ _ h) r
resume_at-Streams ended d (got bs a) c c' h r = subst Streams (some-injective _ _ h) r

pub new_connection-Streams : Streams new_connection
unfolding new_connection
new_connection-Streams = record {
  dest_mixed = empty;
  src_mixed = empty;
  few_zeros = (omega arith, omega arith);
}

pub resume-Streams :
    (d : Direction) (done : Completion) (c c' : Connection)
    → resume d done c ≡ some c'
    → Streams c
    → Streams c'
unfolding resume
resume-Streams d done c c' h r = resume_at-Streams (half d c).phase d done c c' h r
