-- ===== src/Port/Connection/Bounds.antt =====
-- How much memory a connection allocates.
use book_filer_module_ssh.Prelude.{
  ℕ, Bool, false, ◌+◌, ◌*◌, ◌≤◌, some, List, [], ◌∷◌, ◌++◌, length, ◌≡◌, arith, inl, inr,
}
use mathlib.Core.Path.{subst}
use mathlib.Core.Option.{some-injective}
use book_filer_module_ssh.Port.Connection.{
  Buffer, Phase, reading, writing, Direction, forward, backward, Connection, Completion, got,
  sent_some, wrote, failed, read_buffer_length, new_connection, half, write_handler, start_write,
  resume_at, resume,
}
use book_filer_module_ssh.Port.Connection.Memory.{new_connection-Memory}
use book_filer_module_ssh.Port.Connection.Ownership.{Owned}
use book_filer_module_ssh.Port.Connection.History.{Steps, here, next, Steps-Memory}

-- A read gives no more than its buffer holds.
abbrev pub Fits : Completion → Type 0
Fits (got bs address) = length bs ≤ read_buffer_length
Fits wrote = Unit {0}
Fits (sent_some k) = Unit {0}
Fits (failed k) = Unit {0}

abbrev pub AllFit : {c c' : Connection} → Steps c c' → Type 0
AllFit here = Unit {0}
AllFit (next d done s f e) = Fits done × AllFit s

abbrev pub AllSmall : List Buffer → Type 0
AllSmall [] = Unit {0}
AllSmall (b ∷ bs) = (b.size ≤ read_buffer_length) × AllSmall bs

-- The number of allocated bytes.
abbrev pub total_size : List Buffer → ℕ
total_size [] = 0
total_size (b ∷ bs) = b.size + total_size bs

abbrev pub SmallQueues : Connection → Type 0
SmallQueues c = AllSmall c.forth.write_queue × AllSmall c.back.write_queue

AllSmall-append :
    (q : List Buffer) (b : Buffer)
    → AllSmall q
    → b.size ≤ read_buffer_length
    → AllSmall (q ++ b ∷ [])
AllSmall-append [] b a h = (h, tt)
AllSmall-append (x ∷ q) b a h = (a.0, AllSmall-append q b a.1 h)

-- The front of a queue is taken off.
write_handler-SmallQueues :
    (d : Direction) (ec : Bool) (c c' : Connection)
    → write_handler d ec c ≡ some c'
    → SmallQueues c
    → SmallQueues c'
unfolding write_handler
write_handler-SmallQueues forward ec c c' h s = ground arith
write_handler-SmallQueues backward ec c c' h s = ground arith

resume_at-SmallQueues :
    (ph : Phase) (d : Direction) (done : Completion) (c c' : Connection)
    → resume_at ph d done c ≡ some c'
    → Fits done
    → SmallQueues c
    → SmallQueues c'
unfolding resume_at start_write
resume_at-SmallQueues reading forward (got bs a) c c' h f s =
    subst SmallQueues (some-injective _ _ h)
      (AllSmall-append c.forth.write_queue (record { address = a; size = length bs }) s.0 f, s.1)
resume_at-SmallQueues reading backward (got bs a) c c' h f s =
    subst SmallQueues (some-injective _ _ h)
      (s.0, AllSmall-append c.back.write_queue (record { address = a; size = length bs }) s.1 f)
resume_at-SmallQueues (writing bs) forward wrote c c' h f s =
    write_handler-SmallQueues forward false _ c' h s
resume_at-SmallQueues (writing bs) backward wrote c c' h f s =
    write_handler-SmallQueues backward false _ c' h s
resume_at-SmallQueues _ forward _ c c' h f s = ground arith
resume_at-SmallQueues _ backward _ c c' h f s = ground arith

Steps-SmallQueues : {c : Connection} (s : Steps new_connection c) → AllFit s → SmallQueues c
unfolding new_connection resume
Steps-SmallQueues here a = (tt, tt)
Steps-SmallQueues (next {c'} {c''} d done s f e) a =
    resume_at-SmallQueues (half d c').phase d done c' c'' e a.0 (Steps-SmallQueues s a.1)

Owned-size :
    (q r live : List Buffer)
    → Owned q r live
    → AllSmall q
    → AllSmall r
    → (length live ≤ 2) × (total_size live ≤ 2 * read_buffer_length)
Owned-size [] [] live o a b = rw o (omega arith)
Owned-size (x ∷ []) [] live o a b = rw o (omega arith)
Owned-size [] (y ∷ []) live o a b = rw o (omega arith)
Owned-size (x ∷ []) (y ∷ []) live (_, inl o) a b = rw o (omega arith)
Owned-size (x ∷ []) (y ∷ []) live (_, inr o) a b = rw o (omega arith)
Owned-size (x ∷ []) (y ∷ z ∷ r) live o a b = elim o [ ]
Owned-size (x ∷ w ∷ q) r live o a b = elim o [ ]
Owned-size [] (y ∷ z ∷ r) live o a b = elim o [ ]

-- After any sequence of completions of the two coroutines in which no read gives more than the
-- read buffer holds, a connection has at most two allocated buffers, and they are together at
-- most twice as long as the read buffer.
pub allocated_bounds :
    {c : Connection} (s : Steps new_connection c)
    → AllFit s
    → (length c.live ≤ 2) × (total_size c.live ≤ 2 * read_buffer_length)
allocated_bounds {c} s a =
    let (q, r) = Steps-SmallQueues s a in
    Owned-size c.forth.write_queue c.back.write_queue c.live
      (Steps-Memory new_connection-Memory s).owned q r
