-- ===== src/Port/Connection/Memory.antt =====
-- The buffers of a connection: every one that is allocated stands in one of the two queues, and the
-- coroutines never take the front of an empty queue or free a buffer twice.
use mathlib.Core.Path.{subst}
use book_filer_module_ssh.Prelude.{some, List, [], ◌∷◌, ◌++◌, length, ◌≡◌, refl, ap, arith}
use book_filer_module_ssh.Settings.{Bytes}
use book_filer_module_ssh.Port.Connection.Ownership.{
  Owned, IsFree, Owned-push, Owned-push_back, Owned-pop, Owned-pop_back,
}
use book_filer_module_ssh.Port.Connection.{
  Buffer, Phase, greeting, reading, ended, writing, Direction, forward, backward, Connection,
  Completion, got, sent_some, wrote, failed, new_connection, half, write_handler, start_write,
  resume_at, resume,
}

-- The queue that goes with a phase. A coroutine that has returned may have left a buffer behind.
abbrev pub Queue : Phase → List Buffer → Type 0
Queue greeting q = q ≡ []
Queue reading q = q ≡ []
Queue (writing bs) q = (b : Buffer) × (q ≡ b ∷ [])
Queue ended q = Unit {0}

pub record Memory (c : Connection) : Type 0 where
  pub forth_queue : Queue c.forth.phase c.forth.write_queue
  pub back_queue : Queue c.back.phase c.back.write_queue
  pub owned : Owned c.forth.write_queue c.back.write_queue c.live

-- The allocator returns an address that is not in use.
abbrev pub Fresh : Completion → Connection → Type 0
Fresh (got bs address) c = IsFree address c.live
Fresh wrote c = Unit {0}
Fresh (sent_some k) c = Unit {0}
Fresh (failed k) c = Unit {0}

pub new_connection-Memory : Memory new_connection
unfolding new_connection
new_connection-Memory = record { forth_queue = refl; back_queue = refl; owned = refl }

-- The queue in a known phase.
at_phase : {ph ph' : Phase} (q : List Buffer) → ph ≡ ph' → Queue ph q → Queue ph' q
at_phase q e h = subst (λ ph. Queue ph q) e h

-- A write that completed: its buffer is popped and freed.
forward_written :
    (bs : Bytes) (c : Connection)
    → c.forth.phase ≡ writing bs
    → Memory c
    → (c' : Connection) × (resume_at (writing bs) forward wrote c ≡ some c') × Memory c'
unfolding resume_at write_handler
forward_written bs c e m =
    let (b, q) = at_phase c.forth.write_queue e m.forth_queue in
    let (live, freed, o) =
      Owned-pop b c.back.write_queue c.live
        (subst (λ q. Owned q c.back.write_queue c.live) q m.owned) in
    (
      record c {
        forth = record (c.forth) { phase = reading; write_queue = []; given = c.forth.given ++ bs };
        live = live;
        dest_out = c.dest_out ++ bs;
      },
      ground arith,
      record { forth_queue = refl; back_queue = m.back_queue; owned = o },
    )

backward_written :
    (bs : Bytes) (c : Connection)
    → c.back.phase ≡ writing bs
    → Memory c
    → (c' : Connection) × (resume_at (writing bs) backward wrote c ≡ some c') × Memory c'
unfolding resume_at write_handler
backward_written bs c e m =
    let (b, q) = at_phase c.back.write_queue e m.back_queue in
    let (live, freed, o) =
      Owned-pop_back b c.forth.write_queue c.live
        (subst (λ q. Owned c.forth.write_queue q c.live) q m.owned) in
    (
      record c {
        back = record (c.back) { phase = reading; write_queue = []; given = c.back.given ++ bs };
        live = live;
        src_out = c.src_out ++ bs;
      },
      ground arith,
      record { forth_queue = m.forth_queue; back_queue = refl; owned = o },
    )

-- Every completion resumes without undefined behaviour and keeps the memory accounted for.
resume_at-Memory :
    (ph : Phase) (d : Direction) (done : Completion) (c : Connection)
    → (half d c).phase ≡ ph
    → Memory c
    → Fresh done c
    → (c' : Connection) × (resume_at ph d done c ≡ some c') × Memory c'
unfolding resume_at start_write
resume_at-Memory greeting forward wrote c e m f = (
  _,
  refl,
  record {
    forth_queue = at_phase c.forth.write_queue e m.forth_queue;
    back_queue = m.back_queue;
    owned = m.owned;
  },
)
resume_at-Memory greeting backward wrote c e m f = (
  _,
  refl,
  record {
    forth_queue = m.forth_queue;
    back_queue = at_phase c.back.write_queue e m.back_queue;
    owned = m.owned;
  },
)
resume_at-Memory greeting forward (failed k) c e m f =
    (_, refl, record { forth_queue = tt; back_queue = m.back_queue; owned = m.owned })
resume_at-Memory greeting backward (failed k) c e m f =
    (_, refl, record { forth_queue = m.forth_queue; back_queue = tt; owned = m.owned })
resume_at-Memory greeting forward (sent_some k) c e m f = (
  _,
  refl,
  record {
    forth_queue = at_phase c.forth.write_queue e m.forth_queue;
    back_queue = m.back_queue;
    owned = m.owned;
  },
)
resume_at-Memory greeting backward (sent_some k) c e m f = (
  _,
  refl,
  record {
    forth_queue = m.forth_queue;
    back_queue = at_phase c.back.write_queue e m.back_queue;
    owned = m.owned;
  },
)
resume_at-Memory greeting d (got bs a) c e m f = (c, refl, m)
resume_at-Memory reading forward (got bs a) c e m f =
    let b : Buffer = record { address = a; size = length bs } in
    let q = at_phase c.forth.write_queue e m.forth_queue in
    (
      _,
      refl,
      record {
        forth_queue = (b, ap (λ q. q ++ b ∷ []) q);
        back_queue = m.back_queue;
        owned = Owned-push b c.forth.write_queue c.back.write_queue c.live q m.owned f;
      },
    )
resume_at-Memory reading backward (got bs a) c e m f =
    let b : Buffer = record { address = a; size = length bs } in
    let q = at_phase c.back.write_queue e m.back_queue in
    (
      _,
      refl,
      record {
        forth_queue = m.forth_queue;
        back_queue = (b, ap (λ q. q ++ b ∷ []) q);
        owned = Owned-push_back b c.back.write_queue c.forth.write_queue c.live q m.owned f;
      },
    )
resume_at-Memory reading forward (failed k) c e m f =
    (_, refl, record { forth_queue = tt; back_queue = m.back_queue; owned = m.owned })
resume_at-Memory reading backward (failed k) c e m f =
    (_, refl, record { forth_queue = m.forth_queue; back_queue = tt; owned = m.owned })
resume_at-Memory reading d wrote c e m f = (c, refl, m)
resume_at-Memory reading d (sent_some k) c e m f = (c, refl, m)
resume_at-Memory (writing bs) forward wrote c e m f = forward_written bs c e m
resume_at-Memory (writing bs) backward wrote c e m f = backward_written bs c e m
resume_at-Memory (writing bs) forward (failed k) c e m f =
    (_, refl, record { forth_queue = tt; back_queue = m.back_queue; owned = m.owned })
resume_at-Memory (writing bs) backward (failed k) c e m f =
    (_, refl, record { forth_queue = m.forth_queue; back_queue = tt; owned = m.owned })
resume_at-Memory (writing bs) forward (sent_some k) c e m f = (
  _,
  refl,
  record {
    forth_queue = at_phase c.forth.write_queue e m.forth_queue;
    back_queue = m.back_queue;
    owned = m.owned;
  },
)
resume_at-Memory (writing bs) backward (sent_some k) c e m f = (
  _,
  refl,
  record {
    forth_queue = m.forth_queue;
    back_queue = at_phase c.back.write_queue e m.back_queue;
    owned = m.owned;
  },
)
resume_at-Memory (writing bs) d (got cs a) c e m f = (c, refl, m)
resume_at-Memory ended d wrote c e m f = (c, refl, m)
resume_at-Memory ended d (sent_some k) c e m f = (c, refl, m)
resume_at-Memory ended d (failed k) c e m f = (c, refl, m)
resume_at-Memory ended d (got bs a) c e m f = (c, refl, m)

-- Whatever completes next, the connection goes on without undefined behaviour, and its memory stays
-- accounted for.
pub resume-Memory :
    (d : Direction) (done : Completion) (c : Connection)
    → Memory c
    → Fresh done c
    → (c' : Connection) × (resume d done c ≡ some c') × Memory c'
unfolding resume
resume-Memory d done c m f = resume_at-Memory (half d c).phase d done c refl m f
