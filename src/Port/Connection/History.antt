-- ===== src/Port/Connection/History.antt =====
-- The life of a connection: the two coroutines interleave as their operations complete.
use book_filer_module_ssh.Prelude.{
  ℕ, some, [], ◌∷◌, ◌++◌, append-nil, ◌≤◌, ◌≡◌, refl, sym, ◌∙◌, ap, append_assoc, arith,
}
use mathlib.Core.List.{Memᴰ}
use mathlib.Core.Path.{subst}
use mathlib.Core.Option.{some-injective}
use book_filer_module_ssh.Settings.{Bytes}
use book_filer_module_ssh.Port.Connection.{
  Buffer, Phase, greeting, reading, ended, writing, Half, Direction, forward, backward, Connection,
  Completion, greeting_length, failed, new_connection, write_handler, start_write, resume_at, half,
  resume,
}
use book_filer_module_ssh.Port.Connection.Ownership.{Owned, Owned-mem}
use book_filer_module_ssh.Port.Connection.Memory.{
  Memory, Fresh, Queue, new_connection-Memory, resume-Memory,
}
use book_filer_module_ssh.Port.Connection.Relay.{
  Relayed, RelayedHalf, Relays, new_connection-Relays, resume-Relays,
}
use book_filer_module_ssh.Port.Connection.Taken.{read_by, resume-read_by}
use book_filer_module_ssh.Port.Connection.Stream.{
  Mixed, Streams, new_connection-Streams, resume-Streams,
}

-- What a coroutine has read and not written, by its phase.
abbrev pub InHand : Phase → Bytes → Type 0
InHand greeting rest = rest ≡ []
InHand reading rest = rest ≡ []
InHand (writing bs) rest = rest ≡ bs
InHand ended rest = Unit {0}

-- Any sequence of completions, in either direction, that the environment may choose.
pub data Steps (c : Connection) : Connection → Type 0 where
  here : Steps c c
  next :
      {c' c'' : Connection} (d : Direction) (done : Completion)
      → Steps c c'
      → Fresh done c'
      → resume d done c' ≡ some c''
      → Steps c c''

pub Steps-Memory : {c c' : Connection} → Memory c → Steps c c' → Memory c'
Steps-Memory m here = m
Steps-Memory m (next {c'} d done s f e) =
    let (c'', e', m') = resume-Memory d done c' (Steps-Memory m s) f in
    subst Memory (some-injective _ _ (sym e' ∙ e)) m'

Steps-Relays : {c c' : Connection} → Relays c → Steps c c' → Relays c'
Steps-Relays r here = r
Steps-Relays r (next {c'} {c''} d done s f e) = resume-Relays d done c' c'' e (Steps-Relays r s)

Steps-Streams : {c c' : Connection} → Streams c → Steps c c' → Streams c'
Steps-Streams r here = r
Steps-Streams r (next {c'} {c''} d done s f e) = resume-Streams d done c' c'' e (Steps-Streams r s)

-- After any sequence of completions of the two coroutines, where the allocator returns addresses
-- that are not in use: the allocated buffers are those of the two write queues, which hold at
-- most one each, and the next completion, in either direction, resumes a coroutine without
-- undefined behaviour and keeps this invariant. No handler takes the front of an empty queue or
-- frees memory that is not allocated.
pub history-Memory :
    {c : Connection} (d : Direction) (done : Completion)
    → Steps new_connection c
    → Fresh done c
    → Memory c × ((c' : Connection) × (resume d done c ≡ some c') × Memory c')
history-Memory {c} d done s f =
    let m = Steps-Memory new_connection-Memory s in (m, resume-Memory d done c m f)

-- The bytes that the reads of a direction gave.
abbrev pub reads : {c c' : Connection} → Direction → Steps c c' → Bytes
reads d here = []
reads d (next {c'} e done s f h) = reads d s ++ read_by d e (half e c').phase done

Steps-taken :
    {c c' : Connection} (d : Direction) (s : Steps c c')
    → (half d c').taken ≡ (half d c).taken ++ reads d s
Steps-taken {c} d here = sym (append-nil (half d c).taken)
Steps-taken {c} d (next {c'} {c''} e done s f h) =
    resume-read_by d e done c' c'' h
    ∙ (ap (λ xs. xs ++ read_by d e (half e c').phase done) (Steps-taken d s)
        ∙ append_assoc (half d c).taken (reads d s) (read_by d e (half e c').phase done))

-- What `run` carries, or `run2`: the bytes that came out of its target are those that its reads of
-- its source gave, in order and up to a rest that its phase tells, and among them zeros that the
-- greeting of the other coroutine has put out.
abbrev pub Carried : Phase → Bytes → Bytes → Type 0
Carried ph taken out =
    (given rest : Bytes) × (n : ℕ) × (taken ≡ given ++ rest)
    × InHand ph rest
    × (n ≤ greeting_length)
    × Mixed given n out

carried :
    (h : Half) (n : ℕ) (out : Bytes)
    → RelayedHalf h
    → Mixed h.given n out
    → n ≤ greeting_length
    → Carried h.phase h.taken out
carried h n out r m few = go h.phase r
  where
    go : (ph : Phase) → Relayed ph h.taken h.given → Carried ph h.taken out
    go greeting (none_taken, none_given) = (h.given, [], n, ground arith, refl, few, m)
    go reading same = (h.given, [], n, same ∙ sym (append-nil h.given), refl, few, m)
    go (writing bs) sum = (h.given, bs, n, sum, refl, few, m)
    go ended (lost, sum) = (h.given, lost, n, sum, tt, few, m)

-- After any sequence of completions of the two coroutines, and of pieces that their writes put out,
-- for both directions: what came out of the target socket is the bytes that the reads of the source
-- socket gave, in order, without those that the coroutine has still to write if it writes, and,
-- once it has ended, without a rest that is lost; mixed, piece by piece, with zeros of the other
-- coroutine's greeting, of which there are at most 512.
pub history-Carried :
    {c : Connection} (s : Steps new_connection c)
    → Carried c.forth.phase (reads forward s) c.dest_out
      × Carried c.back.phase (reads backward s) c.src_out
unfolding new_connection
history-Carried {c} s =
    let relays = Steps-Relays new_connection-Relays s in
    let streams = Steps-Streams new_connection-Streams s in
    (
      subst (λ taken. Carried c.forth.phase taken c.dest_out) (Steps-taken forward s)
          (carried c.forth c.back.zeros c.dest_out relays.forth_relayed streams.dest_mixed
            streams.few_zeros.1),
      subst (λ taken. Carried c.back.phase taken c.src_out) (Steps-taken backward s)
          (carried c.back c.forth.zeros c.src_out relays.back_relayed streams.src_mixed
            streams.few_zeros.0),
    )

resume-ended :
    (d : Direction) (done : Completion) (c c' : Connection)
    → resume d done c ≡ some c'
    → c.forth.phase ≡ ended
    → (c'.forth.phase ≡ ended) × (c'.forth.write_queue ≡ c.forth.write_queue)
unfolding resume resume_at start_write write_handler
resume-ended forward done c c' h e = ground arith
resume-ended backward done c c' h e = ground arith

Steps-ended :
    {c c' : Connection}
    → Steps c c'
    → c.forth.phase ≡ ended
    → (c'.forth.phase ≡ ended) × (c'.forth.write_queue ≡ c.forth.write_queue)
Steps-ended here e = (e, refl)
Steps-ended (next {c'} {c''} d done s f h) e =
    let (still, queue) = Steps-ended s e in
    let (after, same) = resume-ended d done c' c'' h still in (after, same ∙ queue)

Steps-trans : {c c' c'' : Connection} → Steps c c' → Steps c' c'' → Steps c c''
Steps-trans s here = s
Steps-trans s (next d done t f e) = next d done (Steps-trans s t) f e

failing :
    (bs : Bytes) (k : ℕ) (c c' : Connection)
    → Memory c
    → c.forth.phase ≡ writing bs
    → resume forward (failed k) c ≡ some c'
    → (b : Buffer) × (c'.forth.write_queue ≡ b ∷ []) × (c'.forth.phase ≡ ended)
unfolding resume resume_at
failing bs k c c' m e h =
    let (b, q) = subst (λ ph. Queue ph c.forth.write_queue) e m.forth_queue in
    (b, ground arith, ground arith)

-- Where, after any sequence of completions, a write of `run` is under way and fails, a buffer is
-- left in its queue and stays allocated after every further sequence of completions.
pub failed_write_leaks :
    {c c' c'' : Connection} (bs : Bytes) (k : ℕ)
    → Steps new_connection c
    → c.forth.phase ≡ writing bs
    → resume forward (failed k) c ≡ some c'
    → Steps c' c''
    → (b : Buffer) × (c''.forth.write_queue ≡ b ∷ []) × Memᴰ b c''.live
failed_write_leaks {c} {c'} {c''} bs k s e h later =
    let m = Steps-Memory new_connection-Memory s in
    let (b, q, stopped) = failing bs k c c' m e h in
    let (_, same) = Steps-ended later stopped in
    (
      b,
      same ∙ q,
      Owned-mem b c''.back.write_queue c''.live (
          subst (λ q. Owned q c''.back.write_queue c''.live) (same ∙ q)
            (Steps-Memory new_connection-Memory
              (Steps-trans (next forward (failed k) s tt h) later)).owned),
    )
