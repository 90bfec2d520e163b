-- ===== src/Port/Connection/Open.antt =====
-- Whether a connection's sockets are ever closed.
use book_filer_module_ssh.Prelude.{true, some, ◌≡◌, refl, arith}
use book_filer_module_ssh.Port.Connection.{
  Phase, greeting, reading, ended, writing, Direction, forward, backward, Connection, Completion,
  got, wrote, new_connection, half, write_handler, start_write, resume_at, resume,
}
use book_filer_module_ssh.Port.Connection.History.{Steps, here, next}

abbrev pub BothOpen : Connection → Type 0
BothOpen c = (c.src_open ≡ true) × (c.dest_open ≡ true)

resume_at-BothOpen :
    (ph : Phase) (d : Direction) (done : Completion) (c c' : Connection)
    → resume_at ph d done c ≡ some c'
    → BothOpen c
    → BothOpen c'
unfolding resume_at start_write write_handler
resume_at-BothOpen greeting forward wrote c c' h o = ground arith
resume_at-BothOpen greeting backward wrote c c' h o = ground arith
resume_at-BothOpen reading forward (got bs a) c c' h o = ground arith
resume_at-BothOpen reading backward (got bs a) c c' h o = ground arith
resume_at-BothOpen (writing bs) forward wrote c c' h o = ground arith
resume_at-BothOpen (writing bs) backward wrote c c' h o = ground arith
resume_at-BothOpen _ forward _ c c' h o = ground arith
resume_at-BothOpen _ backward _ c c' h o = ground arith

Steps-BothOpen : {c : Connection} → Steps new_connection c → BothOpen c
unfolding new_connection resume
Steps-BothOpen here = (refl, refl)
Steps-BothOpen (next {c'} {c''} d done s f e) =
    resume_at-BothOpen (half d c').phase d done c' c'' e (Steps-BothOpen s)

-- Where, after any sequence of completions, both coroutines have ended, both sockets are still
-- open, and every further completion leaves the connection as it is.
pub ended_sockets_stay_open :
    {c : Connection} (d : Direction) (done : Completion)
    → Steps new_connection c
    → c.forth.phase ≡ ended
    → c.back.phase ≡ ended
    → BothOpen c × (resume d done c ≡ some c)
unfolding resume resume_at
ended_sockets_stay_open forward done s e f = (Steps-BothOpen s, rw (e, resume, resume_at) refl)
ended_sockets_stay_open backward done s e f = (Steps-BothOpen s, rw (f, resume, resume_at) refl)
