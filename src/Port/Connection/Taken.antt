-- ===== src/Port/Connection/Taken.antt =====
-- The bytes that a completion brings to a direction.
use book_filer_module_ssh.Prelude.{some, [], ◌++◌, append-nil, ◌≡◌, arith}
use book_filer_module_ssh.Settings.{Bytes}
use book_filer_module_ssh.Port.Connection.{
  Phase, reading, Direction, forward, backward, Connection, Completion, got, half, write_handler,
  start_write, resume_at, resume,
}

-- What a direction reads when a completion of a direction comes: the bytes of a read that it waits
-- for, and otherwise nothing.
abbrev pub read_by : Direction → Direction → Phase → Completion → Bytes
read_by forward forward reading (got bs address) = bs
read_by backward backward reading (got bs address) = bs
read_by _ _ _ _ = []

resume_at-read_by :
    (ph : Phase) (d e : Direction) (done : Completion) (c c' : Connection)
    → resume_at ph e done c ≡ some c'
    → (half d c').taken ≡ (half d c).taken ++ read_by d e ph done
unfolding resume_at start_write write_handler
resume_at-read_by ph forward forward done c c' h = ground (arith, append-nil c.forth.taken)
resume_at-read_by ph forward backward done c c' h = ground (arith, append-nil c.forth.taken)
resume_at-read_by ph backward forward done c c' h = ground (arith, append-nil c.back.taken)
resume_at-read_by ph backward backward done c c' h = ground (arith, append-nil c.back.taken)

pub resume-read_by :
    (d e : Direction) (done : Completion) (c c' : Connection)
    → resume e done c ≡ some c'
    → (half d c').taken ≡ (half d c).taken ++ read_by d e (half e c).phase done
unfolding resume
resume-read_by d e done c c' h = resume_at-read_by (half e c).phase d e done c c' h
