-- ===== src/Port/Server/Running.antt =====
-- What the `run` of a forwarding server reads.
use book_filer_module_ssh.Prelude.{ℕ, none, ◌≡◌, arith}
use book_filer_module_ssh.Flow.{undefined}
use book_filer_module_ssh.Port.Server.{Server, run}

-- Without a number of threads, `run` stops where it reads it for its log, with the server as it was.
pub run-without-threads_num :
    {Address : Type 0} (n : ℕ) (s : Server Address)
    → s.server_state.threads_num ≡ none
    → run n s ≡ undefined s
unfolding run
run-without-threads_num n s e = ground arith
