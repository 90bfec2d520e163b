-- ===== src/Tests/Port.antt =====
-- The theorems about port forwarding at concrete inputs.
use mathlib.Core.List.{Memᴰ}
use book_filer_module_ssh.Prelude.{
  false, some, [], ◌∷◌, ◌++◌, replicate, length, ◌*◌, ◌≤◌, ◌≡◌, refl, arith,
}
use book_filer_module_ssh.Settings.{Bytes}
use book_filer_module_ssh.Port.Connection.{
  Buffer, greeting, writing, reading, ended, forward, backward, Connection, got, wrote, failed,
  sent_some, write_handler, deallocate, new_connection, read_buffer_length, start_write, resume_at,
  resume,
}
use book_filer_module_ssh.Port.Connection.Memory.{Memory}
use book_filer_module_ssh.Port.Connection.History.{
  Steps, here, next, history-Memory, failed_write_leaks, Carried, reads, history-Carried,
}
use book_filer_module_ssh.Port.Connection.Open.{BothOpen, ended_sockets_stay_open}
use book_filer_module_ssh.Port.Connection.Bounds.{total_size, allocated_bounds}
use book_filer_module_ssh.Port.Listener.{connect_failed, accepted, new_listener, run}
use book_filer_module_ssh.Port.Listener.Ids.{Accepted, run-Accepted}

abbrev bytes : Bytes
bytes = 65 ∷ 66 ∷ []

-- The connection when the greeting of `run` is out.
abbrev greeted : Connection
greeted = record new_connection {
  forth = record (new_connection.forth) { phase = reading; zeros = 512 };
  src_out = new_connection.src_out ++ replicate 512 0;
}

-- The connection when `run` writes two bytes to the destination.
abbrev relaying : Connection
relaying = start_write forward bytes 100 greeted

to_relaying : Steps new_connection relaying
unfolding resume resume_at new_connection
to_relaying =
    next {c' = greeted} {c'' = relaying} forward (got bytes 100)
      (next {c' = new_connection} {c'' = greeted} forward wrote here tt refl) tt refl

-- And when that write has failed after one byte.
abbrev broken : Connection
broken = record relaying {
  forth = record (relaying.forth) { phase = ended; given = relaying.forth.given ++ 65 ∷ [] };
  dest_out = relaying.dest_out ++ 65 ∷ [];
}

history-Memory_example :
    Memory relaying × ((c : Connection) × (resume forward wrote relaying ≡ some c) × Memory c)
history-Memory_example = history-Memory forward wrote to_relaying tt

failed_write_leaks_example : (b : Buffer) × (broken.forth.write_queue ≡ b ∷ []) × Memᴰ b broken.live
unfolding start_write resume resume_at
failed_write_leaks_example =
    failed_write_leaks {c = relaying} {c' = broken} {c'' = broken} bytes 1 to_relaying refl refl
      here

allocated_bounds_example :
    (length relaying.live ≤ 2) × (total_size relaying.live ≤ 2 * read_buffer_length)
unfolding to_relaying
allocated_bounds_example = allocated_bounds to_relaying (omega arith, (tt, tt))

run-Accepted_example :
    Accepted false (run (λ call. false) (accepted ∷ connect_failed ∷ accepted ∷ []) new_listener) 2
run-Accepted_example =
    run-Accepted (λ call. false) (accepted ∷ connect_failed ∷ accepted ∷ []) (omega arith)

-- The connection when both reads have failed, each after its greeting.
abbrev both_ended : Connection
both_ended = record new_connection {
  forth = record (new_connection.forth) { phase = ended; zeros = 512 };
  back = record (new_connection.back) { phase = ended };
  src_out = new_connection.src_out ++ replicate 512 0;
}

to_both_ended : Steps new_connection both_ended
unfolding resume resume_at new_connection
to_both_ended =
    next {c' = record greeted { forth = record (greeted.forth) { phase = ended } }}
      {c'' = both_ended} backward (failed 0)
      (next {c' = greeted}
        {c'' = record greeted { forth = record (greeted.forth) { phase = ended } }} forward
        (failed 0) (next {c' = new_connection} {c'' = greeted} forward wrote here tt refl) tt refl)
      tt refl

ended_sockets_stay_open_example :
    BothOpen both_ended × (resume forward wrote both_ended ≡ some both_ended)
ended_sockets_stay_open_example = ended_sockets_stay_open forward wrote to_both_ended refl refl

-- The connection when a byte of the chunk is out, then a byte of the greeting of `run2`, and then the
-- rest of the chunk.
abbrev one_out : Connection
one_out = record relaying {
  forth = record (relaying.forth) { phase = writing (66 ∷ []); given = 65 ∷ [] };
  dest_out = 65 ∷ [];
}

abbrev greeted_between : Connection
greeted_between = record one_out {
  back = record (new_connection.back) { zeros = 1 };
  dest_out = 65 ∷ 0 ∷ [];
}

abbrev mixed : Connection
mixed = record greeted_between {
  forth = record (relaying.forth) { phase = reading; write_queue = []; given = bytes };
  live = [];
  dest_out = 65 ∷ 0 ∷ 66 ∷ [];
}

to_mixed : Steps new_connection mixed
unfolding to_relaying resume resume_at start_write write_handler deallocate new_connection
to_mixed =
    next {c' = greeted_between} {c'' = mixed} forward wrote
      (next {c' = one_out} {c'' = greeted_between} backward (sent_some 1)
        (next {c' = relaying} {c'' = one_out} forward (sent_some 1) to_relaying tt refl) tt refl)
      tt refl

history-Carried_example :
    Carried reading (reads forward to_mixed) (65 ∷ 0 ∷ 66 ∷ [])
    × Carried greeting (reads backward to_mixed) (replicate 512 0)
unfolding to_mixed start_write new_connection
history-Carried_example = history-Carried to_mixed
