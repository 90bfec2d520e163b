-- ===== src/Threads/Calls.antt =====
-- Calls of threads as a sequence, and what they do when each is made without the others.
use book_filer_module_ssh.Prelude.{
  update, String, none, some, List, [], ◌∷◌, ◌++◌, ◌==◌, append_assoc, append-nil, ℕ, ◌≡◌, arith,
  if◌then◌else◌,
}
use book_filer_module_ssh.Log.{Printer}
use book_filer_module_ssh.Log.Call.{insertions}
use book_filer_module_ssh.Module.{Thread}
use book_filer_module_ssh.Threads.{
  Task, logs, appends, waits, notifies, prints, Position, outside, inserting, appending, emplacing,
  asleep, woken, finding, printing, System,
}

-- Calls in the order in which they were begun.
abbrev pub Calls : Type 0
Calls = List (Thread × Task)

-- Those of one thread.
unfoldable pub own : Thread → Calls → List Task
own t [] = []
own t ((u, call) ∷ calls) = if u == t then call ∷ own t calls else own t calls

abbrev pub text_of : Printer → Thread → Task → List String
text_of printer t (logs c) = insertions printer t c
text_of printer t (appends c) = []
text_of printer t (waits handle) = []
text_of printer t (notifies i handle) = []
text_of printer t (prints ts) = []

abbrev pub connection_of : Task → List ℕ
connection_of (appends c) = c ∷ []
connection_of (logs c) = []
connection_of (waits handle) = []
connection_of (notifies i handle) = []
connection_of (prints ts) = []

-- What the calls insert and append when each is made without the others.
unfoldable pub texts : Printer → Calls → List String
texts printer [] = []
texts printer ((t, call) ∷ calls) = text_of printer t call ++ texts printer calls

unfoldable pub connections : Calls → List ℕ
connections [] = []
connections ((t, call) ∷ calls) = connection_of call ++ connections calls

-- What the thread that holds the mutex has yet to insert, and to append.
abbrev pub left_text : Position → List String
left_text (inserting ts) = ts
left_text outside = []
left_text (appending c) = []
left_text (emplacing handle) = []
left_text (asleep handle) = []
left_text woken = []
left_text (finding i handle) = []
left_text (printing ts) = []

abbrev pub left_connection : Position → List ℕ
left_connection (appending c) = c ∷ []
left_connection outside = []
left_connection (inserting ts) = []
left_connection (emplacing handle) = []
left_connection (asleep handle) = []
left_connection woken = []
left_connection (finding i handle) = []
left_connection (printing ts) = []

unfoldable pub unwritten : System → List String
unwritten s = elim s.mutex [ none ↦ [] | some t ↦ left_text (s.position t) ]

unfoldable pub unappended : System → List ℕ
unappended s = elim s.mutex [ none ↦ [] | some t ↦ left_connection (s.position t) ]

pub own-append :
    (t u : Thread) (call : Task) (calls : Calls)
    → own t (calls ++ (u, call) ∷ []) ≡ own t calls ++ (if u == t then call ∷ [] else [])
unfolding own
own-append t u call [] = ground arith
own-append t u call ((v, first) ∷ calls) = ground (arith, own-append t u call calls)

pub own-begin :
    (t u : Thread) (call : Task) (rest : List Task) (tasks : Thread → List Task) (calls : Calls)
    → tasks t ≡ call ∷ rest
    → own u (calls ++ (t, call) ∷ []) ++ update tasks t rest u ≡ own u calls ++ tasks u
own-begin t u call rest tasks calls eq = ground (
  arith,
  own-append u t call calls,
  append_assoc (own u calls) (call ∷ []) rest,
  append-nil (own u calls),
)

pub connections-append :
    (t : Thread) (call : Task) (calls : Calls)
    → connections (calls ++ (t, call) ∷ []) ≡ connections calls ++ connection_of call
unfolding connections
connections-append t call [] = append-nil (connection_of call)
connections-append t call ((u, first) ∷ calls) =
    simp (connections-append t call calls, append_assoc)

module _ (printer : Printer) where
  pub texts-append :
      (t : Thread) (call : Task) (calls : Calls)
      → texts printer (calls ++ (t, call) ∷ []) ≡ texts printer calls ++ text_of printer t call
  unfolding texts
  texts-append t call [] = append-nil (text_of printer t call)
  texts-append t call ((u, first) ∷ calls) = simp (texts-append t call calls, append_assoc)
