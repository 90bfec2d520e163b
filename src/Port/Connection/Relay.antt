-- ===== src/Port/Connection/Relay.antt =====
-- The bytes that a direction takes and gives.
use mathlib.Core.Path.{subst}
use mathlib.Core.Option.{some-injective}
use book_filer_module_ssh.Prelude.{
  ℕ, some, [], ◌++◌, append-nil, append_assoc, take, drop, take-append-drop, ◌≡◌, refl, sym, ◌∙◌,
  ap, arith,
}
use book_filer_module_ssh.Settings.{Bytes}
use book_filer_module_ssh.Port.Connection.{
  Phase, greeting, reading, ended, writing, Direction, forward, backward, Half, Connection,
  Completion, got, sent_some, wrote, failed, new_connection, half, write_handler, start_write,
  resume_at, resume,
}

-- What was taken is what was given, and then what is being written. A direction that ended may have
-- lost a rest.
abbrev pub Relayed : Phase → Bytes → Bytes → Type 0
Relayed greeting taken given = (taken ≡ []) × (given ≡ [])
Relayed reading taken given = taken ≡ given
Relayed (writing bs) taken given = taken ≡ given ++ bs
Relayed ended taken given = (lost : Bytes) × (taken ≡ given ++ lost)

abbrev pub RelayedHalf : Half → Type 0
RelayedHalf h = Relayed h.phase h.taken h.given

pub record Relays (c : Connection) : Type 0 where
  pub forth_relayed : RelayedHalf c.forth
  pub back_relayed : RelayedHalf c.back

at_phase : {ph : Phase} (h : Half) → h.phase ≡ ph → RelayedHalf h → Relayed ph h.taken h.given
at_phase h e r = subst (λ ph. Relayed ph h.taken h.given) e r

-- A write that failed after `k` bytes.
cut :
    (k : ℕ) (bs : Bytes) (h : Half)
    → h.phase ≡ writing bs
    → RelayedHalf h
    → h.taken ≡ (h.given ++ take k bs) ++ drop k bs
cut k bs h e r =
    at_phase h e r
    ∙ (ap (◌++◌ h.given) (sym (take-append-drop k bs))
        ∙ sym (append_assoc h.given (take k bs) (drop k bs)))

resume_at-Relays :
    (ph : Phase) (d : Direction) (done : Completion) (c c' : Connection)
    → (half d c).phase ≡ ph
    → resume_at ph d done c ≡ some c'
    → Relays c
    → Relays c'
unfolding resume_at start_write write_handler
resume_at-Relays greeting forward wrote c c' e h r = ground arith
resume_at-Relays greeting backward wrote c c' e h r = ground arith
resume_at-Relays greeting forward (failed k) c c' e h r =
    subst Relays (some-injective _ _ h)
      (record { forth_relayed = ([], ground arith); back_relayed = r.back_relayed })
resume_at-Relays greeting backward (failed k) c c' e h r =
    subst Relays (some-injective _ _ h)
      (record { forth_relayed = r.forth_relayed; back_relayed = ([], ground arith) })
resume_at-Relays greeting forward (sent_some k) c c' e h r = ground arith
resume_at-Relays greeting backward (sent_some k) c c' e h r = ground arith
resume_at-Relays greeting d (got bs a) c c' e h r = subst Relays (some-injective _ _ h) r
resume_at-Relays reading forward (got bs a) c c' e h r = ground arith
resume_at-Relays reading backward (got bs a) c c' e h r = ground arith
resume_at-Relays reading forward (failed k) c c' e h r =
    subst Relays (some-injective _ _ h) (record {
      forth_relayed = ([], at_phase c.forth e r.forth_relayed ∙ sym (append-nil c.forth.given));
      back_relayed = r.back_relayed;
    })
resume_at-Relays reading backward (failed k) c c' e h r =
    subst Relays (some-injective _ _ h) (record {
      forth_relayed = r.forth_relayed;
      back_relayed = ([], at_phase c.back e r.back_relayed ∙ sym (append-nil c.back.given));
    })
resume_at-Relays reading d (sent_some k) c c' e h r = subst Relays (some-injective _ _ h) r
resume_at-Relays reading d wrote c c' e h r = subst Relays (some-injective _ _ h) r
resume_at-Relays (writing bs) forward wrote c c' e h r = ground arith
resume_at-Relays (writing bs) backward wrote c c' e h r = ground arith
resume_at-Relays (writing bs) forward (failed k) c c' e h r =
    subst Relays (some-injective _ _ h) (record {
      forth_relayed = (drop k bs, cut k bs c.forth e r.forth_relayed);
      back_relayed = r.back_relayed;
    })
resume_at-Relays (writing bs) backward (failed k) c c' e h r =
    subst Relays (some-injective _ _ h) (record {
      forth_relayed = r.forth_relayed;
      back_relayed = (drop k bs, cut k bs c.back e r.back_relayed);
    })
resume_at-Relays (writing bs) forward (sent_some k) c c' e h r =
    subst Relays (some-injective _ _ h)
      (record { forth_relayed = cut k bs c.forth e r.forth_relayed; back_relayed = r.back_relayed })
resume_at-Relays (writing bs) backward (sent_some k) c c' e h r =
    subst Relays (some-injective _ _ h)
      (record { forth_relayed = r.forth_relayed; back_relayed = cut k bs c.back e r.back_relayed })
resume_at-Relays (writing bs) d (got cs a) c c' e h r = subst Relays (some-injective _ _ h) r
resume_at-Relays ended d (sent_some k) c c' e h r = subst Relays (some-injective _ _ h) r
resume_at-Relays ended d wrote c c' e h r = subst Relays (some-injective _ _ h) r
resume_at-Relays ended d (failed k) c c' e h r = subst Relays (some-injective _ _ h) r
resume_at-Relays ended d (got bs a) c c' e h r = subst Relays (some-injective _ _ h) r

pub new_connection-Relays : Relays new_connection
unfolding new_connection
new_connection-Relays = record { forth_relayed = (refl, refl); back_relayed = (refl, refl) }

pub resume-Relays :
    (d : Direction) (done : Completion) (c c' : Connection)
    → resume d done c ≡ some c'
    → Relays c
    → Relays c'
unfolding resume
resume-Relays d done c c' h r = resume_at-Relays (half d c).phase d done c c' refl h r
