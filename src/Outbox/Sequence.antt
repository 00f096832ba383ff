-- ===== src/Outbox/Sequence.antt =====
-- What `enqueue_event` may do to a database: nothing, or append one new pending row that bears the
-- next sequence number.
use Prim.Native.String.{◌++◌ as append}
use token_bank.Prelude.{suc, ◌≡◌, refl, false, List, arith, any, Bool-cases, inl, inr}
use token_bank.Json.{Json}
use token_bank.Exec.{pure, ◌>>=◌}
use token_bank.Exec.Keeps.{IsPreorder}
use token_bank.World.{World}
use token_bank.Db.{Db, EventRow, EventStatus}
use token_bank.Session.{Session, read}
use token_bank.Session.Moves.{Moves, Moves-pure, bind_at}
use token_bank.Redaction.{redact_sensitive_value}
use token_bank.Outbox.{
  OutboxEventInput, next_sequence, is_taken, append_event, insert_event, event_row, enqueue_event,
  has_event_id,
}

pub record IsNewEvent (row : EventRow) (rows : List EventRow) : Type 0 where
  pub numbered : row.sequence ≡ next_sequence rows
  pub unused : any (has_event_id row.event_id) rows ≡ false
  pub is_pending : row.status ≡ EventStatus.pending
  pub body : Json
  pub redacted : row.body_json ≡ redact_sensitive_value body

-- the row that `enqueue_event` builds in a state
unfoldable pub event_at : World → OutboxEventInput → Session → EventRow
unfolding event_row next_sequence
event_at w event s =
    event_row event (append "evt_" (w.uuid_hex (suc s.reads))) (w.uuid_hex s.reads)
      (next_sequence s.db.event_outbox) (w.clock_text (suc (suc s.reads)))

event_at-IsNewEvent :
    (w : World) (event : OutboxEventInput) (s : Session)
    → is_taken (event_at w event s) s.db.event_outbox ≡ false
    → IsNewEvent (event_at w event s) s.db.event_outbox
unfolding event_at is_taken
event_at-IsNewEvent w event s h = record {
  numbered = refl;
  unused = ground arith;
  is_pending = refl;
  body = event.body;
  redacted = refl;
}

module _ {R : Db → Db → Type 0} (p : IsPreorder R)
    (new_event : (db : Db) (row : EventRow)
      → IsNewEvent row db.event_outbox
      → R db (append_event row db)) where
  insert_event_at :
      (row : EventRow) (s : Session)
      → (is_taken row s.db.event_outbox ≡ false → R s.db (append_event row s.db))
      → R s.db (insert_event row s).1.db
  unfolding insert_event ◌>>=◌
  insert_event_at row s h = elim (Bool-cases (is_taken row s.db.event_outbox)) [
    | inl clash ↦ rw clash (p.same s.db)
    | inr free ↦ rw free (h free)
  ]

  pub Moves-enqueue_event : (w : World) (event : OutboxEventInput) → Moves R (enqueue_event w event)
  unfolding enqueue_event ◌>>=◌ read event_at
  Moves-enqueue_event w event = record {
    at = λ s.
        let row = event_at w event s in
        let later : Session = record s { reads = suc (suc (suc s.reads)) } in
        bind_at p (insert_event row) (λ _. pure row.event_id) later
          (insert_event_at row later
            (λ free. new_event s.db row (event_at-IsNewEvent w event s free)))
          (λ _. Moves-pure p row.event_id);
  }
