-- ===== src/Outbox.antt =====
-- events/outbox.py, with the default identifiers of `OutboxEventInput`.
pub mod Sequence
pub mod Flusher
pub mod Flushing
pub mod Frames
pub mod Queue
pub mod Draining
pub mod Fifo
pub mod Refinement
use Prim.Native.String.{◌++◌ as append}
use token_bank.Prelude.{
  ℕ, suc, ◌+◌, String, Bool, true, false, ◌||◌, Option, none, some, List, [], ◌∷◌, ◌++◌, ltb, ◌==◌,
  any, keep, if◌then◌else◌, str_eq,
}
use token_bank.Result.{integrity_error}
use token_bank.Exec.{Exec, pure, gets, raise_if, modify, ◌>>=◌, ◌>>◌}
use token_bank.Json.{Json}
use token_bank.World.{World}
use token_bank.Sql.{update_where, max_column}
use token_bank.Db.{Db, EventRow, EventStatus}
use token_bank.Session.{Session, read}
use token_bank.Redaction.{redact_sensitive_value}

pub record OutboxEventInput : Type 0 where
  pub source : String
  pub type : String
  pub subject : String
  pub body : Json
  pub run_id : Option String
  pub work_unit_id : Option String
  pub attempt_id : Option String
  pub assignment_id : Option String

unfoldable pub next_sequence : List EventRow → ℕ
unfolding max_column
next_sequence rows = suc (max_column (λ row. row.sequence) rows)

-- The primary key and the unique index of `event_outbox`.
unfoldable pub is_taken : EventRow → List EventRow → Bool
is_taken row rows =
    any (λ other. str_eq other.event_id row.event_id) rows
    || any (λ other. other.sequence == row.sequence) rows

unfoldable pub append_event : EventRow → Db → Db
append_event row db = record db { event_outbox = db.event_outbox ++ row ∷ [] }

abbrev pub set_db : (Db → Db) → Session → Session
set_db f s = record s { db = f s.db }

unfoldable pub insert_event : EventRow → Exec Session (Unit {0})
unfolding is_taken append_event
insert_event row = do
  clash ← gets (λ s. is_taken row s.db.event_outbox)
  raise_if clash integrity_error
  modify (set_db (append_event row))

unfoldable pub event_row : OutboxEventInput → String → String → ℕ → String → EventRow
event_row event event_id trace_id sequence now = record {
  event_id = event_id;
  source = event.source;
  type = event.type;
  subject = event.subject;
  run_id = event.run_id;
  work_unit_id = event.work_unit_id;
  attempt_id = event.attempt_id;
  assignment_id = event.assignment_id;
  trace_id = trace_id;
  span_id = none;
  status = EventStatus.pending;
  sequence = sequence;
  body_json = redact_sensitive_value event.body;
  created_at = now;
  written_at = none;
  failure_count = 0;
  last_error = none;
}

module _ (w : World) where
  -- The identifiers are drawn when the `OutboxEventInput` is built, in the order of its fields.
  unfoldable pub enqueue_event : OutboxEventInput → Exec Session String
  unfolding next_sequence insert_event event_row
  enqueue_event event = do
    trace_id ← read w.uuid_hex
    hex ← read w.uuid_hex
    let event_id = append "evt_" hex
    sequence ← gets (λ s. next_sequence s.db.event_outbox)
    now ← read w.clock_text
    insert_event (event_row event event_id trace_id sequence now)
    pure event_id

-- WHERE status = 'pending'
unfoldable pub is_pending : EventRow → Bool
is_pending row = elim row.status [ EventStatus.pending ↦ true | _ ↦ false ]

-- ORDER BY sequence
unfoldable pub insert_by_sequence : EventRow → List EventRow → List EventRow
insert_by_sequence row [] = row ∷ []
insert_by_sequence row (r ∷ rs) =
    let rest = insert_by_sequence row rs in
    if ltb r.sequence row.sequence then r ∷ rest else row ∷ r ∷ rs

unfoldable pub sort_by_sequence : List EventRow → List EventRow
unfolding insert_by_sequence
sort_by_sequence [] = []
sort_by_sequence (r ∷ rs) = insert_by_sequence r (sort_by_sequence rs)

-- LIMIT ?
unfoldable pub limit_rows : ℕ → List EventRow → List EventRow
limit_rows ℕ.zero rows = []
limit_rows (suc n) [] = []
limit_rows (suc n) (r ∷ rs) = r ∷ limit_rows n rs

unfoldable pub pending_events : Db → ℕ → List EventRow
unfolding is_pending sort_by_sequence limit_rows
pending_events db limit = limit_rows limit (sort_by_sequence (keep is_pending db.event_outbox))

unfoldable pub set_written : String → EventRow → EventRow
set_written now row = record row {
  status = EventStatus.written;
  written_at = some now;
  last_error = none;
}

unfoldable pub set_failed : String → EventRow → EventRow
set_failed error row = record row {
  status = EventStatus.failed;
  failure_count = row.failure_count + 1;
  last_error = some error;
}

abbrev pub has_event_id : String → EventRow → Bool
has_event_id event_id row = str_eq row.event_id event_id

unfoldable pub mark_written : String → String → Db → Db
unfolding update_where set_written
mark_written event_id now db = record db {
  event_outbox = update_where (has_event_id event_id) (set_written now) db.event_outbox;
}

unfoldable pub mark_failed : String → String → Db → Db
unfolding update_where set_failed
mark_failed event_id error db = record db {
  event_outbox = update_where (has_event_id event_id) (set_failed error) db.event_outbox;
}
