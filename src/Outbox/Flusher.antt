-- ===== src/Outbox/Flusher.antt =====
-- events/flusher.py and events/jsonl.py. The JSONL file is the list of the documents written to it,
-- one to a line. Whether an append raises `OSError` is for the file system to decide:
-- `append_error row` is the text of the error that the row meets. `clock` is read at each row that
-- is marked as written.
use token_bank.Prelude.{ℕ, suc, String, Option, none, some, List, [], ◌∷◌, ◌++◌}
use token_bank.Json.{Json, str, obj, fields, opt_str, nat}
use token_bank.Db.{Db, EventRow}
use token_bank.Outbox.{pending_events, mark_written, mark_failed}

pub record FlushResult : Type 0 where
  pub written : ℕ
  pub failed : ℕ

unfoldable pub event_row_to_document : EventRow → Json
event_row_to_document row = obj (
    fields (
      ("event_id", str row.event_id)
      ∷ ("source", str row.source)
      ∷ ("type", str row.type)
      ∷ ("subject", str row.subject)
      ∷ ("run_id", opt_str row.run_id)
      ∷ ("work_unit_id", opt_str row.work_unit_id)
      ∷ ("attempt_id", opt_str row.attempt_id)
      ∷ ("assignment_id", opt_str row.assignment_id)
      ∷ ("trace_id", str row.trace_id)
      ∷ ("span_id", opt_str row.span_id)
      ∷ ("sequence", nat row.sequence)
      ∷ ("body", row.body_json)
      ∷ ("created_at", str row.created_at)
      ∷ []))

pub record FlushState : Type 0 where
  pub db : Db
  pub lines : List Json
  pub result : FlushResult

-- the body of the loop, with the error that the append raised, if it did, and the time of day
unfoldable pub flush_outcome : EventRow → Option String → (ℕ → String) → FlushState → FlushState
unfolding mark_written mark_failed event_row_to_document
flush_outcome row none clock s = record {
  db = mark_written row.event_id (clock s.result.written) s.db;
  lines = s.lines ++ event_row_to_document row ∷ [];
  result = record s.result { written = suc s.result.written };
}
flush_outcome row (some error) clock s = record {
  db = mark_failed row.event_id error s.db;
  lines = s.lines;
  result = record s.result { failed = suc s.result.failed };
}

module _ (append_error : EventRow → Option String) (clock : ℕ → String) where
  unfoldable pub flush_row : EventRow → FlushState → FlushState
  unfolding flush_outcome
  flush_row row s = flush_outcome row (append_error row) clock s

  unfoldable pub flush_rows : List EventRow → FlushState → FlushState
  unfolding flush_row
  flush_rows [] s = s
  flush_rows (row ∷ rows) s = flush_rows rows (flush_row row s)

  unfoldable pub flush_pending_events : Db → List Json → ℕ → FlushState
  unfolding pending_events flush_rows
  flush_pending_events db lines limit =
      flush_rows (pending_events db limit)
        (record { db = db; lines = lines; result = record { written = 0; failed = 0 } })
