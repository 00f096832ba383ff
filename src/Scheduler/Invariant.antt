-- ===== src/Scheduler/Invariant.antt =====
-- What holds of the database between two calls, and how each effect of the scheduler keeps it.
pub mod Kept
use token_bank.Prelude.{String, ◌≡◌, Bool, true, ◌&&◌, List, any, keep, All, str_eq}
use token_bank.Json.{Json}
use token_bank.Sql.Rows.{Distinct, Numbered}
use token_bank.Db.{Db, AttemptRow, AssignmentRow, EventRow}
use token_bank.Redaction.{redact_sensitive_value}
use token_bank.Scheduler.Attempts.{of_work_unit}

abbrev pub attempt_key : AttemptRow → String
attempt_key row = row.attempt_id

abbrev pub assignment_key : AssignmentRow → String
assignment_key row = row.assignment_id

-- the attempt of an assignment, by its key and its Work Unit
abbrev pub is_attempt_of : AssignmentRow → AttemptRow → Bool
is_attempt_of a t = str_eq t.attempt_id a.attempt_id && str_eq t.work_unit_id a.work_unit_id

abbrev pub HasAttempt : List AttemptRow → AssignmentRow → Type 0
HasAttempt attempts a = any (is_attempt_of a) attempts ≡ true

-- The body went through `redact_sensitive_value`.
abbrev pub IsRedacted : EventRow → Type 0
IsRedacted row = (body : Json) × (row.body_json ≡ redact_sensitive_value body)

pub record Inv (db : Db) : Type 0 where
  pub attempt_ids : Distinct attempt_key db.execution_attempts
  pub assignment_ids : Distinct assignment_key db.assignments
  pub linked : All (HasAttempt db.execution_attempts) db.assignments
  pub attempt_numbers :
      (id : String)
      → Numbered (λ row. row.attempt_number) 1 (keep (of_work_unit id) db.execution_attempts)
  pub sequences : Numbered (λ row. row.sequence) 1 db.event_outbox
  pub redacted : All IsRedacted db.event_outbox
