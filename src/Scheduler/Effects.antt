-- ===== src/Scheduler/Effects.antt =====
-- What the operations of the scheduler may do to the database, as a list of effects on its tables:
-- a relation that is a preorder and allows each of them holds across every operation.
pub mod Primitives
pub mod Operations
pub mod Submission
pub mod Scheduling
pub mod Serving
use token_bank.Prelude.{ℕ, ◌+◌, String, ◌≡◌, false, some}
use token_bank.Exec.Keeps.{IsPreorder}
use token_bank.Sql.{fetchone, update_where}
use token_bank.Db.{
  Db, WorkUnitRow, AttemptRow, AssignmentRow, ResultRow, QuarantineRow, HealthRow, EventRow,
}
use token_bank.Outbox.{append_event}
use token_bank.Outbox.Sequence.{IsNewEvent}
use token_bank.Scheduler.Tables.{
  is_work_unit, is_attempt, is_assignment, refuses_attempt, append_attempt, refuses_assignment,
  append_assignment, refuses_result, append_result, refuses_quarantine, append_quarantine,
  refuses_health, append_health,
}
use token_bank.Scheduler.Lease.{LeaseUpdate, holds_version, set_lease}
use token_bank.Scheduler.Attempts.{next_attempt_number}

-- the columns of an attempt that no operation writes
pub record SameAttempt (a b : AttemptRow) : Type 0 where
  pub attempt_id : a.attempt_id ≡ b.attempt_id
  pub work_unit_id : a.work_unit_id ≡ b.work_unit_id
  pub route_plan_id : a.route_plan_id ≡ b.route_plan_id
  pub policy_decision_id : a.policy_decision_id ≡ b.policy_decision_id
  pub attempt_number : a.attempt_number ≡ b.attempt_number
  pub created_at : a.created_at ≡ b.created_at

-- the columns of an assignment that no operation writes
pub record SameAssignment (a b : AssignmentRow) : Type 0 where
  pub assignment_id : a.assignment_id ≡ b.assignment_id
  pub attempt_id : a.attempt_id ≡ b.attempt_id
  pub work_unit_id : a.work_unit_id ≡ b.work_unit_id
  pub worker_id : a.worker_id ≡ b.worker_id

-- and those that only a lease update writes
pub record SameLease (a b : AssignmentRow) : Type 0 where
  pub same : SameAssignment a b
  pub lease_version : a.lease_version ≡ b.lease_version
  pub lease_token_hash : a.lease_token_hash ≡ b.lease_token_hash

-- a row for an attempt that is there, of its Work Unit and not leased yet
pub record IsNewAssignment (row : AssignmentRow) (db : Db) : Type 0 where
  pub accepted : refuses_assignment row db ≡ false
  pub attempt : AttemptRow
  pub found : fetchone (is_attempt row.attempt_id) db.execution_attempts ≡ some attempt
  pub of_attempt : row.work_unit_id ≡ attempt.work_unit_id
  pub unleased : row.lease_version ≡ 0

pub record IsNewAttempt (row : AttemptRow) (db : Db) : Type 0 where
  pub accepted : refuses_attempt row db ≡ false
  pub numbered : row.attempt_number ≡ next_attempt_number row.work_unit_id db.execution_attempts

pub record Allows (R : Db → Db → Type 0) : Type 0 where
  pub preorder : IsPreorder R
  pub new_event :
      (db : Db) (row : EventRow) → IsNewEvent row db.event_outbox → R db (append_event row db)
  pub new_attempt :
      (db : Db) (row : AttemptRow) → IsNewAttempt row db → R db (append_attempt row db)
  pub new_assignment :
      (db : Db) (row : AssignmentRow) → IsNewAssignment row db → R db (append_assignment row db)
  pub new_result :
      (db : Db) (row : ResultRow) → refuses_result row db ≡ false → R db (append_result row db)
  pub new_quarantine :
      (db : Db) (row : QuarantineRow)
      → refuses_quarantine row db ≡ false
      → R db (append_quarantine row db)
  pub new_health :
      (db : Db) (row : HealthRow) → refuses_health row db ≡ false → R db (append_health row db)
  pub set_work_unit :
      (db : Db) (id : String) (f : WorkUnitRow → WorkUnitRow)
      → ((row : WorkUnitRow) → row.work_unit_id ≡ (f row).work_unit_id)
      → R db (record db { work_units = update_where (is_work_unit id) f db.work_units })
  pub set_attempt :
      (db : Db) (id : String) (f : AttemptRow → AttemptRow)
      → ((row : AttemptRow) → SameAttempt row (f row))
      → R db
          (record db { execution_attempts = update_where (is_attempt id) f db.execution_attempts })
  pub set_assignment :
      (db : Db) (id : String) (f : AssignmentRow → AssignmentRow)
      → ((row : AssignmentRow) → SameLease row (f row))
      → R db (record db { assignments = update_where (is_assignment id) f db.assignments })
  pub renew :
      (db : Db) (id : String) (version : ℕ) (u : LeaseUpdate) (now : String)
      (current : AssignmentRow)
      → fetchone (is_assignment id) db.assignments ≡ some current
      → R db (record db {
        assignments =
            update_where
              (holds_version id version)
              (set_lease u (current.lease_version + 1) now)
              db.assignments;
      })
