-- ===== src/Scheduler/Results.antt =====
-- `submit_result` of scheduler/scheduler.py, with the late-result quarantine.
pub mod Stored
use Prim.Native.String.{◌++◌ as append}
use token_bank.Prelude.{
  String, Bool, true, false, not, ◌&&◌, ◌||◌, Option, none, some, ◌∷◌, if◌then◌else◌,
}
use token_bank.Exec.{Exec, pure, gets, ◌>>=◌, ◌>>◌}
use token_bank.Json.{Json}
use token_bank.World.{World}
use token_bank.Db.{AttemptStatus, AssignmentRow, AssignmentStatus, WorkUnitStatus}
use token_bank.Session.{Session, read, transaction}
use token_bank.Outbox.{enqueue_event}
use token_bank.Scheduler.Lifecycle.{update_work_unit_status}
use token_bank.Scheduler.Lease.{verify_lease_token, verify_lease_token_hash}
use token_bank.Scheduler.Tables.{
  is_assignment, find_attempt, assignment_for_worker, update_assignments, update_attempt,
  insert_result, insert_quarantine,
}
use token_bank.Scheduler.Leasing.{close_attempt}
unfoldable pub use Stored.*

module _ (w : World) where
  -- Scheduler._quarantine_late_result
  unfoldable pub quarantine_late_result : AssignmentRow → StoredResult → Exec Session (Unit {0})
  unfolding close_assignment close_attempt
  quarantine_late_result a r = do
    now ← read w.clock_text
    update_assignments (is_assignment a.assignment_id)
        (close_assignment AssignmentStatus.quarantined now)
    update_attempt a.attempt_id (close_attempt AttemptStatus.quarantined now)
    hex ← read w.uuid_hex
    insert_quarantine (record {
      quarantine_id = append "quar_" hex;
      result_envelope_id = r.result_envelope_id;
      work_unit_id = a.work_unit_id;
      attempt_id = a.attempt_id;
      assignment_id = a.assignment_id;
      reason = "newer_attempt_exists";
      body_json = r.body;
      created_at = now;
    })

  -- the branch of a result that is not late
  unfoldable pub complete_result : AssignmentRow → String → Exec Session (Unit {0})
  unfolding close_assignment close_attempt completed_event
  complete_result a now = do
    update_assignments (is_assignment a.assignment_id)
        (close_assignment AssignmentStatus.completed now)
    update_attempt a.attempt_id (close_attempt AttemptStatus.succeeded now)
    update_work_unit_status w a.work_unit_id WorkUnitStatus.succeeded "scheduler"
        (some "work_unit.succeeded")
    enqueue_event w (completed_event a)
    pure tt

  -- the branch on `late`, which gives the type of the last event
  unfoldable pub settle_result : Bool → AssignmentRow → StoredResult → String → Exec Session String
  unfolding quarantine_late_result complete_result
  settle_result true a r now = do quarantine_late_result a r; pure "result.quarantined"
  settle_result false a r now = do complete_result a now; pure "result.submitted"

  unfoldable pub result_write :
      Bool → AssignmentRow → StoredResult → String → Exec Session StoredResult
  unfolding result_row settle_result result_event
  result_write late a r now = transaction do
    insert_result (result_row a r now)
    event_type ← settle_result late a r now
    enqueue_event w (result_event event_type a r)
    pure r

  -- the hash, where one is given, else the raw token
  unfoldable pub verify_lease :
      AssignmentRow → Option String → Option String → Exec Session (Unit {0})
  verify_lease a lease_token (some hash) = verify_lease_token_hash a.lease_token_hash (some hash)
  verify_lease a lease_token none = verify_lease_token w a.lease_token_hash lease_token

  -- what `submit_result` has read and computed when its transaction begins
  unfoldable pub prepare_result :
      String
      → String
      → Option String
      → Option String
      → Json
      → Option ResultEnvelope
      → Exec Session PreparedResult
  unfolding verify_lease newer_attempt_exists validate_envelope stored_result
  prepare_result assignment_id worker_id lease_token lease_token_hash output envelope = do
    assignment ← assignment_for_worker assignment_id worker_id
    verify_lease assignment lease_token lease_token_hash
    attempt ← find_attempt assignment.attempt_id
    late ← gets (λ s.
        newer_attempt_exists attempt.work_unit_id attempt.attempt_number s.db.execution_attempts)
    validate_envelope envelope assignment
    stored ← stored_result w late assignment output envelope
    now ← read w.clock_text
    pure (record { late = late; assignment = assignment; stored = stored; now = now })

  unfoldable pub submit_result :
      String
      → String
      → Option String
      → Option String
      → Json
      → Option ResultEnvelope
      → Exec Session StoredResult
  unfolding prepare_result result_write
  submit_result assignment_id worker_id lease_token lease_token_hash output envelope = do
    p ← prepare_result assignment_id worker_id lease_token lease_token_hash output envelope
    result_write p.late p.assignment p.stored p.now
