-- ===== src/Scheduler/Leasing.antt =====
-- `accept_assignment`, `reject_assignment`, `progress_assignment` and `record_worker_heartbeat` of
-- scheduler/scheduler.py
use Prim.Native.String.{◌++◌ as append}
use token_bank.Prelude.{ℕ, String, Bool, true, false, not, Option, none, some, [], ◌∷◌}
use token_bank.Result.{lease_conflict}
use token_bank.Exec.{Exec, pure, raise_if, ◌>>=◌, ◌>>◌}
use token_bank.Json.{Json, str, obj, fields, nat}
use token_bank.World.{World}
use token_bank.Db.{AttemptRow, AttemptStatus, AssignmentRow, AssignmentStatus, WorkUnitStatus}
use token_bank.Session.{Session, read, transaction}
use token_bank.Outbox.{OutboxEventInput, enqueue_event}
use token_bank.Scheduler.Lifecycle.{update_work_unit_status}
use token_bank.Scheduler.Lease.{
  LeaseUpdate, lease_token_prefix, new_lease_token, conditional_assignment_update,
  verify_lease_token,
}
use token_bank.Scheduler.Tables.{
  is_assignment, assignment_for_worker, update_assignments, update_attempt, insert_health,
}
use token_bank.Scheduler.Assignments.{assignment_event}

unfoldable pub is_created : AssignmentStatus → Bool
is_created AssignmentStatus.created = true
is_created _ = false

-- started_at = COALESCE(started_at, ?)
unfoldable pub set_attempt_running : String → AttemptRow → AttemptRow
set_attempt_running now row = record row {
  status = AttemptStatus.running;
  started_at = elim row.started_at [ none ↦ some now | some t ↦ some t ];
}

-- status = ..., completed_at = ?
unfoldable pub close_attempt : AttemptStatus → String → AttemptRow → AttemptRow
close_attempt status now row = record row { status = status; completed_at = some now }

unfoldable pub set_assignment_rejected : String → AssignmentRow → AssignmentRow
set_assignment_rejected now row = record row {
  status = AssignmentStatus.rejected;
  updated_at = some now;
}

pub record Lease : Type 0 where
  pub assignment_id : String
  pub lease_token : String
  pub lease_version : ℕ
  pub lease_expires_at : String

pub record Progress : Type 0 where
  pub assignment_id : String
  pub lease_version : ℕ
  pub lease_expires_at : String

unfoldable pub accept_update : String → String → String → String → LeaseUpdate
accept_update expires_at token_hash prefix now = record {
  status = AssignmentStatus.accepted;
  lease_expires_at = some expires_at;
  lease_token_hash = some token_hash;
  lease_token_prefix = some prefix;
  accepted_at = some now;
  completed_at = none;
}

unfoldable pub progress_update : String → LeaseUpdate
progress_update expires_at = record {
  status = AssignmentStatus.running;
  lease_expires_at = some expires_at;
  lease_token_hash = none;
  lease_token_prefix = none;
  accepted_at = none;
  completed_at = none;
}

unfoldable pub accepted_event : AssignmentRow → String → ℕ → String → OutboxEventInput
unfolding assignment_event
accepted_event assignment worker_id lease_version prefix =
    assignment_event "assignment.accepted" assignment.assignment_id assignment.work_unit_id
      assignment.attempt_id
      (obj (
        fields (
          ("assignment_id", str assignment.assignment_id)
          ∷ ("worker_id", str worker_id)
          ∷ ("lease_version", nat lease_version)
          ∷ ("lease_token_prefix", str prefix)
          ∷ [])))

unfoldable pub rejected_event : AssignmentRow → String → OutboxEventInput
unfolding assignment_event
rejected_event assignment worker_id =
    assignment_event "assignment.rejected" assignment.assignment_id assignment.work_unit_id
      assignment.attempt_id
      (obj (
        fields
          (("assignment_id", str assignment.assignment_id) ∷ ("worker_id", str worker_id) ∷ [])))

unfoldable pub progress_event : AssignmentRow → String → ℕ → OutboxEventInput
unfolding assignment_event
progress_event assignment worker_id lease_version =
    assignment_event "assignment.progress" assignment.assignment_id assignment.work_unit_id
      assignment.attempt_id
      (obj (
        fields (
          ("assignment_id", str assignment.assignment_id)
          ∷ ("worker_id", str worker_id)
          ∷ ("lease_version", nat lease_version)
          ∷ [])))

module _ (w : World) where
  -- what follows the lease update in the transaction of `accept_assignment`
  unfoldable pub accept_effects :
      AssignmentRow → String → String → String → AssignmentRow → Exec Session AssignmentRow
  unfolding set_attempt_running accepted_event
  accept_effects assignment worker_id prefix now updated = do
    update_attempt assignment.attempt_id (set_attempt_running now)
    update_work_unit_status w assignment.work_unit_id WorkUnitStatus.running "scheduler"
        (some "work_unit.running")
    enqueue_event w (accepted_event assignment worker_id updated.lease_version prefix)
    pure updated

  -- the transaction, for the row that was read before it began
  unfoldable pub accept_write :
      AssignmentRow → String → ℕ → String → String → String → Exec Session AssignmentRow
  unfolding lease_token_prefix accept_update accept_effects
  accept_write assignment worker_id expected_lease_version raw_token expires_at now =
      let prefix = lease_token_prefix raw_token in
      let u = accept_update expires_at (w.lease_digest raw_token) prefix now in
      transaction (
        conditional_assignment_update w assignment.assignment_id expected_lease_version u
        >>= accept_effects assignment worker_id prefix now)

  unfoldable pub accept_assignment : String → String → ℕ → ℕ → Exec Session Lease
  unfolding is_created new_lease_token accept_write
  accept_assignment assignment_id worker_id expected_lease_version lease_duration_ms = do
    assignment ← assignment_for_worker assignment_id worker_id
    raise_if (not (is_created assignment.status)) lease_conflict
    raw_token ← new_lease_token w
    expires_at ← read (λ i. w.clock_after i lease_duration_ms)
    now ← read w.clock_text
    updated ← accept_write assignment worker_id expected_lease_version raw_token expires_at now
    pure (record {
      assignment_id = assignment_id;
      lease_token = raw_token;
      lease_version = updated.lease_version;
      lease_expires_at = expires_at;
    })

  unfoldable pub reject_assignment : String → String → Exec Session (Unit {0})
  unfolding set_assignment_rejected close_attempt rejected_event
  reject_assignment assignment_id worker_id = do
    assignment ← assignment_for_worker assignment_id worker_id
    now ← read w.clock_text
    transaction do
      update_assignments (is_assignment assignment_id) (set_assignment_rejected now)
      update_attempt assignment.attempt_id (close_attempt AttemptStatus.failed now)
      enqueue_event w (rejected_event assignment worker_id)
      pure tt

  unfoldable pub progress_write : AssignmentRow → String → ℕ → String → Exec Session AssignmentRow
  unfolding progress_update progress_event
  progress_write assignment worker_id expected_lease_version expires_at = transaction do
    updated ←
        conditional_assignment_update w assignment.assignment_id expected_lease_version
          (progress_update expires_at)
    enqueue_event w (progress_event assignment worker_id updated.lease_version)
    pure updated

  unfoldable pub progress_assignment :
      String → String → Option String → ℕ → ℕ → Exec Session Progress
  unfolding progress_write
  progress_assignment assignment_id worker_id lease_token expected_lease_version lease_duration_ms =
      do
        assignment ← assignment_for_worker assignment_id worker_id
        verify_lease_token w assignment.lease_token_hash lease_token
        expires_at ← read (λ i. w.clock_after i lease_duration_ms)
        updated ← progress_write assignment worker_id expected_lease_version expires_at
        pure (record {
          assignment_id = assignment_id;
          lease_version = updated.lease_version;
          lease_expires_at = expires_at;
        })

  unfoldable pub health_body : String → String → Json
  health_body worker_id status =
      obj (fields (("worker_id", str worker_id) ∷ ("status", str status) ∷ []))

  unfoldable pub heartbeat_event : String → String → OutboxEventInput
  unfolding health_body
  heartbeat_event worker_id status = record {
    source = "tokenbank.scheduler";
    type = "worker.heartbeat";
    subject = append "workers/" worker_id;
    body = health_body worker_id status;
    run_id = none;
    work_unit_id = none;
    attempt_id = none;
    assignment_id = none;
  }

  unfoldable pub record_worker_heartbeat : String → String → Exec Session (Unit {0})
  unfolding heartbeat_event
  record_worker_heartbeat worker_id status = do
    now ← read w.clock_text
    transaction do
      hex ← read w.uuid_hex
      insert_health (record {
        snapshot_id = append "whs_" hex;
        worker_id = worker_id;
        status = status;
        body_json = health_body worker_id status;
        captured_at = now;
      })
      enqueue_event w (heartbeat_event worker_id status)
      pure tt
