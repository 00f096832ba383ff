-- ===== src/Scheduler/Attempts.antt =====
-- scheduler/retry_fallback.py, and `create_attempt`, `schedule_retry` and `schedule_fallback` of
-- scheduler/scheduler.py.
use Prim.Native.String.{◌++◌ as append}
use token_bank.Prelude.{ℕ, suc, String, Bool, none, some, List, [], ◌∷◌, keep, str_eq}
use token_bank.Exec.{Exec, pure, gets, ◌>>=◌, ◌>>◌}
use token_bank.Json.{Json, str, obj, fields, nat}
use token_bank.World.{World}
use token_bank.Sql.{max_column}
use token_bank.Db.{AttemptRow, AttemptStatus}
use token_bank.Session.{Session, read, transaction}
use token_bank.Outbox.{OutboxEventInput, enqueue_event}
use token_bank.Scheduler.Tables.{insert_attempt, find_attempt}

abbrev pub of_work_unit : String → AttemptRow → Bool
of_work_unit id row = str_eq row.work_unit_id id

unfoldable pub next_attempt_number : String → List AttemptRow → ℕ
unfolding max_column
next_attempt_number work_unit_id rows =
    suc (max_column (λ row. row.attempt_number) (keep (of_work_unit work_unit_id) rows))

unfoldable pub attempt_status_text : AttemptStatus → String
attempt_status_text AttemptStatus.created = "created"
attempt_status_text AttemptStatus.scheduled = "scheduled"
attempt_status_text AttemptStatus.assigned = "assigned"
attempt_status_text AttemptStatus.running = "running"
attempt_status_text AttemptStatus.succeeded = "succeeded"
attempt_status_text AttemptStatus.failed = "failed"
attempt_status_text AttemptStatus.quarantined = "quarantined"
attempt_status_text AttemptStatus.cancelled = "cancelled"

-- the arguments of `create_attempt`
pub record AttemptRequest : Type 0 where
  pub work_unit_id : String
  pub route_plan_id : String
  pub policy_decision_id : String
  pub status : AttemptStatus
  pub event_type : String

unfoldable pub attempt_body : AttemptRequest → String → ℕ → String → Json
unfolding attempt_status_text
attempt_body r attempt_id attempt_number now = obj (
    fields (
      ("attempt_id", str attempt_id)
      ∷ ("work_unit_id", str r.work_unit_id)
      ∷ ("route_plan_id", str r.route_plan_id)
      ∷ ("policy_decision_id", str r.policy_decision_id)
      ∷ ("attempt_number", nat attempt_number)
      ∷ ("status", str (attempt_status_text r.status))
      ∷ ("created_at", str now)
      ∷ []))

unfoldable pub attempt_row : AttemptRequest → String → ℕ → String → AttemptRow
unfolding attempt_body
attempt_row r attempt_id attempt_number now = record {
  attempt_id = attempt_id;
  work_unit_id = r.work_unit_id;
  route_plan_id = r.route_plan_id;
  policy_decision_id = r.policy_decision_id;
  status = r.status;
  body_json = attempt_body r attempt_id attempt_number now;
  created_at = now;
  attempt_number = attempt_number;
  started_at = none;
  completed_at = none;
}

unfoldable pub attempt_event : AttemptRequest → String → Json → OutboxEventInput
attempt_event r attempt_id body = record {
  source = "tokenbank.scheduler";
  type = r.event_type;
  subject = append "attempts/" attempt_id;
  body = body;
  run_id = none;
  work_unit_id = some r.work_unit_id;
  attempt_id = some attempt_id;
  assignment_id = none;
}

module _ (w : World) where
  unfoldable pub create_attempt : AttemptRequest → Exec Session String
  unfolding next_attempt_number attempt_row attempt_event
  create_attempt r = do
    hex ← read w.uuid_hex
    let attempt_id = append "att_" hex
    attempt_number ← gets (λ s. next_attempt_number r.work_unit_id s.db.execution_attempts)
    now ← read w.clock_text
    transaction do
      insert_attempt (attempt_row r attempt_id attempt_number now)
      enqueue_event w (attempt_event r attempt_id (attempt_body r attempt_id attempt_number now))
      pure attempt_id

  -- a new attempt of the same Work Unit, plan and decision
  unfoldable pub reschedule : String → String → Exec Session String
  reschedule event_type attempt_id = do
    attempt ← find_attempt attempt_id
    create_attempt (record {
      work_unit_id = attempt.work_unit_id;
      route_plan_id = attempt.route_plan_id;
      policy_decision_id = attempt.policy_decision_id;
      status = AttemptStatus.scheduled;
      event_type = event_type;
    })

  unfoldable pub schedule_retry : String → Exec Session String
  unfolding reschedule
  schedule_retry attempt_id = reschedule "scheduler.retry_scheduled" attempt_id

  unfoldable pub schedule_fallback : String → Exec Session String
  unfolding reschedule
  schedule_fallback attempt_id = reschedule "scheduler.fallback_scheduled" attempt_id
