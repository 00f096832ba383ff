-- ===== src/Scheduler/Results/Stored.antt =====
-- What `submit_result` stores of a result: the checks of its envelope, its row and its events.
use Prim.Native.String.{◌++◌ as append}
use token_bank.Prelude.{
  ℕ, String, Bool, true, false, not, ◌&&◌, ◌||◌, Option, none, some, List, [], ◌∷◌, any, ltb,
  str_eq, if◌then◌else◌,
}
use token_bank.Result.{permission_error}
use token_bank.Exec.{Exec, pure, raise_if, ◌>>=◌}
use token_bank.Json.{Json, Fields, str, obj, end, field, fields, opt_str}
use token_bank.World.{World}
use token_bank.Db.{AttemptRow, AssignmentRow, AssignmentStatus, ResultRow, ResultStatus}
use token_bank.Session.{Session, read}
use token_bank.Outbox.{OutboxEventInput}
use token_bank.Scheduler.Attempts.{of_work_unit}
use token_bank.Scheduler.Assignments.{assignment_event}

-- What `submit_result` reads of a validated `WorkUnitResultEnvelope`; `body` is its `model_dump`.
pub record ResultEnvelope : Type 0 where
  pub result_envelope_id : String
  pub work_unit_id : String
  pub attempt_id : String
  pub assignment_id : String
  pub worker_id : Option String
  pub status : ResultStatus
  pub output : Json
  pub output_hash : String
  pub result_hash : String
  pub body : Fields

-- Scheduler._newer_attempt_exists
unfoldable pub newer_attempt_exists : String → ℕ → List AttemptRow → Bool
newer_attempt_exists work_unit_id attempt_number rows =
    any (λ row. of_work_unit work_unit_id row && ltb attempt_number row.attempt_number) rows

-- _validate_result_envelope_for_assignment
unfoldable pub envelope_mismatch : ResultEnvelope → AssignmentRow → Bool
envelope_mismatch envelope assignment =
    not (
      str_eq envelope.work_unit_id assignment.work_unit_id
      && str_eq envelope.attempt_id assignment.attempt_id
      && str_eq envelope.assignment_id assignment.assignment_id)
    || elim envelope.worker_id [ none ↦ false | some id ↦ not (str_eq id assignment.worker_id) ]

unfoldable pub validate_envelope : Option ResultEnvelope → AssignmentRow → Exec Session (Unit {0})
unfolding envelope_mismatch
validate_envelope none assignment = pure tt
validate_envelope (some envelope) assignment =
    raise_if (envelope_mismatch envelope assignment) permission_error

unfoldable pub result_status_text : ResultStatus → String
result_status_text ResultStatus.succeeded = "succeeded"
result_status_text ResultStatus.failed = "failed"
result_status_text ResultStatus.quarantined = "quarantined"

-- body[key] = value
unfoldable pub put : String → Json → Fields → Fields
put key v end = field key v end
put key v (field k x rest) = if str_eq k key then field k v rest else field k x (put key v rest)

-- what is stored of a result, whether it came in an envelope or as a bare output
pub record StoredResult : Type 0 where
  pub result_envelope_id : String
  pub status : ResultStatus
  pub output_hash : String
  pub result_hash : String
  pub body : Json

unfoldable pub late_status : Bool → ResultStatus → ResultStatus
late_status true status = ResultStatus.quarantined
late_status false status = status

unfoldable pub from_envelope : Bool → ResultEnvelope → StoredResult
unfolding late_status put
from_envelope late e = record {
  result_envelope_id = e.result_envelope_id;
  status = late_status late e.status;
  output_hash = e.output_hash;
  result_hash = e.result_hash;
  body = obj (if late then put "status" (str "quarantined") e.body else e.body);
}

module _ (w : World) where
  -- output_hash and result_hash of core/canonical.py
  unfoldable pub output_hash : Json → String
  output_hash output =
      w.json_digest (obj (fields (("kind", str "tokenbank.output.v1") ∷ ("output", output) ∷ [])))

  unfoldable pub result_hash : Json → String
  result_hash result =
      w.json_digest (obj (fields (("kind", str "tokenbank.result.v1") ∷ ("result", result) ∷ [])))

  unfoldable pub from_output : Bool → AssignmentRow → Json → String → StoredResult
  unfolding output_hash result_hash late_status result_status_text
  from_output late a output hex =
      let status = late_status late ResultStatus.succeeded in
      let out_hash = output_hash output in
      let res_hash = result_hash (
        obj (
          fields (
            ("attempt_id", str a.attempt_id)
            ∷ ("assignment_id", str a.assignment_id)
            ∷ ("backend_id", opt_str a.backend_id)
            ∷ ("output_hash", str out_hash)
            ∷ ("status", str (result_status_text status))
            ∷ ("usage_summary", obj end)
            ∷ []))) in
      record {
        result_envelope_id = append "res_" hex;
        status = status;
        output_hash = out_hash;
        result_hash = res_hash;
        body = obj (
            fields (
              ("result_envelope_id", str (append "res_" hex))
              ∷ ("work_unit_id", str a.work_unit_id)
              ∷ ("attempt_id", str a.attempt_id)
              ∷ ("assignment_id", str a.assignment_id)
              ∷ ("status", str (result_status_text status))
              ∷ ("output", output)
              ∷ ("output_hash", str out_hash)
              ∷ ("result_hash", str res_hash)
              ∷ []));
      }

  -- An identifier is drawn only for a bare output.
  unfoldable pub stored_result :
      Bool → AssignmentRow → Json → Option ResultEnvelope → Exec Session StoredResult
  unfolding from_envelope from_output
  stored_result late assignment output none = do
    hex ← read w.uuid_hex
    pure (from_output late assignment output hex)
  stored_result late assignment output (some envelope) = pure (from_envelope late envelope)

unfoldable pub result_row : AssignmentRow → StoredResult → String → ResultRow
result_row a r now = record {
  result_envelope_id = r.result_envelope_id;
  work_unit_id = a.work_unit_id;
  attempt_id = a.attempt_id;
  assignment_id = a.assignment_id;
  status = r.status;
  output_hash = r.output_hash;
  result_hash = r.result_hash;
  body_json = r.body;
  created_at = now;
}

pub record PreparedResult : Type 0 where
  pub late : Bool
  pub assignment : AssignmentRow
  pub stored : StoredResult
  pub now : String

-- SET status = ..., completed_at = ?, updated_at = ?
unfoldable pub close_assignment : AssignmentStatus → String → AssignmentRow → AssignmentRow
close_assignment status now row = record row {
  status = status;
  completed_at = some now;
  updated_at = some now;
}

unfoldable pub completed_event : AssignmentRow → OutboxEventInput
unfolding assignment_event
completed_event a =
    assignment_event "assignment.completed" a.assignment_id a.work_unit_id a.attempt_id
      (obj (fields (("assignment_id", str a.assignment_id) ∷ ("status", str "completed") ∷ [])))

unfoldable pub result_event : String → AssignmentRow → StoredResult → OutboxEventInput
result_event type a r = record {
  source = "tokenbank.scheduler";
  type = type;
  subject = append "results/" r.result_envelope_id;
  body = r.body;
  run_id = none;
  work_unit_id = some a.work_unit_id;
  attempt_id = some a.attempt_id;
  assignment_id = some a.assignment_id;
}
