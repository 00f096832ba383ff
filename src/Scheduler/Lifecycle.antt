-- ===== src/Scheduler/Lifecycle.antt =====
-- scheduler/lifecycle.py: who may write the status of a Work Unit, and how.
use Prim.Native.String.{◌++◌ as append}
use token_bank.Prelude.{String, Bool, not, Option, none, some, List, [], ◌∷◌, any, str_eq}
use token_bank.Result.{key_error, permission_error}
use token_bank.Exec.{Exec, pure, gets, raise, raise_if, modify, ◌>>=◌, ◌>>◌}
use token_bank.Json.{str, obj, fields}
use token_bank.World.{World}
use token_bank.Sql.{update_where}
use token_bank.Db.{WorkUnitRow, WorkUnitStatus}
use token_bank.Session.{Session, read}
use token_bank.Outbox.{enqueue_event, set_db}
use token_bank.Scheduler.Tables.{is_work_unit}

abbrev pub work_unit_status_writers : List String
work_unit_status_writers = "scheduler" ∷ "verifier_consumer" ∷ []

unfoldable pub status_text : WorkUnitStatus → String
status_text WorkUnitStatus.submitted = "submitted"
status_text WorkUnitStatus.routing = "routing"
status_text WorkUnitStatus.queued = "queued"
status_text WorkUnitStatus.assigned = "assigned"
status_text WorkUnitStatus.running = "running"
status_text WorkUnitStatus.succeeded = "succeeded"
status_text WorkUnitStatus.failed = "failed"
status_text WorkUnitStatus.quarantined = "quarantined"
status_text WorkUnitStatus.cancelled = "cancelled"

-- `event_type or f"work_unit.{status}"`
unfoldable pub status_event_type : Option String → WorkUnitStatus → String
unfolding status_text
status_event_type none status = append "work_unit." (status_text status)
status_event_type (some t) status = if_empty (str_eq t "") t
  where
    if_empty : Bool → String → String
    if_empty Bool.true t = append "work_unit." (status_text status)
    if_empty Bool.false t = t

unfoldable pub set_status : WorkUnitStatus → String → WorkUnitRow → WorkUnitRow
set_status status now row = record row { status = status; updated_at = now }

unfoldable pub set_work_unit : String → WorkUnitStatus → String → Exec Session (Unit {0})
unfolding update_where set_status
set_work_unit id status now = modify (
    set_db (λ db. record db {
      work_units = update_where (is_work_unit id) (set_status status now) db.work_units;
    }))

module _ (w : World) where
  unfoldable pub update_work_unit_status :
      String → WorkUnitStatus → String → Option String → Exec Session (Unit {0})
  unfolding status_event_type set_work_unit
  update_work_unit_status work_unit_id status actor event_type = do
    raise_if (not (any (str_eq actor) work_unit_status_writers)) permission_error
    known ← gets (λ s. any (is_work_unit work_unit_id) s.db.work_units)
    raise_if (not known) key_error
    now ← read w.clock_text
    set_work_unit work_unit_id status now
    enqueue_event w (record {
      source = "tokenbank.scheduler.lifecycle";
      type = status_event_type event_type status;
      subject = append "work_units/" work_unit_id;
      body = obj (
          fields (
            ("work_unit_id", str work_unit_id)
            ∷ ("status", str (status_text status))
            ∷ ("actor", str actor)
            ∷ []));
      run_id = none;
      work_unit_id = some work_unit_id;
      attempt_id = none;
      assignment_id = none;
    })
    pure tt

unfoldable pub verifier_mutate_assignment_forbidden : Exec Session (Unit {0})
verifier_mutate_assignment_forbidden = raise permission_error

unfoldable pub scheduler_mutate_verifier_report_forbidden : Exec Session (Unit {0})
scheduler_mutate_verifier_report_forbidden = raise permission_error
