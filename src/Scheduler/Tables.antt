-- ===== src/Scheduler/Tables.antt =====
-- The inserts and updates of the scheduler, with the primary and foreign keys of db/migrations.
use token_bank.Prelude.{String, Bool, not, ◌||◌, [], ◌∷◌, ◌++◌, any, str_eq}
use token_bank.Result.{key_error, permission_error, integrity_error}
use token_bank.Exec.{Exec, pure, gets, or_raise, raise_if, modify, ◌>>=◌, ◌>>◌}
use token_bank.Sql.{fetchone, update_where}
use token_bank.Db.{
  Db, WorkUnitRow, RoutePlanRow, AttemptRow, AssignmentRow, ResultRow, QuarantineRow, HealthRow,
}
use token_bank.Session.{Session}
use token_bank.Outbox.{set_db}

abbrev pub is_work_unit : String → WorkUnitRow → Bool
is_work_unit id row = str_eq row.work_unit_id id

abbrev pub is_attempt : String → AttemptRow → Bool
is_attempt id row = str_eq row.attempt_id id

abbrev pub is_assignment : String → AssignmentRow → Bool
is_assignment id row = str_eq row.assignment_id id

abbrev pub is_route_plan : String → RoutePlanRow → Bool
is_route_plan id row = str_eq row.route_plan_id id

abbrev pub is_result : String → ResultRow → Bool
is_result id row = str_eq row.result_envelope_id id

-- INSERT INTO execution_attempts
unfoldable pub refuses_attempt : AttemptRow → Db → Bool
refuses_attempt row db =
    any (is_attempt row.attempt_id) db.execution_attempts
    || not (any (is_work_unit row.work_unit_id) db.work_units)
    || not (any (is_route_plan row.route_plan_id) db.route_plans)
    || not (any (str_eq row.policy_decision_id) db.policy_decisions)

unfoldable pub append_attempt : AttemptRow → Db → Db
append_attempt row db = record db { execution_attempts = db.execution_attempts ++ row ∷ [] }

unfoldable pub insert_attempt : AttemptRow → Exec Session (Unit {0})
unfolding refuses_attempt append_attempt
insert_attempt row = do
  refused ← gets (λ s. refuses_attempt row s.db)
  raise_if refused integrity_error
  modify (set_db (append_attempt row))

-- UPDATE execution_attempts ... WHERE attempt_id = ?
unfoldable pub update_attempt : String → (AttemptRow → AttemptRow) → Exec Session (Unit {0})
unfolding update_where
update_attempt id f = modify (
    set_db (λ db. record db {
      execution_attempts = update_where (is_attempt id) f db.execution_attempts;
    }))

-- INSERT INTO assignments
unfoldable pub refuses_assignment : AssignmentRow → Db → Bool
refuses_assignment row db =
    any (is_assignment row.assignment_id) db.assignments
    || not (any (is_attempt row.attempt_id) db.execution_attempts)
    || not (any (is_work_unit row.work_unit_id) db.work_units)

unfoldable pub append_assignment : AssignmentRow → Db → Db
append_assignment row db = record db { assignments = db.assignments ++ row ∷ [] }

unfoldable pub insert_assignment : AssignmentRow → Exec Session (Unit {0})
unfolding refuses_assignment append_assignment
insert_assignment row = do
  refused ← gets (λ s. refuses_assignment row s.db)
  raise_if refused integrity_error
  modify (set_db (append_assignment row))

-- UPDATE assignments ... WHERE ...
unfoldable pub update_assignments :
    (AssignmentRow → Bool) → (AssignmentRow → AssignmentRow) → Exec Session (Unit {0})
unfolding update_where
update_assignments p f =
    modify (set_db (λ db. record db { assignments = update_where p f db.assignments }))

-- INSERT INTO result_envelopes; its attempt is no foreign key
unfoldable pub refuses_result : ResultRow → Db → Bool
refuses_result row db =
    any (is_result row.result_envelope_id) db.result_envelopes
    || not (any (is_work_unit row.work_unit_id) db.work_units)
    || not (any (is_assignment row.assignment_id) db.assignments)

unfoldable pub append_result : ResultRow → Db → Db
append_result row db = record db { result_envelopes = db.result_envelopes ++ row ∷ [] }

unfoldable pub insert_result : ResultRow → Exec Session (Unit {0})
unfolding refuses_result append_result
insert_result row = do
  refused ← gets (λ s. refuses_result row s.db)
  raise_if refused integrity_error
  modify (set_db (append_result row))

-- INSERT INTO result_quarantine
unfoldable pub refuses_quarantine : QuarantineRow → Db → Bool
refuses_quarantine row db =
    any (λ other. str_eq other.quarantine_id row.quarantine_id) db.result_quarantine
    || not (any (is_work_unit row.work_unit_id) db.work_units)
    || not (any (is_attempt row.attempt_id) db.execution_attempts)
    || not (any (is_assignment row.assignment_id) db.assignments)

unfoldable pub append_quarantine : QuarantineRow → Db → Db
append_quarantine row db = record db { result_quarantine = db.result_quarantine ++ row ∷ [] }

unfoldable pub insert_quarantine : QuarantineRow → Exec Session (Unit {0})
unfolding refuses_quarantine append_quarantine
insert_quarantine row = do
  refused ← gets (λ s. refuses_quarantine row s.db)
  raise_if refused integrity_error
  modify (set_db (append_quarantine row))

-- INSERT INTO worker_health_snapshots
unfoldable pub refuses_health : HealthRow → Db → Bool
refuses_health row db =
    any (λ other. str_eq other.snapshot_id row.snapshot_id) db.worker_health_snapshots
    || not (any (str_eq row.worker_id) db.worker_manifests)

unfoldable pub append_health : HealthRow → Db → Db
append_health row db = record db {
  worker_health_snapshots = db.worker_health_snapshots ++ row ∷ [];
}

unfoldable pub insert_health : HealthRow → Exec Session (Unit {0})
unfolding refuses_health append_health
insert_health row = do
  refused ← gets (λ s. refuses_health row s.db)
  raise_if refused integrity_error
  modify (set_db (append_health row))

-- Scheduler._attempt
unfoldable pub find_attempt : String → Exec Session AttemptRow
unfolding fetchone
find_attempt id = do
  row ← gets (λ s. fetchone (is_attempt id) s.db.execution_attempts)
  or_raise key_error row

unfoldable pub find_assignment : String → Exec Session AssignmentRow
unfolding fetchone
find_assignment id = do
  row ← gets (λ s. fetchone (is_assignment id) s.db.assignments)
  or_raise key_error row

-- Scheduler._assignment_for_worker
unfoldable pub assignment_for_worker : String → String → Exec Session AssignmentRow
unfolding find_assignment
assignment_for_worker id worker_id = do
  row ← find_assignment id
  raise_if (not (str_eq row.worker_id worker_id)) permission_error
  pure row
