-- ===== src/Scheduler/Assignments.antt =====
-- `create_assignment`, `assign_next_work` and `poll_next_assignment` of scheduler/scheduler.py
use Prim.Native.String.{◌++◌ as append}
use token_bank.Prelude.{
  String, Bool, true, false, not, ◌&&◌, ◌||◌, Option, none, some, [], ◌∷◌, keep, ltb, str_eq,
}
use token_bank.Exec.{Exec, pure, gets, ◌>>=◌, ◌>>◌}
use token_bank.Json.{Json, null, str, obj, fields, nat, opt_str, get}
use token_bank.World.{World}
use token_bank.Sql.{first_by}
use token_bank.Sql.Order.{text_before, opt_before}
use token_bank.Db.{
  Db, AttemptRow, AttemptStatus, AssignmentRow, AssignmentStatus, CapacityNodeRow, WorkUnitStatus,
}
use token_bank.Session.{Session, read, transaction}
use token_bank.Outbox.{OutboxEventInput, enqueue_event}
use token_bank.Scheduler.Lifecycle.{update_work_unit_status}
use token_bank.Scheduler.Tables.{find_attempt, insert_assignment, update_attempt}

-- the arguments of `create_assignment`
pub record AssignmentRequest : Type 0 where
  pub attempt_id : String
  pub worker_id : String
  pub capacity_node_id : String
  pub backend_id : String
  pub backend_class : Option String
  pub effective_constraints : Json

unfoldable pub assignment_body : AssignmentRequest → String → String → String → Json
assignment_body r work_unit_id assignment_id now = obj (
    fields (
      ("assignment_id", str assignment_id)
      ∷ ("attempt_id", str r.attempt_id)
      ∷ ("work_unit_id", str work_unit_id)
      ∷ ("worker_id", str r.worker_id)
      ∷ ("capacity_node_id", str r.capacity_node_id)
      ∷ ("backend_id", str r.backend_id)
      ∷ ("backend_class", opt_str r.backend_class)
      ∷ ("status", str "created")
      ∷ ("lease_version", nat 0)
      ∷ ("effective_constraints", r.effective_constraints)
      ∷ ("assigned_at", str now)
      ∷ []))

unfoldable pub assignment_row : AssignmentRequest → String → String → String → AssignmentRow
unfolding assignment_body
assignment_row r work_unit_id assignment_id now = record {
  assignment_id = assignment_id;
  attempt_id = r.attempt_id;
  work_unit_id = work_unit_id;
  worker_id = r.worker_id;
  status = AssignmentStatus.created;
  body_json = assignment_body r work_unit_id assignment_id now;
  created_at = now;
  capacity_node_id = some r.capacity_node_id;
  backend_id = some r.backend_id;
  lease_token_hash = none;
  lease_token_prefix = none;
  lease_version = 0;
  effective_constraints_json = r.effective_constraints;
  assigned_at = some now;
  lease_expires_at = none;
  accepted_at = none;
  completed_at = none;
  updated_at = some now;
}

-- the event of the scheduler about one assignment
unfoldable pub assignment_event : String → String → String → String → Json → OutboxEventInput
assignment_event type assignment_id work_unit_id attempt_id body = record {
  source = "tokenbank.scheduler";
  type = type;
  subject = append "assignments/" assignment_id;
  body = body;
  run_id = none;
  work_unit_id = some work_unit_id;
  attempt_id = some attempt_id;
  assignment_id = some assignment_id;
}

unfoldable pub set_assigned : AttemptRow → AttemptRow
set_assigned row = record row { status = AttemptStatus.assigned }

module _ (w : World) where
  unfoldable pub create_assignment : AssignmentRequest → Exec Session String
  unfolding assignment_row assignment_event set_assigned
  create_assignment r = do
    attempt ← find_attempt r.attempt_id
    hex ← read w.uuid_hex
    let assignment_id = append "asg_" hex
    now ← read w.clock_text
    transaction do
      insert_assignment (assignment_row r attempt.work_unit_id assignment_id now)
      update_attempt r.attempt_id set_assigned
      update_work_unit_status w attempt.work_unit_id WorkUnitStatus.assigned "scheduler"
          (some "work_unit.assigned")
      enqueue_event w (
          assignment_event "assignment.created" assignment_id attempt.work_unit_id r.attempt_id
            (assignment_body r attempt.work_unit_id assignment_id now))
      pure assignment_id

-- ORDER BY created_at, attempt_number
unfoldable pub attempt_before : AttemptRow → AttemptRow → Bool
unfolding text_before
attempt_before a b =
    text_before a.created_at b.created_at
    || (str_eq a.created_at b.created_at && ltb a.attempt_number b.attempt_number)

-- ORDER BY assigned_at, created_at
unfoldable pub assignment_before : AssignmentRow → AssignmentRow → Bool
unfolding opt_before text_before
assignment_before a b =
    opt_before a.assigned_at b.assigned_at
    || (not (opt_before b.assigned_at a.assigned_at) && text_before a.created_at b.created_at)

-- ORDER BY capacity_node_id
unfoldable pub node_before : CapacityNodeRow → CapacityNodeRow → Bool
unfolding text_before
node_before a b = text_before a.capacity_node_id b.capacity_node_id

unfoldable pub of_worker : String → CapacityNodeRow → Bool
of_worker worker_id node = elim node.worker_id [ none ↦ false | some id ↦ str_eq id worker_id ]

-- WHERE status IN ('created', 'scheduled')
unfoldable pub is_waiting : AttemptRow → Bool
is_waiting row = elim row.status [
  | AttemptStatus.created ↦ true
  | AttemptStatus.scheduled ↦ true
  | _ ↦ false
]

unfoldable pub next_node : String → Db → Option CapacityNodeRow
unfolding first_by node_before of_worker
next_node worker_id db = first_by node_before (keep (of_worker worker_id) db.capacity_nodes)

unfoldable pub next_waiting : Db → Option AttemptRow
unfolding first_by attempt_before is_waiting
next_waiting db = first_by attempt_before (keep is_waiting db.execution_attempts)

module _ (w : World) where
  -- the node, the attempt and the first of the node's backends, if all three are there
  unfoldable pub assign_with :
      String → Option CapacityNodeRow → Option AttemptRow → Exec Session (Option String)
  assign_with worker_id none attempt = pure none
  assign_with worker_id (some node) none = pure none
  assign_with worker_id (some node) (some attempt) = elim node.backend_ids [
    | [] ↦ pure none
    | backend_id ∷ _ ↦ do
      assignment_id ← create_assignment w (record {
        attempt_id = attempt.attempt_id;
        worker_id = worker_id;
        capacity_node_id = node.capacity_node_id;
        backend_id = backend_id;
        backend_class = none;
        effective_constraints = obj (fields []);
      })
      pure (some assignment_id)
  ]

  unfoldable pub assign_next_work : String → Exec Session (Option String)
  unfolding assign_with next_node next_waiting
  assign_next_work worker_id = do
    node ← gets (λ s. next_node worker_id s.db)
    attempt ← gets (λ s. next_waiting s.db)
    assign_with worker_id node attempt

-- WHERE worker_id = ? AND status = 'created'
unfoldable pub is_offered : String → AssignmentRow → Bool
is_offered worker_id row =
    str_eq row.worker_id worker_id
    && elim row.status [ AssignmentStatus.created ↦ true | _ ↦ false ]

-- The row as a `dict`, with its JSON columns decoded. The table has no column `backend_class`, so
-- it is taken from the body.
pub record PolledAssignment : Type 0 where
  pub row : AssignmentRow
  pub body : Json
  pub effective_constraints : Json
  pub backend_class : Json

-- _decode_json_object on a column
unfoldable pub decode_json_object : Json → Json
decode_json_object (Json.obj fs) = obj fs
decode_json_object _ = obj (fields [])

unfoldable pub get_in : Json → String → Json
unfolding get
get_in (Json.obj fs) key = get fs key
get_in _ key = null

unfoldable pub polled : AssignmentRow → PolledAssignment
unfolding decode_json_object get_in
polled row = record {
  row = row;
  body = decode_json_object row.body_json;
  effective_constraints = decode_json_object row.effective_constraints_json;
  backend_class = get_in (decode_json_object row.body_json) "backend_class";
}

unfoldable pub poll_next_assignment : String → Db → Option PolledAssignment
unfolding first_by assignment_before is_offered polled
poll_next_assignment worker_id db =
    elim (first_by assignment_before (keep (is_offered worker_id) db.assignments)) [
      | none ↦ none
      | some row ↦ some (polled row)
    ]
