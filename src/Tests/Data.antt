-- ===== src/Tests/Data.antt =====
-- A database with one Work Unit under way.
use Prim.Native.String.{◌++◌ as append}
use token_bank.Prelude.{ℕ, String, none, some, List, [], ◌∷◌}
use token_bank.Json.{Json, null, str, obj, end, field}
use token_bank.World.{World}
use token_bank.Text.Decimal.{decimal}
use token_bank.Db.{
  WorkUnitRow, WorkUnitStatus, RoutePlanRow, AttemptRow, AttemptStatus, AssignmentRow,
  AssignmentStatus,
}
use token_bank.Session.{Session}

unfoldable pub world : World
unfolding decimal
world = record {
  clock_text = λ n. "2026-01-01T00:00:00Z";
  clock_after = λ n ms. "2026-01-01T00:01:00Z";
  uuid_hex = λ n. decimal n;
  token_urlsafe = λ n. append "secret" (decimal n);
  lease_digest = λ token. append "sha256:" token;
  json_digest = λ v. "sha256:0123456789abcdef0123456789abcdef";
  strip_text = λ t. t;
}

abbrev pub unit : WorkUnitRow
unit = record {
  work_unit_id = "wu_1";
  status = WorkUnitStatus.assigned;
  body_json = obj (field "work_unit_id" (str "wu_1") (field "run_id" (str "run_1") end));
  updated_at = "";
}

abbrev pub route_plan : RoutePlanRow
route_plan = record {
  route_plan_id = "rp_1";
  work_unit_id = "wu_1";
  body_json = obj (field "route_plan_id" (str "rp_1") end);
  created_at = "";
}

abbrev pub attempt_of : String → ℕ → AttemptRow
attempt_of id n = record {
  attempt_id = id;
  work_unit_id = "wu_1";
  route_plan_id = "rp_1";
  policy_decision_id = "pd_1";
  status = AttemptStatus.assigned;
  body_json = null;
  created_at = "";
  attempt_number = n;
  started_at = none;
  completed_at = none;
}

-- an offer of the first attempt to a worker
abbrev pub offered : AssignmentRow
offered = record {
  assignment_id = "asg_1";
  attempt_id = "att_1";
  work_unit_id = "wu_1";
  worker_id = "wrk_1";
  status = AssignmentStatus.created;
  body_json = null;
  created_at = "";
  capacity_node_id = none;
  backend_id = none;
  lease_token_hash = none;
  lease_token_prefix = none;
  lease_version = 0;
  effective_constraints_json = null;
  assigned_at = none;
  lease_expires_at = none;
  accepted_at = none;
  completed_at = none;
  updated_at = none;
}

-- the same assignment under a lease
abbrev pub leased : AssignmentRow
leased = record offered {
  status = AssignmentStatus.running;
  lease_token_hash = some "hash";
  lease_version = 1;
}

abbrev pub start : List AttemptRow → AssignmentRow → Session
start attempts assignment = record {
  db = record {
    work_units = unit ∷ [];
    route_plans = route_plan ∷ [];
    policy_decisions = "pd_1" ∷ [];
    worker_manifests = "wrk_1" ∷ [];
    capacity_nodes = [];
    execution_attempts = attempts;
    assignments = assignment ∷ [];
    result_envelopes = [];
    result_quarantine = [];
    worker_health_snapshots = [];
    event_outbox = [];
    verifier_reports = [];
    account_snapshots = [];
    usage_ledger_entries = [];
    audit_receipts = [];
  };
  reads = 0;
}

abbrev pub first_attempt : List AttemptRow
first_attempt = attempt_of "att_1" 1 ∷ []

abbrev pub both_attempts : List AttemptRow
both_attempts = attempt_of "att_1" 1 ∷ attempt_of "att_2" 2 ∷ []

abbrev pub output : Json
output = obj (field "status_code" (str "ok") end)
