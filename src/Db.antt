-- ===== src/Db.antt =====
-- The tables of db/migrations that the scheduler and the event outbox use, one record to a row.
-- A column with a JSON text holds the value of which `canonical_json_dumps` is the text.
-- `policy_decisions`, `worker_manifests` and `account_snapshots` are only looked up by foreign keys.
use token_bank.Prelude.{ℕ, String, Option, List}
use token_bank.Json.{Json}

pub data WorkUnitStatus : Type 0 where
  submitted routing queued assigned running succeeded failed quarantined cancelled : WorkUnitStatus

pub data AttemptStatus : Type 0 where
  created scheduled assigned running succeeded failed quarantined cancelled : AttemptStatus

pub data AssignmentStatus : Type 0 where
  created accepted running completed rejected quarantined expired cancelled failed :
      AssignmentStatus

pub data EventStatus : Type 0 where
  pending written failed : EventStatus

-- ResultEnvelopeStatus of models/result_envelope.py
pub data ResultStatus : Type 0 where
  succeeded failed quarantined : ResultStatus

pub record WorkUnitRow : Type 0 where
  pub work_unit_id : String
  pub status : WorkUnitStatus
  pub body_json : Json
  pub updated_at : String

pub record RoutePlanRow : Type 0 where
  pub route_plan_id : String
  pub work_unit_id : String
  pub body_json : Json
  pub created_at : String

pub record AttemptRow : Type 0 where
  pub attempt_id : String
  pub work_unit_id : String
  pub route_plan_id : String
  pub policy_decision_id : String
  pub status : AttemptStatus
  pub body_json : Json
  pub created_at : String
  pub attempt_number : ℕ
  pub started_at : Option String
  pub completed_at : Option String

pub record AssignmentRow : Type 0 where
  pub assignment_id : String
  pub attempt_id : String
  pub work_unit_id : String
  pub worker_id : String
  pub status : AssignmentStatus
  pub body_json : Json
  pub created_at : String
  pub capacity_node_id : Option String
  pub backend_id : Option String
  pub lease_token_hash : Option String
  pub lease_token_prefix : Option String
  pub lease_version : ℕ
  pub effective_constraints_json : Json
  pub assigned_at : Option String
  pub lease_expires_at : Option String
  pub accepted_at : Option String
  pub completed_at : Option String
  pub updated_at : Option String

pub record ResultRow : Type 0 where
  pub result_envelope_id : String
  pub work_unit_id : String
  pub attempt_id : String
  pub assignment_id : String
  pub status : ResultStatus
  pub output_hash : String
  pub result_hash : String
  pub body_json : Json
  pub created_at : String

pub record QuarantineRow : Type 0 where
  pub quarantine_id : String
  pub result_envelope_id : String
  pub work_unit_id : String
  pub attempt_id : String
  pub assignment_id : String
  pub reason : String
  pub body_json : Json
  pub created_at : String

pub record HealthRow : Type 0 where
  pub snapshot_id : String
  pub worker_id : String
  pub status : String
  pub body_json : Json
  pub captured_at : String

pub record CapacityNodeRow : Type 0 where
  pub capacity_node_id : String
  pub worker_id : Option String
  pub backend_ids : List String

pub record EventRow : Type 0 where
  pub event_id : String
  pub source : String
  pub type : String
  pub subject : String
  pub run_id : Option String
  pub work_unit_id : Option String
  pub attempt_id : Option String
  pub assignment_id : Option String
  pub trace_id : String
  pub span_id : Option String
  pub status : EventStatus
  pub sequence : ℕ
  pub body_json : Json
  pub created_at : String
  pub written_at : Option String
  pub failure_count : ℕ
  pub last_error : Option String

pub record VerifierReportRow : Type 0 where
  pub verifier_report_id : String
  pub work_unit_id : String
  pub result_envelope_id : String
  pub body_json : Json
  pub created_at : String

pub record UsageRow : Type 0 where
  pub usage_ledger_entry_id : String
  pub work_unit_id : String
  pub run_id : String
  pub route_plan_id : String
  pub result_envelope_id : String
  pub verifier_report_id : Option String
  pub account_snapshot_id : Option String
  pub usage_source : String
  pub cost_source : String
  pub billable_cost_micros : ℕ
  pub entry_hash : String
  pub body_json : Json
  pub created_at : String

pub record ReceiptRow : Type 0 where
  pub audit_receipt_id : String
  pub work_unit_id : String
  pub run_id : String
  pub route_plan_id : String
  pub result_envelope_id : String
  pub verifier_report_id : String
  pub usage_ledger_entry_id : Option String
  pub receipt_hash : String
  pub previous_receipt_hash : Option String
  pub body_json : Json
  pub created_at : String

pub record Db : Type 0 where
  pub work_units : List WorkUnitRow
  pub route_plans : List RoutePlanRow
  pub policy_decisions : List String
  pub worker_manifests : List String
  pub capacity_nodes : List CapacityNodeRow
  pub execution_attempts : List AttemptRow
  pub assignments : List AssignmentRow
  pub result_envelopes : List ResultRow
  pub result_quarantine : List QuarantineRow
  pub worker_health_snapshots : List HealthRow
  pub event_outbox : List EventRow
  pub verifier_reports : List VerifierReportRow
  pub account_snapshots : List String
  pub usage_ledger_entries : List UsageRow
  pub audit_receipts : List ReceiptRow
