-- ===== src/Audit/Receipt.antt =====
-- `_build_receipt` and `_receipt_id` of audit/receipts.py, and the `AuditReceipt` that is made.
use Prim.Native.String.{◌++◌ as append}
use token_bank.Prelude.{String, Option, List, [], ◌∷◌, ◌++◌, str_eq, if◌then◌else◌}
use token_bank.Exec.{Exec, pure, ◌>>=◌}
use token_bank.Json.{Json, null, str, arr, obj, fields, texts, opt_str}
use token_bank.World.{World}
use token_bank.Text.{take_chars}
use token_bank.Session.{Session, read}
use token_bank.Db.{WorkUnitRow, RoutePlanRow, AssignmentRow, ResultRow, VerifierReportRow}
use token_bank.Ledger.Bodies.{dict_of, need, non_empty, opt_non_empty}
use token_bank.Ledger.Entry.{short_hash}

-- what `_accepted_context` has read
pub record AcceptedContext : Type 0 where
  pub work_unit : WorkUnitRow
  pub route : RoutePlanRow
  pub assignment : AssignmentRow
  pub result : ResultRow
  pub verifier : VerifierReportRow

-- what `insert_receipt` reads of an `AuditReceipt`; `body` is its `model_dump`
pub record AuditReceipt : Type 0 where
  pub audit_receipt_id : String
  pub work_unit_id : String
  pub run_id : String
  pub route_plan_id : String
  pub assignment_id : String
  pub result_envelope_id : String
  pub verifier_report_id : String
  pub usage_ledger_entry_id : Option String
  pub receipt_hash : String
  pub previous_receipt_hash : Option String
  pub body : Json
  pub created_at : String

-- the payload, as it is read and as the model holds it
pub record Payload : Type 0 where
  pub audit_receipt_id : Json
  pub work_unit_id : Json
  pub run_id : Json
  pub route_plan_id : Json
  pub assignment_id : Json
  pub result_envelope_id : Json
  pub verifier_report_id : Json
  pub usage_ledger_entry_id : Json
  pub routebook_id : Json
  pub routebook_version : Json
  pub status : String
  pub work_unit_hash : Json
  pub route_plan_hash : Json
  pub assignment_hash : Json
  pub result_hash : Json
  pub result_envelope_hash : Json
  pub verifier_report_hash : Json
  pub usage_ledger_entry_hash : Json
  pub previous_receipt_hash : Json

abbrev reason_codes : List String
reason_codes =
    "hash_chain_work_unit_to_verifier_report" ∷ "raw_input_output_and_credentials_excluded" ∷ []

unfoldable pub link_fields : Payload → List (String × Json)
link_fields p =
    ("audit_receipt_id", p.audit_receipt_id)
    ∷ ("work_unit_id", p.work_unit_id)
    ∷ ("run_id", p.run_id)
    ∷ ("route_plan_id", p.route_plan_id)
    ∷ ("assignment_id", p.assignment_id)
    ∷ ("result_envelope_id", p.result_envelope_id)
    ∷ ("verifier_report_id", p.verifier_report_id)
    ∷ ("usage_ledger_entry_id", p.usage_ledger_entry_id)
    ∷ ("routebook_id", p.routebook_id)
    ∷ ("routebook_version", p.routebook_version)
    ∷ ("status", str p.status)
    ∷ ("work_unit_hash", p.work_unit_hash)
    ∷ ("route_plan_hash", p.route_plan_hash)
    ∷ ("assignment_hash", p.assignment_hash)
    ∷ ("result_hash", p.result_hash)
    ∷ ("result_envelope_hash", p.result_envelope_hash)
    ∷ ("verifier_report_hash", p.verifier_report_hash)
    ∷ ("usage_ledger_entry_hash", p.usage_ledger_entry_hash)
    ∷ ("task_analysis_hash", null)
    ∷ ("task_profile_hash", null)
    ∷ ("previous_receipt_hash", p.previous_receipt_hash)
    ∷ []

abbrev redaction : (String × Json)
redaction = ("redaction_profile", str "ids_and_hashes_only")

abbrev reasons : (String × Json)
reasons = ("reason_codes", arr (texts reason_codes))

unfoldable pub payload_without_hash : Payload → Json
unfolding link_fields
payload_without_hash p = obj (fields (link_fields p ++ redaction ∷ reasons ∷ []))

unfoldable pub receipt_dump : Payload → String → String → Json
unfolding link_fields
receipt_dump p receipt_hash created_at = obj (
    fields (
      ("schema_version", str "p0.v1")
      ∷ (link_fields p
          ++ ("receipt_hash", str receipt_hash)
            ∷ redaction
            ∷ reasons
            ∷ ("created_at", str created_at)
            ∷ [])))

unfoldable pub receipt_status : Json → String
receipt_status (str s) = if str_eq s "accept" then "accepted" else "accepted_with_warning"
receipt_status _ = "accepted_with_warning"

module _ (w : World) where
  unfoldable pub receipt_id : Json → Json → String
  unfolding take_chars
  receipt_id result_envelope_id usage_ledger_entry_id = append "ar_" (
      short_hash w (
        ("result_envelope_id", result_envelope_id)
        ∷ ("usage_ledger_entry_id", usage_ledger_entry_id)
        ∷ []))

  -- AuditReceipt(**payload_without_hash, receipt_hash=receipt_hash)
  unfoldable pub validate_receipt : Payload → Exec Session AuditReceipt
  unfolding payload_without_hash receipt_dump non_empty opt_non_empty
  validate_receipt p = do
    let digest = w.json_digest (payload_without_hash p)
    audit_receipt_id ← non_empty w p.audit_receipt_id
    work_unit_id ← non_empty w p.work_unit_id
    run_id ← non_empty w p.run_id
    route_plan_id ← non_empty w p.route_plan_id
    assignment_id ← non_empty w p.assignment_id
    result_envelope_id ← non_empty w p.result_envelope_id
    verifier_report_id ← non_empty w p.verifier_report_id
    usage_ledger_entry_id ← opt_non_empty w p.usage_ledger_entry_id
    routebook_id ← non_empty w p.routebook_id
    routebook_version ← non_empty w p.routebook_version
    work_unit_hash ← non_empty w p.work_unit_hash
    route_plan_hash ← non_empty w p.route_plan_hash
    assignment_hash ← non_empty w p.assignment_hash
    result_hash ← non_empty w p.result_hash
    result_envelope_hash ← non_empty w p.result_envelope_hash
    verifier_report_hash ← non_empty w p.verifier_report_hash
    usage_ledger_entry_hash ← opt_non_empty w p.usage_ledger_entry_hash
    previous_receipt_hash ← opt_non_empty w p.previous_receipt_hash
    receipt_hash ← non_empty w (str digest)
    created_at ← read w.clock_text
    let held : Payload = record {
      audit_receipt_id = str audit_receipt_id;
      work_unit_id = str work_unit_id;
      run_id = str run_id;
      route_plan_id = str route_plan_id;
      assignment_id = str assignment_id;
      result_envelope_id = str result_envelope_id;
      verifier_report_id = str verifier_report_id;
      usage_ledger_entry_id = opt_str usage_ledger_entry_id;
      routebook_id = str routebook_id;
      routebook_version = str routebook_version;
      status = p.status;
      work_unit_hash = str work_unit_hash;
      route_plan_hash = str route_plan_hash;
      assignment_hash = str assignment_hash;
      result_hash = str result_hash;
      result_envelope_hash = str result_envelope_hash;
      verifier_report_hash = str verifier_report_hash;
      usage_ledger_entry_hash = opt_str usage_ledger_entry_hash;
      previous_receipt_hash = opt_str previous_receipt_hash;
    }
    pure (record {
      audit_receipt_id = audit_receipt_id;
      work_unit_id = work_unit_id;
      run_id = run_id;
      route_plan_id = route_plan_id;
      assignment_id = assignment_id;
      result_envelope_id = result_envelope_id;
      verifier_report_id = verifier_report_id;
      usage_ledger_entry_id = usage_ledger_entry_id;
      receipt_hash = receipt_hash;
      previous_receipt_hash = previous_receipt_hash;
      body = receipt_dump held receipt_hash created_at;
      created_at = created_at;
    })

  unfoldable pub build_receipt :
      AcceptedContext → Json → Option String → String → String → Exec Session AuditReceipt
  unfolding need receipt_id receipt_status validate_receipt
  build_receipt c usage_entry previous_receipt_hash routebook_id routebook_version = do
    let usage_body = dict_of usage_entry
    result_envelope_id ← need (dict_of c.result.body_json) "result_envelope_id"
    usage_id ← need usage_body "usage_ledger_entry_id"
    recommendation ← need (dict_of c.verifier.body_json) "recommendation"
    work_unit_id ← need (dict_of c.work_unit.body_json) "work_unit_id"
    run_id ← need (dict_of c.work_unit.body_json) "run_id"
    route_plan_id ← need (dict_of c.route.body_json) "route_plan_id"
    assignment_id ← need (dict_of c.assignment.body_json) "assignment_id"
    verifier_report_id ← need (dict_of c.verifier.body_json) "verifier_report_id"
    result_hash ← need (dict_of c.result.body_json) "result_hash"
    usage_hash ← need usage_body "entry_hash"
    validate_receipt (record {
      audit_receipt_id = str (receipt_id result_envelope_id usage_id);
      work_unit_id = work_unit_id;
      run_id = run_id;
      route_plan_id = route_plan_id;
      assignment_id = assignment_id;
      result_envelope_id = result_envelope_id;
      verifier_report_id = verifier_report_id;
      usage_ledger_entry_id = usage_id;
      routebook_id = str routebook_id;
      routebook_version = str routebook_version;
      status = receipt_status recommendation;
      work_unit_hash = str (w.json_digest c.work_unit.body_json);
      route_plan_hash = str (w.json_digest c.route.body_json);
      assignment_hash = str (w.json_digest c.assignment.body_json);
      result_hash = result_hash;
      result_envelope_hash = str (w.json_digest c.result.body_json);
      verifier_report_hash = str (w.json_digest c.verifier.body_json);
      usage_ledger_entry_hash = usage_hash;
      previous_receipt_hash = opt_str previous_receipt_hash;
    })
