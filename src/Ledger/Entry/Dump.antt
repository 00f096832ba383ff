-- ===== src/Ledger/Entry/Dump.antt =====
-- The entries of a usage entry in its `model_dump`, in ledger/usage.py.
use token_bank.Prelude.{ℕ, ◌+◌, String, Option, none, some, List, [], ◌∷◌, ◌++◌, if◌then◌else◌}
use token_bank.Json.{Json, null, str, obj, get, fields, nat}
use token_bank.Db.{VerifierReportRow}
use token_bank.Ledger.Amounts.{UsageAmounts, usage_source_of, cost_source_of, billable_cost}
use token_bank.Ledger.Bodies.{dict_of}

abbrev pub if_reported : UsageAmounts → ℕ → Json
if_reported a n = if a.provider_reported then nat n else null

abbrev pub report_id_of : Option VerifierReportRow → Option String
report_id_of none = none
report_id_of (some row) = some row.verifier_report_id

unfoldable pub recommendation_of : Option VerifierReportRow → Json
unfolding get
recommendation_of none = null
recommendation_of (some row) = get (dict_of row.body_json) "recommendation"

-- the entries of the payload behind the identifiers
unfoldable pub amount_fields : UsageAmounts → Json → List (String × Json)
unfolding usage_source_of cost_source_of billable_cost
amount_fields a recommendation =
    ("estimated_input_tokens", nat a.input_units)
    ∷ ("estimated_output_tokens", nat a.output_units)
    ∷ ("estimated_total_tokens", nat (a.input_units + a.output_units))
    ∷ ("reported_input_tokens", if_reported a a.input_units)
    ∷ ("reported_output_tokens", if_reported a a.output_units)
    ∷ ("reported_total_tokens", if_reported a (a.input_units + a.output_units))
    ∷ ("estimated_cost_micros", nat a.estimated_cost)
    ∷ ("reported_cost_micros", if_reported a a.actual_cost)
    ∷ ("billable_cost_micros", nat (billable_cost a))
    ∷ ("usage_source", str (usage_source_of a))
    ∷ ("cost_source", str (cost_source_of a))
    ∷ ("verifier_recommendation", recommendation)
    ∷ []

-- the identifiers of the payload, as they are read and as the model holds them
pub record Identifiers : Type 0 where
  pub usage_ledger_entry_id : Json
  pub work_unit_id : Json
  pub run_id : Json
  pub route_plan_id : Json
  pub result_envelope_id : Json
  pub verifier_report_id : Json
  pub account_snapshot_id : Json
  pub routebook_id : Json
  pub routebook_version : Json
  pub capacity_node_id : Json
  pub capacity_profile_id : Json
  pub backend_id : Json
  pub provider_id : Json
  pub model_id : Json

unfoldable pub id_fields : Identifiers → List (String × Json) → List (String × Json)
id_fields i rest =
    ("usage_ledger_entry_id", i.usage_ledger_entry_id)
    ∷ ("work_unit_id", i.work_unit_id)
    ∷ ("run_id", i.run_id)
    ∷ ("route_plan_id", i.route_plan_id)
    ∷ ("result_envelope_id", i.result_envelope_id)
    ∷ ("verifier_report_id", i.verifier_report_id)
    ∷ ("account_snapshot_id", i.account_snapshot_id)
    ∷ ("routebook_id", i.routebook_id)
    ∷ ("routebook_version", i.routebook_version)
    ∷ ("capacity_node_id", i.capacity_node_id)
    ∷ ("capacity_profile_id", i.capacity_profile_id)
    ∷ ("backend_id", i.backend_id)
    ∷ ("provider_id", i.provider_id)
    ∷ ("model_id", i.model_id)
    ∷ rest

-- `model_dump(mode="json")` of the entry
unfoldable pub model_dump : Identifiers → UsageAmounts → Json → String → String → Json
unfolding id_fields amount_fields
model_dump i a recommendation entry_hash created_at = obj (
    fields (
      ("schema_version", str "p0.v1")
      ∷ id_fields i (
          amount_fields a recommendation
          ++ ("entry_hash", str entry_hash) ∷ ("created_at", str created_at) ∷ [])))
