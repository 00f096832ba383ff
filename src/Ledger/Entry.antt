-- ===== src/Ledger/Entry.antt =====
-- The second half of `_build_usage_entry` of ledger/usage.py, and the `UsageLedgerEntry` that it makes.
pub mod Dump
use Prim.Native.String.{◌++◌ as append}
use token_bank.Prelude.{
  ℕ, ◌+◌, String, Option, List, [], ◌∷◌, ◌++◌, not, any, str_eq, if◌then◌else◌,
}
use token_bank.Result.{validation_error}
use token_bank.Exec.{Exec, pure, raise, raise_if, ◌>>=◌, ◌>>◌}
use token_bank.Json.{Json, Fields, null, str, obj, get, fields, opt_str}
use token_bank.Json.Equality.{equals}
use token_bank.World.{World}
use token_bank.Text.{take_chars}
use token_bank.Session.{Session, read}
use token_bank.Db.{WorkUnitRow, RoutePlanRow, ResultRow, VerifierReportRow}
use token_bank.Ledger.Amounts.{
  UsageAmounts, usage_amounts, usage_source_of, cost_source_of, billable_cost,
}
use token_bank.Ledger.Bodies.{
  dict_of, need, dicts_at, non_empty, opt_non_empty, opt_text, is_filled,
}
unfoldable pub use Dump.*

-- what `_completed_context` has read
pub record UsageContext : Type 0 where
  pub work_unit : WorkUnitRow
  pub route : RoutePlanRow
  pub result : ResultRow
  pub verifier : Option VerifierReportRow

-- what `upsert_entry` reads of a `UsageLedgerEntry`; `body` is its `model_dump`
pub record UsageLedgerEntry : Type 0 where
  pub usage_ledger_entry_id : String
  pub work_unit_id : String
  pub run_id : String
  pub route_plan_id : String
  pub result_envelope_id : String
  pub verifier_report_id : Option String
  pub account_snapshot_id : Option String
  pub usage_source : String
  pub cost_source : String
  pub billable_cost_micros : ℕ
  pub entry_hash : String
  pub body : Json
  pub created_at : String

-- the node of the first candidate with the selected identifier, and `own` if there is none
unfoldable pub selected_node : Json → Json → List Fields → Json
unfolding get equals
selected_node own selected [] = own
selected_node own selected (c ∷ cs) =
    if equals (get c "route_candidate_id") selected
    then get c "capacity_node_id"
    else selected_node own selected cs

unfoldable pub profile_node : Fields → Fields → Exec Session Json
unfolding is_filled selected_node dicts_at get
profile_node result_body route_body =
    let own = get result_body "capacity_node_id" in
    if is_filled own then pure own else (do
      candidates ← dicts_at route_body "candidates"
      pure (selected_node own (get route_body "selected_candidate_id") candidates))

abbrev recommendations : List String
recommendations =
    "accept" ∷ "accept_with_warning" ∷ "retry" ∷ "fallback" ∷ "reject" ∷ "quarantine" ∷ "escalate"
    ∷ "review" ∷ []

-- a field of type `VerifierRecommendation | None`
unfoldable pub check_recommendation : Json → Exec Session (Unit {0})
check_recommendation null = pure tt
check_recommendation (str s) = raise_if (not (any (str_eq s) recommendations)) validation_error
check_recommendation _ = raise validation_error

module _ (w : World) where
  -- canonical_json_hash({...})[:24]
  abbrev pub short_hash : List (String × Json) → String
  short_hash entries = take_chars 24 (w.json_digest (obj (fields entries)))

  unfoldable pub entry_id : Json → String → Option String → Option String → String
  unfolding take_chars
  entry_id work_unit_id result_envelope_id verifier_report_id account_snapshot_id = append "ule_" (
      short_hash (
        ("work_unit_id", work_unit_id)
        ∷ ("result_envelope_id", str result_envelope_id)
        ∷ ("verifier_report_id", opt_str verifier_report_id)
        ∷ ("account_snapshot_id", opt_str account_snapshot_id)
        ∷ []))

  unfoldable pub capacity_profile_id : Fields → Fields → Exec Session Json
  unfolding profile_node is_filled take_chars get
  capacity_profile_id result_body route_body = do
    node ← profile_node result_body route_body
    let backend = get result_body "backend_id"
    pure (
        if is_filled backend
        then str
            (append "cp_" (short_hash (("capacity_node_id", node) ∷ ("backend_id", backend) ∷ [])))
        else null)

  -- UsageLedgerEntry(**payload_without_hash, entry_hash=entry_hash)
  unfoldable pub validate_entry : Identifiers → UsageAmounts → Json → Exec Session UsageLedgerEntry
  unfolding model_dump check_recommendation non_empty opt_non_empty opt_text id_fields amount_fields
      usage_source_of cost_source_of billable_cost
  validate_entry i a recommendation = do
    let entry_hash = w.json_digest (obj (fields (id_fields i (amount_fields a recommendation))))
    entry_id ← non_empty w i.usage_ledger_entry_id
    work_unit_id ← non_empty w i.work_unit_id
    run_id ← non_empty w i.run_id
    route_plan_id ← non_empty w i.route_plan_id
    result_envelope_id ← non_empty w i.result_envelope_id
    verifier_report_id ← opt_non_empty w i.verifier_report_id
    account_snapshot_id ← opt_non_empty w i.account_snapshot_id
    routebook_id ← non_empty w i.routebook_id
    routebook_version ← non_empty w i.routebook_version
    capacity_node_id ← opt_non_empty w i.capacity_node_id
    capacity_profile_id ← opt_non_empty w i.capacity_profile_id
    backend_id ← opt_non_empty w i.backend_id
    provider_id ← opt_text w i.provider_id
    model_id ← opt_text w i.model_id
    check_recommendation recommendation
    hash ← non_empty w (str entry_hash)
    created_at ← read w.clock_text
    let held : Identifiers = record {
      usage_ledger_entry_id = str entry_id;
      work_unit_id = str work_unit_id;
      run_id = str run_id;
      route_plan_id = str route_plan_id;
      result_envelope_id = str result_envelope_id;
      verifier_report_id = opt_str verifier_report_id;
      account_snapshot_id = opt_str account_snapshot_id;
      routebook_id = str routebook_id;
      routebook_version = str routebook_version;
      capacity_node_id = opt_str capacity_node_id;
      capacity_profile_id = opt_str capacity_profile_id;
      backend_id = opt_str backend_id;
      provider_id = opt_str provider_id;
      model_id = opt_str model_id;
    }
    pure (record {
      usage_ledger_entry_id = entry_id;
      work_unit_id = work_unit_id;
      run_id = run_id;
      route_plan_id = route_plan_id;
      result_envelope_id = result_envelope_id;
      verifier_report_id = verifier_report_id;
      account_snapshot_id = account_snapshot_id;
      usage_source = usage_source_of a;
      cost_source = cost_source_of a;
      billable_cost_micros = billable_cost a;
      entry_hash = hash;
      body = model_dump held a recommendation hash created_at;
      created_at = created_at;
    })

  unfoldable pub build_usage_entry :
      UsageContext → Option String → String → String → Exec Session UsageLedgerEntry
  unfolding need dicts_at usage_amounts entry_id capacity_profile_id recommendation_of
      validate_entry get
  build_usage_entry c account_snapshot_id routebook_id routebook_version = do
    let work_unit_body = dict_of c.work_unit.body_json
    let result_body = dict_of c.result.body_json
    let report_id = report_id_of c.verifier
    records ← dicts_at result_body "usage_records"
    work_unit_id ← need work_unit_body "work_unit_id"
    run_id ← need work_unit_body "run_id"
    profile ← capacity_profile_id result_body (dict_of c.route.body_json)
    validate_entry
        (record {
          usage_ledger_entry_id =
              str (entry_id work_unit_id c.result.result_envelope_id report_id account_snapshot_id);
          work_unit_id = work_unit_id;
          run_id = run_id;
          route_plan_id = str c.route.route_plan_id;
          result_envelope_id = str c.result.result_envelope_id;
          verifier_report_id = opt_str report_id;
          account_snapshot_id = opt_str account_snapshot_id;
          routebook_id = str routebook_id;
          routebook_version = str routebook_version;
          capacity_node_id = get result_body "capacity_node_id";
          capacity_profile_id = profile;
          backend_id = get result_body "backend_id";
          provider_id = get result_body "provider_id";
          model_id = get result_body "model_id";
        })
        (usage_amounts result_body records) (recommendation_of c.verifier)
