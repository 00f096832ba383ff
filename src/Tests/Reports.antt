-- ===== src/Tests/Reports.antt =====
-- The flusher, the policy and the verifier at concrete inputs.
use token_bank.Prelude.{
  ℕ, String, ◌≡◌, ◌≢◌, ◌↔◌, refl, sym, ◌∙◌, str_eq, eq_iff, false, Option, none, some, [], ◌∷◌, map,
}
use mathlib.Core.Bool.{false≢true}
use token_bank.Result.{ok}
use token_bank.Json.{
  Json, Fields, null, str, arr, obj, nil, cons, end, field, nat, get, get_or, truthy,
}
use token_bank.Db.{Db, EventRow, EventStatus, ResultStatus}
use token_bank.Policy.Checks.{PolicyInputs, PolicyDecision, DecisionValue, as_dict}
use token_bank.Policy.Evaluation.{policy_checks, evaluate_policy}
use token_bank.Policy.Verdict.{IsPermitted}
use token_bank.Policy.Decision.{Explains, evaluate_policy-IsPermitted, evaluate_policy-Explains}
use token_bank.Verifier.Common.{is_leak, VerifierStatus, VerifierRecipe, VerifiedEnvelope}
use token_bank.Verifier.Tasks.{run_task_specific_checks}
use token_bank.Verifier.Runner.{
  VerifierReport, recommendation, recommendation_from, report_metadata, all_checks, run,
}
use token_bank.Verifier.Secrets.{SecretFree}
use token_bank.Verifier.Acceptance.{IsAcceptable, accepted-IsAcceptable}
use token_bank.Verifier.Leaks.{leak-quarantined}
use token_bank.Tests.Data.{world, leased, start, first_attempt}

abbrev event : String → ℕ → EventRow
event id n = record {
  event_id = id;
  source = "tokenbank.scheduler";
  type = "assignment.completed";
  subject = "assignments/asg_1";
  run_id = none;
  work_unit_id = none;
  attempt_id = none;
  assignment_id = some "asg_1";
  trace_id = "trace";
  span_id = none;
  status = EventStatus.pending;
  sequence = n;
  body_json = null;
  created_at = "";
  written_at = none;
  failure_count = 0;
  last_error = none;
}

abbrev with_events : Db
with_events = record ((start first_attempt leased).db) {
  event_outbox = event "evt_1" 1 ∷ event "evt_2" 2 ∷ [];
}

-- the second event cannot be written
abbrev disk : EventRow → Option String
disk row = elim row.status [ EventStatus.pending ↦ some "No space left on device" | _ ↦ none ]

abbrev repr : Json → String
repr v = "?"

-- a route whose backend is not on the list
abbrev inputs : PolicyInputs
inputs = record {
  work_unit = field "work_unit_id" (str "wu_1") (field "task_level" (str "L1") end);
  route_plan = field "route_plan_id" (str "rp_1") (
      field "backend_id" (str "be_2") (
        field "backend_class" (str "browser_fetch")
          (field "verifier_recipe_id" (str "url_check_v0") end)));
  worker_manifest = field "worker_id" (str "wrk_1") end;
  backend_manifest = field "backend_id" (str "be_2") end;
  policy_bundle = record {
    allowed_backend_ids = "be_1" ∷ [];
    allowed_backend_classes = "browser_fetch" ∷ [];
    forbidden_backend_classes = [];
  };
}

abbrev decided : PolicyDecision
decided = record {
  policy_decision_id = "pd_sha256:0123456789abcdef0";
  work_unit_id = "wu_1";
  route_plan_id = "rp_1";
  decision = DecisionValue.denied;
  reasons = "backend_id be_2 must be allowed" ∷ [];
  checks = map as_dict (policy_checks repr inputs);
  effective_constraints = obj (
      field "allowed_backend_ids" (arr (cons (str "be_1") nil))
        (field "allowed_backend_classes" (arr (cons (str "browser_fetch") nil)) end));
}

evaluated : evaluate_policy repr world inputs ≡ ok decided
unfolding world evaluate_policy get_or truthy get
evaluated = refl

evaluate_policy-IsPermitted_example :
    decided.decision ≡ DecisionValue.approved ↔ IsPermitted repr inputs
evaluate_policy-IsPermitted_example =
    evaluate_policy-IsPermitted repr world inputs decided evaluated

evaluate_policy-Explains_example :
    Explains (policy_checks repr inputs) decided.decision decided.reasons
evaluate_policy-Explains_example = evaluate_policy-Explains repr world inputs decided evaluated

abbrev no_schema_error : Fields → Json → Option Json
no_schema_error schema value = none

abbrev recipe : VerifierRecipe
recipe = record {
  verifier_recipe_id = "dedup_v0";
  task_type = "dedup";
  output_schema = end;
  recommendations = ("hash_mismatch", "quarantine") ∷ [];
  sampled_audit_rate_bps = 0;
}

-- an envelope with the texts of a log in it
abbrev envelope : String → VerifiedEnvelope
envelope log = record {
  base = record {
    result_envelope_id = "res_1";
    work_unit_id = "wu_1";
    attempt_id = "att_1";
    assignment_id = "asg_1";
    worker_id = none;
    status = ResultStatus.succeeded;
    output = obj (field "unique_items" (arr nil) (field "duplicate_count" (nat 0) end));
    output_hash = "sha256:0123456789abcdef0123456789abcdef";
    result_hash = "sha256:0123456789abcdef0123456789abcdef";
    body = field "redacted_logs" (arr (cons (str log) nil)) end;
  };
  backend_id = none;
  backend_class = none;
  usage_record_ids = [];
  error_codes = [];
}

abbrev report : String → String → VerifierStatus → VerifierReport
report log recommended status = record {
  verifier_report_id = "vr_sha256:0123456789abcdef0";
  work_unit_id = "wu_1";
  result_envelope_id = "res_1";
  verifier_recipe_id = "dedup_v0";
  status = status;
  recommendation = recommended;
  checks = all_checks world no_schema_error recipe (envelope log) none none;
  output_hash = "sha256:0123456789abcdef0123456789abcdef";
  result_hash = "sha256:0123456789abcdef0123456789abcdef";
  metadata =
      report_metadata recipe (all_checks world no_schema_error recipe (envelope log) none none)
        (run_task_specific_checks "dedup_v0" (envelope log).base) recommended;
}

accepts :
    run world no_schema_error recipe (envelope "done") none none
    ≡ ok (report "done" "accept" VerifierStatus.passed)
unfolding world run
accepts = refl

quarantines :
    run world no_schema_error recipe (envelope "sk-abc") none none
    ≡ ok (report "sk-abc" "quarantine" VerifierStatus.failed)
unfolding world run
quarantines = refl

different : (s t : String) → str_eq s t ≡ false → s ≢ t
different s t h e = false≢true (sym h ∙ (eq_iff s t).1 e)

leaking : ¬ SecretFree (obj (envelope "sk-abc").base.body)
unfolding SecretFree is_leak
leaking ((leak, _), _) = false≢true (sym leak)

accepted-IsAcceptable_example :
    IsAcceptable world no_schema_error recipe (envelope "done") none none
unfolding recommendation_from
accepted-IsAcceptable_example =
    accepted-IsAcceptable world no_schema_error recipe (envelope "done") none none
      (report "done" "accept" VerifierStatus.passed)
      (
        different "quarantine" "accept" refl,
        different "reject" "accept" refl,
        different "quarantine" "accept" refl,
        different "retry" "accept" refl,
      )
      accepts refl

leak-quarantined_example :
    ◌≡◌ {A = String} "quarantine" (recommendation recipe "secret_detected" "quarantine")
leak-quarantined_example =
    leak-quarantined world no_schema_error recipe (envelope "sk-abc") none none
      (report "sk-abc" "quarantine" VerifierStatus.failed) leaking quarantines
