-- ===== src/Verifier/Runner.antt =====
-- verifier/runner.py and verifier/report_builder.py.
use Prim.Native.String.{◌++◌ as append}
use token_bank.Prelude.{
  String, Bool, true, false, Option, none, some, List, [], ◌∷◌, ◌++◌, any, all, keep, map, str_eq,
  if◌then◌else◌,
}
use token_bank.Result.{Result, ok, err, validation_error}
use token_bank.Json.{Json, Fields, bool, str, arr, obj, nat, fields, texts}
use token_bank.World.{World}
use token_bank.Text.{take_chars}
use token_bank.Verifier.Common.{
  VerifierStatus, VerifierCheckResult, VerifierRecipe, VerifiedEnvelope, check_envelope_integrity,
  check_hashes, check_policy_linkage, check_secret_redaction, check_output_schema,
}
use token_bank.Verifier.Tasks.{run_task_specific_checks}

abbrev pub is_failed : VerifierStatus → Bool
is_failed VerifierStatus.failed = true
is_failed _ = false

abbrev pub is_warning : VerifierStatus → Bool
is_warning VerifierStatus.needs_review = true
is_warning _ = false

abbrev pub is_skipped : VerifierStatus → Bool
is_skipped VerifierStatus.skipped = true
is_skipped _ = false

unfoldable pub names_of : (VerifierStatus → Bool) → List VerifierCheckResult → List String
names_of p checks = map (λ c. c.name) (keep (λ c. p c.status) checks)

unfoldable pub has_name : String → List String → Bool
has_name name names = any (str_eq name) names

-- failed_names.intersection({...})
abbrev pub meets : List String → List String → Bool
meets names others = any (λ name. has_name name others) names

-- VerifierRecipe.recommendation
unfoldable pub recommendation_from : List (String × String) → String → String → String
recommendation_from [] key default = default
recommendation_from ((k, v) ∷ rest) key default =
    if str_eq k key then v else recommendation_from rest key default

abbrev pub recommendation : VerifierRecipe → String → String → String
recommendation recipe key default = recommendation_from recipe.recommendations key default

unfoldable pub task_recommendation : VerifierRecipe → List String → List String → Option String
unfolding has_name recommendation_from
task_recommendation recipe failed warned =
    if has_name "url_policy_safety" failed
    then some (recommendation recipe "private_ip_or_redirect" "quarantine")
    else if has_name "url_timeout" failed
    then some (recommendation recipe "timeout" "retry")
    else if has_name "url_status" warned
    then some (recommendation recipe "http_4xx" "accept_with_warning")
    else if has_name "url_status" failed
    then some (recommendation recipe "default_failure" "reject")
    else if has_name "dedup_overmerge" warned
    then some (recommendation recipe "overmerge" "accept_with_warning")
    else if has_name "dedup_exact" failed
    then some (recommendation recipe "default_failure" "reject")
    else if has_name "topic_label_enum" failed
    then some (recommendation recipe "label_not_enum" "retry")
    else if has_name "topic_confidence_range" failed
    then some (recommendation recipe "schema_invalid" "retry")
    else if has_name "topic_confidence" warned
    then some (recommendation recipe "low_confidence" "accept_with_warning")
    else if has_name "claim_source_ref" failed
    then some (recommendation recipe "missing_source_ref" "fallback")
    else if has_name "claim_entity" failed
    then some (recommendation recipe "missing_entity" "retry")
    else if meets
        ("claim_text" ∷ "claim_type_enum" ∷ "claim_confidence_range" ∷ "claim_evidence_hint" ∷ [])
        failed
    then some (recommendation recipe "schema_invalid" "retry")
    else if has_name "webpage_empty" failed
    then some (recommendation recipe "empty" "fallback")
    else if has_name "webpage_prompt_injection" warned
    then some (recommendation recipe "prompt_injection" "accept_with_warning")
    else none

abbrev or_accept : Option String → String
or_accept none = "accept"
or_accept (some r) = r

unfoldable pub recommend : VerifierRecipe → List VerifierCheckResult → String
unfolding has_name names_of recommendation_from task_recommendation
recommend recipe checks =
    let failed = names_of is_failed checks in
    let warned = names_of is_warning checks in
    if has_name "secret_redaction" failed
    then recommendation recipe "secret_detected" "quarantine"
    else if has_name "output_hash_present" failed
    then recommendation recipe "output_hash_missing" "reject"
    else if meets ("output_hash_valid" ∷ "result_hash_valid" ∷ []) failed
    then recommendation recipe "hash_mismatch" "quarantine"
    else if has_name "output_schema" failed
    then recommendation recipe "schema_invalid" "retry"
    else if has_name "policy_linkage" failed
    then "quarantine"
    else or_accept (task_recommendation recipe failed warned)

abbrev no_checks : List VerifierCheckResult → Bool
no_checks [] = true
no_checks (c ∷ cs) = false

unfoldable pub aggregate_status : List VerifierCheckResult → String
aggregate_status checks =
    if no_checks checks
    then "skipped"
    else if any (λ c. is_failed c.status) checks
    then "failed"
    else if any (λ c. is_warning c.status) checks
    then "needs_review"
    else if all (λ c. is_skipped c.status) checks
    then "skipped"
    else "passed"

unfoldable pub status_for_group : List VerifierCheckResult → List String → String
unfolding aggregate_status has_name
status_for_group checks names = aggregate_status (keep (λ c. has_name c.name names) checks)

unfoldable pub report_metadata :
    VerifierRecipe → List VerifierCheckResult → List VerifierCheckResult → String → Fields
unfolding status_for_group names_of
report_metadata recipe checks deterministic recommended = fields (
    ("safety_status", str (status_for_group checks ("secret_redaction" ∷ [])))
    ∷ ("schema_status", str (status_for_group checks ("output_schema" ∷ [])))
    ∷ ("policy_status", str (status_for_group checks ("policy_linkage" ∷ [])))
    ∷ ("deterministic_status", str (aggregate_status deterministic))
    ∷ ("blocking_failures", arr (texts (names_of is_failed checks)))
    ∷ ("warning_failures", arr (texts (names_of is_warning checks)))
    ∷ ("sampled_audit_required", bool false)
    ∷ ("sampled_audit_rate_bps", nat recipe.sampled_audit_rate_bps)
    ∷ ("llm_judge_used", bool false)
    ∷ ("quarantine_auto_fallback", bool false)
    ∷ ("recommendation", str recommended)
    ∷ [])

-- without `created_at`, the time at which it is built
pub record VerifierReport : Type 0 where
  pub verifier_report_id : String
  pub work_unit_id : String
  pub result_envelope_id : String
  pub verifier_recipe_id : String
  pub status : VerifierStatus
  pub recommendation : String
  pub checks : List VerifierCheckResult
  pub output_hash : String
  pub result_hash : String
  pub metadata : Fields

unfoldable pub status_for_recommendation : String → VerifierStatus
status_for_recommendation r =
    if str_eq r "accept"
    then VerifierStatus.passed
    else if str_eq r "accept_with_warning"
    then VerifierStatus.needs_review
    else VerifierStatus.failed

-- VerifierRecommendation, the literals that a report may bear
abbrev pub verifier_recommendations : List String
verifier_recommendations =
    "accept" ∷ "accept_with_warning" ∷ "retry" ∷ "fallback" ∷ "reject" ∷ "quarantine" ∷ "escalate"
    ∷ "review" ∷ []

abbrev or_text : String → String → String
or_text s t = if str_eq s "" then t else s

module _ (w : World) where
  unfoldable pub build_verifier_report :
      String → VerifiedEnvelope → List VerifierCheckResult → String → Fields → Result VerifierReport
  unfolding status_for_recommendation has_name take_chars
  build_verifier_report recipe_id e checks recommended metadata =
      let report_id = append "vr_" (
        take_chars 24 (
          w.json_digest (
            obj (
              fields (
                ("recipe_id", str recipe_id)
                ∷ ("result_envelope_id", str e.base.result_envelope_id)
                ∷ ("recommendation", str recommended)
                ∷ ("check_names", arr (texts (map (λ (c : VerifierCheckResult). c.name) checks)))
                ∷ []))))) in
      if has_name recommended verifier_recommendations
      then ok (record {
        verifier_report_id = report_id;
        work_unit_id = e.base.work_unit_id;
        result_envelope_id = e.base.result_envelope_id;
        verifier_recipe_id = recipe_id;
        status = status_for_recommendation recommended;
        recommendation = recommended;
        checks = checks;
        output_hash = or_text e.base.output_hash "missing_output_hash";
        result_hash = or_text e.base.result_hash "missing_result_hash";
        metadata = metadata;
      })
      else err validation_error

  module _ (schema_error : Fields → Json → Option Json) where
    unfoldable pub all_checks :
        VerifierRecipe → VerifiedEnvelope → Option Fields → Option Fields → List VerifierCheckResult
    unfolding check_envelope_integrity check_hashes check_policy_linkage check_secret_redaction
        check_output_schema run_task_specific_checks
    all_checks recipe e work_unit policy_decision =
        check_envelope_integrity e.base
        ++ check_hashes w e
        ++ check_policy_linkage e.base policy_decision
        ++ check_secret_redaction e.base
        ++ check_output_schema schema_error e.base recipe work_unit
        ++ run_task_specific_checks recipe.verifier_recipe_id e.base

    unfoldable pub run :
        VerifierRecipe → VerifiedEnvelope → Option Fields → Option Fields → Result VerifierReport
    unfolding all_checks recommend report_metadata build_verifier_report
    run recipe e work_unit policy_decision =
        let checks = all_checks recipe e work_unit policy_decision in
        let recommended = recommend recipe checks in
        build_verifier_report recipe.verifier_recipe_id e checks recommended (
          report_metadata recipe checks (run_task_specific_checks recipe.verifier_recipe_id e.base)
            recommended)
