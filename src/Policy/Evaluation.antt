-- ===== src/Policy/Evaluation.antt =====
-- `evaluate_policy` of policy/checks.py: the nine checks in their order, and the decision they make.
use Prim.Native.String.{◌++◌ as append}
use token_bank.Prelude.{
  String, Bool, true, false, not, ◌&&◌, ◌||◌, List, [], ◌∷◌, map, str_eq, if◌then◌else◌,
}
use token_bank.Result.{Result, ok, err, validation_error}
use token_bank.Json.{Json, Items, str, arr, obj, nil, cons, get, get_or, truthy, fields, texts}
use token_bank.World.{World}
use token_bank.Text.{take_chars}
use token_bank.Policy.Extensions.{ExtensionLintIssue}
use token_bank.Policy.Checks.{
  PolicyInputs, PolicyCheck, PolicyDecision, as_dict, is_in, text_of, backend_id_of,
  backend_class_of, is_direct_api_worker, has_verifier, extension_issues, contains_bad_micros,
  sorted_set, reasons_of, decision_of,
}

abbrev pub no_issues : List ExtensionLintIssue → Bool
no_issues [] = true
no_issues (x ∷ xs) = false

-- the three documents that are searched for amounts
abbrev pub priced : PolicyInputs → Json
priced i =
    arr (cons (obj i.work_unit) (cons (obj i.route_plan) (cons (obj i.backend_manifest) nil)))

abbrev check : String → Bool → String → PolicyCheck
check name passed reason = record { name = name; passed = passed; reason = reason }

abbrev dicts : List PolicyCheck → Items
dicts [] = nil
dicts (c ∷ cs) = cons (as_dict c) (dicts cs)

module _ (repr : Json → String) where
  unfoldable pub policy_checks : PolicyInputs → List PolicyCheck
  unfolding backend_id_of backend_class_of is_direct_api_worker has_verifier extension_issues
      contains_bad_micros is_in
  policy_checks i =
      check "default_deny_inputs_present"
        (truthy (obj i.work_unit) && truthy (obj i.route_plan) && truthy (obj i.backend_manifest))
        "work unit, route plan, and backend manifest are required"
      ∷ check "needs_review_denied"
          (not
            (truthy (get i.work_unit "needs_review") || truthy (get i.route_plan "needs_review")))
          "needs_review is denied in Phase 0"
      ∷ check "backend_allowlist" (is_in (backend_id_of repr i) i.policy_bundle.allowed_backend_ids)
          (append "backend_id " (append (backend_id_of repr i) " must be allowed"))
      ∷ check "backend_class_allowlist"
          (is_in (backend_class_of repr i) i.policy_bundle.allowed_backend_classes)
          (append "backend_class " (append (backend_class_of repr i) " must be allowed"))
      ∷ check "forbidden_backend_class"
          (not (is_in (backend_class_of repr i) i.policy_bundle.forbidden_backend_classes))
          (append "backend_class " (append (backend_class_of repr i) " must not be forbidden"))
      ∷ check "worker_direct_api_model_denied" (not (is_direct_api_worker repr i))
          "API model gateway execution must stay on the control plane gateway"
      ∷ check "l1_l2_verifier_required" (has_verifier repr i)
          "L1/L2 routes require verifier_recipe_id"
      ∷ check "forbidden_extension_keys" (no_issues (extension_issues repr i))
          "seller/marketplace/payment/payout/settlement/yield-like keys are denied"
      ∷ check "micros_fields_integer" (not (contains_bad_micros (priced i)))
          "cost/currency fields ending in _micros must be integers"
      ∷ []

  -- The decision is made of the identifiers without the white space at their ends, and `NonEmptyStr`
  -- refuses one that is empty then.
  unfoldable pub evaluate_policy : World → PolicyInputs → Result PolicyDecision
  unfolding policy_checks as_dict decision_of reasons_of text_of sorted_set take_chars
  evaluate_policy w i =
      let checks = policy_checks i in
      let work_unit_id =
        text_of repr (get_or i.work_unit "work_unit_id" (str "unknown_work_unit")) in
      let route_plan_id =
        text_of repr (get_or i.route_plan "route_plan_id" (str "unknown_route_plan")) in
      if str_eq (w.strip_text work_unit_id) "" || str_eq (w.strip_text route_plan_id) ""
      then err validation_error
      else ok (record {
        policy_decision_id = append "pd_" (
            take_chars 24 (
              w.json_digest (
                obj (
                  fields (
                    ("work_unit_id", str work_unit_id)
                    ∷ ("route_plan_id", str route_plan_id)
                    ∷ ("checks", arr (dicts checks))
                    ∷ [])))));
        work_unit_id = w.strip_text work_unit_id;
        route_plan_id = w.strip_text route_plan_id;
        decision = decision_of checks;
        reasons = reasons_of checks;
        checks = map as_dict checks;
        effective_constraints = obj (
            fields (
              ("allowed_backend_ids", arr (texts (sorted_set i.policy_bundle.allowed_backend_ids)))
              ∷ (
                "allowed_backend_classes",
                arr (texts (sorted_set i.policy_bundle.allowed_backend_classes)),
              )
              ∷ []));
      })
