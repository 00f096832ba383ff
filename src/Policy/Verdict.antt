-- ===== src/Policy/Verdict.antt =====
-- When a route is approved, said without the checks, and what the reasons of a decision are.
pub mod Amounts
pub mod Keys
use token_bank.Prelude.{
  String, ◌≡◌, ◌≢◌, refl, ◌↔◌, ◌⊎◌, Bool, true, false, not, ◌&&◌, ◌||◌, [], ◌∷◌, ◌++◌, All, eq_iff,
  if◌then◌else◌,
}
use token_bank.Json.{Json, Fields, obj, end, str, get, get_or, truthy}
use token_bank.Policy.Checks.{
  PolicyInputs, control_plane_gateway_worker_id, is_in, text_of, backend_id_of, backend_class_of,
  is_direct_api_worker, has_verifier, extension_issues,
}
use token_bank.Policy.Evaluation.{no_issues, priced, policy_checks}
use token_bank.Policy.Verdict.Amounts.{AmountsWhole, contains_bad_micros_lem}
use token_bank.Policy.Verdict.Keys.{KeysFree, and-true, both, lint_extension_keys_lem}

-- the extensions of a document
abbrev extensions : Fields → Json
extensions d = get_or d "extensions" (obj end)

-- Each of these is a reason to deny a route, if it fails.
pub record IsPermitted (repr : Json → String) (i : PolicyInputs) : Type 0 where
  pub work_unit_given : i.work_unit ≢ end
  pub route_plan_given : i.route_plan ≢ end
  pub backend_given : i.backend_manifest ≢ end
  pub work_unit_reviewed : truthy (get i.work_unit "needs_review") ≡ false
  pub route_plan_reviewed : truthy (get i.route_plan "needs_review") ≡ false
  pub backend_allowed : is_in (backend_id_of repr i) i.policy_bundle.allowed_backend_ids ≡ true
  pub class_allowed : is_in (backend_class_of repr i) i.policy_bundle.allowed_backend_classes ≡ true
  pub class_not_forbidden :
      is_in (backend_class_of repr i) i.policy_bundle.forbidden_backend_classes ≡ false
  pub on_gateway :
      is_in (backend_class_of repr i) ("api_model_gateway" ∷ "primary_model_gateway" ∷ []) ≡ true
      → text_of repr (get_or i.worker_manifest "worker_id" (str ""))
        ≡ control_plane_gateway_worker_id
  pub verified :
      is_in (text_of repr (get_or i.work_unit "task_level" (str ""))) ("L1" ∷ "L2" ∷ []) ≡ true
      → truthy (get i.route_plan "verifier_recipe_id") ≡ true
  pub work_unit_keys : KeysFree (extensions i.work_unit)
  pub route_plan_keys : KeysFree (extensions i.route_plan)
  pub backend_keys : KeysFree (extensions i.backend_manifest)
  pub amounts : AmountsWhole (priced i)

given : (fs : Fields) → truthy (obj fs) ≡ true ↔ fs ≢ end
unfolding truthy
given end = (λ h e. cc, λ h. absurd (h refl))
given (Fields.field k v rest) = (λ h e. cc, λ h. refl)

not-true : (a : Bool) → not a ≡ true ↔ a ≡ false
not-true true = (λ h. cc, λ h. cc)
not-true false = (λ h. refl, λ h. refl)

-- a || b and not (a && b), as an implication
not-or : (a b : Bool) → not (a || b) ≡ true ↔ (a ≡ false) × (b ≡ false)
not-or true b = (λ h. cc, λ (h, k). cc)
not-or false b = (λ h. (refl, (not-true b).0 h), λ (h, k). (not-true b).1 k)

only_if : (a b : Bool) → not a || b ≡ true ↔ (a ≡ true → b ≡ true)
only_if true b = (λ h e. h, λ f. f refl)
only_if false b = (λ h e. cc, λ f. refl)

not_without : (a b : Bool) → not (a && not b) ≡ true ↔ (a ≡ true → b ≡ true)
not_without true true = (λ h e. refl, λ f. refl)
not_without true false = (λ h e. cc, λ f. cc (f refl))
not_without false b = (λ h e. cc, λ f. refl)

module _ (repr : Json → String) (i : PolicyInputs) where
  free_of_issues : no_issues (extension_issues repr i) ≡ true ↔ (
      (KeysFree (extensions i.work_unit) × KeysFree (extensions i.route_plan))
      × KeysFree (extensions i.backend_manifest))
  unfolding extension_issues
  free_of_issues =
      both _ _
        (both _ _ (lint_extension_keys_lem (extensions i.work_unit) "$.work_unit.extensions")
          (lint_extension_keys_lem (extensions i.route_plan) "$.route_plan.extensions"))
        (lint_extension_keys_lem (extensions i.backend_manifest) "$.backend_manifest.extensions")

  pub checks-IsPermitted : All (λ c. c.passed ≡ true) (policy_checks repr i) → IsPermitted repr i
  unfolding policy_checks has_verifier is_direct_api_worker
  checks-IsPermitted
        (present, (review, (id, (class, (forbidden, (direct, (level, (keys, (amounts, _))))))))) =
      let (both_given, backend) = and-true _ _ present in
      let (unit, route) = and-true _ _ both_given in
      let (unit_review, route_review) = (not-or _ _).0 review in
      let ((unit_keys, route_keys), backend_keys) = free_of_issues.0 keys in
      record {
        work_unit_given = (given i.work_unit).0 unit;
        route_plan_given = (given i.route_plan).0 route;
        backend_given = (given i.backend_manifest).0 backend;
        work_unit_reviewed = unit_review;
        route_plan_reviewed = route_review;
        backend_allowed = id;
        class_allowed = class;
        class_not_forbidden = (not-true _).0 forbidden;
        on_gateway = λ e. (eq_iff _ _).0 ((not_without _ _).0 direct e);
        verified = (only_if _ _).0 level;
        work_unit_keys = unit_keys;
        route_plan_keys = route_keys;
        backend_keys = backend_keys;
        amounts = (contains_bad_micros_lem (priced i)).0 ((not-true _).0 amounts);
      }

  pub IsPermitted-checks : IsPermitted repr i → All (λ c. c.passed ≡ true) (policy_checks repr i)
  unfolding policy_checks has_verifier is_direct_api_worker
  IsPermitted-checks p = (
    rw ((given i.work_unit).1 p.work_unit_given, (given i.route_plan).1 p.route_plan_given)
        ((given i.backend_manifest).1 p.backend_given),
    (
      (not-or _ _).1 (p.work_unit_reviewed, p.route_plan_reviewed),
      (
        p.backend_allowed,
        (
          p.class_allowed,
          (
            (not-true _).1 p.class_not_forbidden,
            (
              (not_without _ _).1 (λ e. (eq_iff _ _).1 (p.on_gateway e)),
              (
                (only_if _ _).1 p.verified,
                (
                  free_of_issues.1 ((p.work_unit_keys, p.route_plan_keys), p.backend_keys),
                  ((not-true _).1 ((contains_bad_micros_lem (priced i)).1 p.amounts), tt),
                ),
              ),
            ),
          ),
        ),
      ),
    ),
  )
