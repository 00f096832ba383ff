-- ===== src/Policy/Checks.antt =====
-- policy/checks.py. `repr` is Python's text of a value that is no text, None or truth value. The sets
-- of a bundle are lists of texts, in any order and with repetitions.
use token_bank.Prelude.{
  String, Bool, true, false, not, ◌&&◌, ◌||◌, List, [], ◌∷◌, ◌++◌, any, all, keep, map, str_eq,
  if◌then◌else◌,
}
use token_bank.Json.{
  Json, Items, Fields, null, bool, int, float, str, arr, obj, nil, cons, end, field, get, get_or,
  truthy, fields,
}
use token_bank.Text.{codes, ends_codes}
use token_bank.Policy.Extensions.{ExtensionLintIssue, lint_extension_keys}
use token_bank.Sql.Order.{text_before}

abbrev pub control_plane_gateway_worker_id : String
control_plane_gateway_worker_id = "wrk_control_plane_gateway"

pub record PolicyBundle : Type 0 where
  pub allowed_backend_ids : List String
  pub allowed_backend_classes : List String
  pub forbidden_backend_classes : List String

pub record PolicyCheck : Type 0 where
  pub name : String
  pub passed : Bool
  pub reason : String

unfoldable pub as_dict : PolicyCheck → Json
as_dict c =
    obj (fields (("name", str c.name) ∷ ("passed", bool c.passed) ∷ ("reason", str c.reason) ∷ []))

pub data DecisionValue : Type 0 where
  approved : DecisionValue
  denied : DecisionValue

-- without `decided_at`, the time at which it is built
pub record PolicyDecision : Type 0 where
  pub policy_decision_id : String
  pub work_unit_id : String
  pub route_plan_id : String
  pub decision : DecisionValue
  pub reasons : List String
  pub checks : List Json
  pub effective_constraints : Json

-- `x in set`
unfoldable pub is_in : String → List String → Bool
is_in x xs = any (str_eq x) xs

-- `a or b`
abbrev pub or_else : Json → Json → Json
or_else a b = if truthy a then a else b

-- isinstance(value, int) and not isinstance(value, bool)
unfoldable pub is_int : Json → Bool
is_int (int n) = true
is_int _ = false

unfoldable pub is_bad_micros : String → Json → Bool
unfolding is_int codes ends_codes
is_bad_micros key v = ends_codes (codes "_micros") (codes key) && not (is_int v)

unfoldable mutual
  unfolding is_bad_micros

  pub contains_bad_micros : Json → Bool
  contains_bad_micros (obj fs) = fields_bad_micros fs
  contains_bad_micros (arr xs) = items_bad_micros xs
  contains_bad_micros null = false
  contains_bad_micros (bool b) = false
  contains_bad_micros (int n) = false
  contains_bad_micros (float m k) = false
  contains_bad_micros (str s) = false

  pub fields_bad_micros : Fields → Bool
  fields_bad_micros end = false
  fields_bad_micros (field k v rest) =
      is_bad_micros k v || contains_bad_micros v || fields_bad_micros rest

  pub items_bad_micros : Items → Bool
  items_bad_micros nil = false
  items_bad_micros (cons x xs) = contains_bad_micros x || items_bad_micros xs

-- `sorted` of a set
unfoldable pub insert_text : String → List String → List String
unfolding text_before
insert_text t [] = t ∷ []
insert_text t (s ∷ ss) =
    let rest = insert_text t ss in
    if str_eq s t then s ∷ ss else if text_before s t then s ∷ rest else t ∷ s ∷ ss

unfoldable pub sorted_set : List String → List String
unfolding insert_text
sorted_set [] = []
sorted_set (t ∷ ts) = insert_text t (sorted_set ts)

pub record PolicyInputs : Type 0 where
  pub work_unit : Fields
  pub route_plan : Fields
  pub worker_manifest : Fields
  pub backend_manifest : Fields
  pub policy_bundle : PolicyBundle

abbrev pub all_passed : String
all_passed = "all deterministic WP3 policy checks passed"

abbrev failed_reasons : List PolicyCheck → List String
failed_reasons checks = map (λ c. c.reason) (keep (λ c. not c.passed) checks)

-- `if not reasons:`
unfoldable pub or_all_passed : List String → List String
or_all_passed [] = all_passed ∷ []
or_all_passed (r ∷ rs) = r ∷ rs

unfoldable pub reasons_of : List PolicyCheck → List String
unfolding or_all_passed
reasons_of checks = or_all_passed (failed_reasons checks)

unfoldable pub decision_of : List PolicyCheck → DecisionValue
decision_of checks =
    if all (λ c. c.passed) checks then DecisionValue.approved else DecisionValue.denied

module _ (repr : Json → String) where
  -- str(value)
  unfoldable pub text_of : Json → String
  text_of (str s) = s
  text_of null = "None"
  text_of (bool true) = "True"
  text_of (bool false) = "False"
  text_of v = repr v

  unfoldable pub backend_id_of : PolicyInputs → String
  unfolding text_of
  backend_id_of i =
      text_of (or_else (get i.route_plan "backend_id") (get i.backend_manifest "backend_id"))

  unfoldable pub backend_class_of : PolicyInputs → String
  unfolding text_of
  backend_class_of i =
      text_of (or_else (get i.route_plan "backend_class") (get i.backend_manifest "backend_class"))

  unfoldable pub is_direct_api_worker : PolicyInputs → Bool
  unfolding backend_class_of is_in
  is_direct_api_worker i =
      is_in (backend_class_of i) ("api_model_gateway" ∷ "primary_model_gateway" ∷ [])
      && not (
          str_eq (text_of (get_or i.worker_manifest "worker_id" (str "")))
            control_plane_gateway_worker_id)

  unfoldable pub has_verifier : PolicyInputs → Bool
  unfolding text_of is_in
  has_verifier i =
      not (is_in (text_of (get_or i.work_unit "task_level" (str ""))) ("L1" ∷ "L2" ∷ []))
      || truthy (get i.route_plan "verifier_recipe_id")

  unfoldable pub extension_issues : PolicyInputs → List ExtensionLintIssue
  unfolding lint_extension_keys
  extension_issues i =
      lint_extension_keys (get_or i.work_unit "extensions" (obj end)) "$.work_unit.extensions"
      ++ lint_extension_keys (get_or i.route_plan "extensions" (obj end)) "$.route_plan.extensions"
      ++ lint_extension_keys (get_or i.backend_manifest "extensions" (obj end))
          "$.backend_manifest.extensions"
