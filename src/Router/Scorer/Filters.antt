-- ===== src/Router/Scorer/Filters.antt =====
-- The hard filters of router/route_scorer.py: `_hard_filter_results` and what reads it.
use token_bank.Prelude.{
  String, Bool, true, false, not, ◌||◌, Option, none, some, List, [], ◌∷◌, all, leb, str_eq,
  if◌then◌else◌,
}
use token_bank.Json.{str, get}
use token_bank.Json.Equality.{equals}
use token_bank.Verifier.Runner.{has_name}
use token_bank.Router.Model.{
  TaskLevel, level_order, RouteCandidate, RoutePlan, BackendManifest, CapacityProfile,
  TaskAnalysisReport,
}

-- CONTROL_PLANE_GATEWAY_WORKER_ID and API_GATEWAY_BACKEND_CLASSES of capacity/validators.py
abbrev pub gateway_worker_id : String
gateway_worker_id = "wrk_control_plane_gateway"

unfoldable pub is_api_gateway : String → Bool
is_api_gateway c = str_eq c "api_model_gateway" || str_eq c "primary_model_gateway"

-- PASSING_HARD_FILTER_STATUSES
unfoldable pub is_passing : String → Bool
is_passing status =
    str_eq status "pass" || str_eq status "not_required" || str_eq status "pending_policy_decision"

abbrev pub pass_if : Bool → String
pass_if test = if test then "pass" else "fail"

-- `bool(candidate.verifier_recipe_id)`
abbrev pub has_recipe : Option String → Bool
has_recipe none = false
has_recipe (some id) = not (str_eq id "")

-- effective_task_level in {"L1", "L2", "L3"}
unfoldable pub requires_verifier : TaskLevel → Bool
requires_verifier TaskLevel.l0 = false
requires_verifier _ = true

unfoldable pub api_gateway_boundary_result : RouteCandidate → String
unfolding is_api_gateway equals get
api_gateway_boundary_result candidate =
    if not (is_api_gateway candidate.backend_class)
    then "pass"
    else if equals (get candidate.worker_selector "worker_id") (str gateway_worker_id)
    then "pass"
    else "fail"

module _ {F : Type 0} where
  unfoldable pub hard_filter_results :
      String
      → List String
      → RoutePlan
      → RouteCandidate
      → CapacityProfile F
      → BackendManifest
      → TaskAnalysisReport F
      → List (String × String)
  unfolding has_name requires_verifier api_gateway_boundary_result level_order
  hard_filter_results task_type forbidden_classes route_plan candidate capacity backend report =
      ("preflight_allow", pass_if (str_eq report.preflight_decision "allow"))
      ∷ ("task_type_supported", pass_if (has_name task_type backend.supported_task_types))
      ∷ (
        "privacy_boundary_allowed",
        pass_if (has_name report.effective_privacy_level backend.allowed_privacy_levels),
      )
      ∷ (
        "verifier_available_for_L1_L2_L3",
        pass_if (
            not (requires_verifier report.effective_task_level)
            || has_recipe candidate.verifier_recipe_id),
      )
      ∷ (
        "backend_class_allowed",
        pass_if (not (has_name candidate.backend_class forbidden_classes)),
      )
      ∷ ("worker_direct_api_model_forbidden", api_gateway_boundary_result candidate)
      ∷ ("credential_boundary_valid", pass_if (not report.raw_secret_detected))
      ∷ (
        "capacity_health_not_quarantined",
        pass_if (not (str_eq capacity.availability_state "unavailable")),
      )
      ∷ (
        "task_level_not_downgraded",
        pass_if (leb (level_order report.effective_task_level) (level_order route_plan.task_level)),
      )
      ∷ (
        "peer_negotiation_complete_for_peer_capacity",
        if not (str_eq capacity.ownership_scope "peer") then "not_required" else "fail",
      )
      ∷ []

unfoldable pub hard_filters_pass : List (String × String) → Bool
unfolding is_passing
hard_filters_pass results = all (λ (r : String × String). is_passing r.1) results
