-- ===== src/Router/Scorer/Passing.antt =====
-- What it means that a candidate passes the hard filters of router/route_scorer.py, for the backend and
-- the profile that it is scored with.
use token_bank.Prelude.{
  ℕ, ◌≤◌, String, ◌≡◌, refl, Bool, true, false, not, ◌||◌, ◌&&◌, List, all-All, leb, str_eq,
  if◌then◌else◌, arith, Bool-cases, inl, inr,
}
use token_bank.Json.{str, get}
use token_bank.Json.Equality.{equals}
use token_bank.Verifier.Runner.{has_name}
use token_bank.Router.Model.{
  level_order, RouteCandidate, RoutePlan, BackendManifest, CapacityProfile, TaskAnalysisReport,
}
use token_bank.Router.Scorer.Filters.{
  gateway_worker_id, is_api_gateway, is_passing, pass_if, has_recipe, requires_verifier,
  api_gateway_boundary_result, hard_filter_results, hard_filters_pass,
}

pub record IsSafe {F : Type 0} (task_type : String) (forbidden : List String) (plan : RoutePlan)
    (report : TaskAnalysisReport F) (c : RouteCandidate) (capacity : CapacityProfile F)
    (backend : BackendManifest) : Type 0 where
  pub allowed : str_eq report.preflight_decision "allow" ≡ true
  pub supported : has_name task_type backend.supported_task_types ≡ true
  pub private : has_name report.effective_privacy_level backend.allowed_privacy_levels ≡ true
  pub verified :
      (requires_verifier report.effective_task_level && not (has_recipe c.verifier_recipe_id))
      ≡ false
  pub permitted : has_name c.backend_class forbidden ≡ false
  pub at_gateway :
      (is_api_gateway c.backend_class
        && not (equals (get c.worker_selector "worker_id") (str gateway_worker_id)))
      ≡ false
  pub no_secret : report.raw_secret_detected ≡ false
  pub available : str_eq capacity.availability_state "unavailable" ≡ false
  pub not_downgraded : level_order report.effective_task_level ≤ level_order plan.task_level
  pub not_peer : str_eq capacity.ownership_scope "peer" ≡ false

pass_if-true : (b : Bool) → is_passing (pass_if b) ≡ true → b ≡ true
unfolding is_passing
pass_if-true true h = refl
pass_if-true false h = cc

boundary-true :
    (c : RouteCandidate)
    → is_passing (api_gateway_boundary_result c) ≡ true
    → (is_api_gateway c.backend_class
        && not (equals (get c.worker_selector "worker_id") (str gateway_worker_id)))
      ≡ false
unfolding api_gateway_boundary_result is_passing
boundary-true c = elim (Bool-cases (is_api_gateway c.backend_class)) [
  | inr local ↦ rw local (λ h. refl)
  | inl remote ↦
      elim (Bool-cases (equals (get c.worker_selector "worker_id") (str gateway_worker_id))) [
        | inl own ↦ rw (remote, own) (λ h. refl)
        | inr other ↦ rw (remote, other) (λ h. cc)
      ]
]

peer-true : (b : Bool) → is_passing (if not b then "not_required" else "fail") ≡ true → b ≡ false
unfolding is_passing
peer-true true h = cc
peer-true false h = refl

not-true : (b : Bool) → not b ≡ true → b ≡ false
not-true true h = cc
not-true false h = refl

implied : (a b : Bool) → (not a || b) ≡ true → (a && not b) ≡ false
implied a b h = ground arith

within : (m n : ℕ) → leb m n ≡ true → m ≤ n
within m n h = ground arith

module _ {F : Type 0} (task_type : String) (forbidden : List String) (plan : RoutePlan)
    (report : TaskAnalysisReport F) (c : RouteCandidate) (capacity : CapacityProfile F)
    (backend : BackendManifest) where
  pub hard_filters_pass-IsSafe :
      hard_filters_pass (hard_filter_results task_type forbidden plan c capacity backend report)
        ≡ true
      → IsSafe task_type forbidden plan report c capacity backend
  unfolding hard_filters_pass hard_filter_results
  hard_filters_pass-IsSafe h =
      let (p₀, (p₁, (p₂, (p₃, (p₄, (p₅, (p₆, (p₇, (p₈, (p₉, _)))))))))) =
        (all-All (λ (r : String × String). is_passing r.1)
            (hard_filter_results task_type forbidden plan c capacity backend report)).0
          h in
      record {
        allowed = pass_if-true _ p₀;
        supported = pass_if-true _ p₁;
        private = pass_if-true _ p₂;
        verified = implied _ _ (pass_if-true _ p₃);
        permitted = not-true _ (pass_if-true _ p₄);
        at_gateway = boundary-true c p₅;
        no_secret = not-true _ (pass_if-true _ p₆);
        available = not-true _ (pass_if-true _ p₇);
        not_downgraded = within _ _ (pass_if-true _ p₈);
        not_peer = peer-true _ p₉;
      }
