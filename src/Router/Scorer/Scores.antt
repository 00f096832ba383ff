-- ===== src/Router/Scorer/Scores.antt =====
-- The score of one candidate in router/route_scorer.py, with its trace. The models that hold them are
-- built without pydantic's checks of their ranges.
use Prim.Native.String.{◌++◌ as append}
use token_bank.Prelude.{
  ℕ, ◌-◌, String, Bool, not, Option, none, some, List, [], ◌∷◌, ◌++◌, any, map, keep, ◌==◌, str_eq,
  if◌then◌else◌,
}
use token_bank.Text.Decimal.{decimal}
use token_bank.Router.Floats.{Floats, min_of, max_of}
use token_bank.Router.Model.{
  RouteCandidate, RoutePlan, BackendManifest, CapacityProfile, TaskProfile, TaskAnalysisReport,
}
use token_bank.Router.Scorer.Filters.{
  is_passing, has_recipe, hard_filter_results, hard_filters_pass,
}
use token_bank.Router.Scorer.Fits.{
  capability_score, capability_fit, quality_fit, cost_fit, latency_fit, trust_fit,
  uncertainty_penalty,
}

-- score_weights, weighted_components: a value for each component
pub record Components (F : Type 0) : Type 0 where
  pub capability_fit : F
  pub policy_fit : F
  pub quality_fit : F
  pub cost_fit : F
  pub latency_fit : F
  pub trust_fit : F

pub record CandidateScore (F : Type 0) : Type 0 where
  pub total : F
  pub fits : Components F
  pub uncertainty_penalty : F

pub record CandidateScoreTrace (F : Type 0) : Type 0 where
  pub candidate_id : String
  pub score : CandidateScore F
  pub rank : Option ℕ
  pub passes : Bool  -- hard_filter_decision is "pass", not "fail"
  pub hard_filter_results : List (String × String)
  pub weighted_components : Components F
  pub reason_codes : List String

-- the names of `required_capabilities` that the profile does not have
unfoldable pub missing_required_capabilities {ℓ} :
    {A : Type ℓ} → List (String × A) → List (String × A) → List String
missing_required_capabilities capabilities [] = []
missing_required_capabilities {A = A} capabilities ((name, min_score) ∷ rest) =
    let missing = missing_required_capabilities capabilities rest in
    if any (λ (c : String × A). str_eq c.0 name) capabilities then missing else name ∷ missing

abbrev append_if : Bool → String → List String
append_if test reason = if test then reason ∷ [] else []

abbrev missing_reasons : List String → List String
missing_reasons [] = "matches_required_capabilities" ∷ []
missing_reasons missing = map (append "missing_capability:") missing

module _ {F : Type 0} where
  unfoldable pub candidate_reason_codes :
      RouteCandidate
      → List (String × String)
      → Bool
      → TaskProfile F
      → CapacityProfile F
      → TaskAnalysisReport F
      → List String
  unfolding decimal missing_required_capabilities is_passing
  candidate_reason_codes candidate results passes task capacity report =
      "scorer:wp_rb3"
      ∷ append "backend_class:" candidate.backend_class
      ∷ append "priority:" (decimal candidate.priority)
      ∷ append "hard_filters:" (if passes then "pass" else "fail")
      ∷ (append_if (has_recipe candidate.verifier_recipe_id) "verifier_recipe_available"
          ++ (missing_reasons
                (missing_required_capabilities capacity.capabilities task.required_capabilities)
              ++ (append_if report.requires_strong_reasoning "strong_reasoning_required"
                  ++ (append_if (candidate.estimated_cost_micros == 0) "zero_internal_cost_estimate"
                      ++ map (λ (r : String × String). append "hard_filter_failed:" r.0)
                          (keep (λ (r : String × String). not (is_passing r.1)) results)))))

module _ (f : Floats) where
  abbrev default_weights : Components f.F
  default_weights = record {
    capability_fit = f.lit 30 2;
    policy_fit = f.lit 25 2;
    quality_fit = f.lit 20 2;
    cost_fit = f.lit 10 2;
    latency_fit = f.lit 5 2;
    trust_fit = f.lit 10 2;
  }

  abbrev sum_components : Components f.F → f.F
  sum_components c = f.sum (
      c.capability_fit ∷ c.policy_fit ∷ c.quality_fit ∷ c.cost_fit ∷ c.latency_fit ∷ c.trust_fit
      ∷ [])

  abbrev weight_of : List (String × f.F) → String → f.F → f.F
  weight_of weights component default = elim (capability_score component weights) [
    | none ↦ default
    | some weight ↦ weight
  ]

  -- `weights` is the routebook's `score_weights`
  unfoldable pub score_weights : List (String × f.F) → Components f.F
  unfolding capability_score
  score_weights weights =
      let result : Components f.F = record {
        capability_fit = weight_of weights "capability_fit" (f.lit 30 2);
        policy_fit = weight_of weights "policy_fit" (f.lit 25 2);
        quality_fit = weight_of weights "quality_fit" (f.lit 20 2);
        cost_fit = weight_of weights "cost_fit" (f.lit 10 2);
        latency_fit = weight_of weights "latency_fit" (f.lit 5 2);
        trust_fit = weight_of weights "trust_fit" (f.lit 10 2);
      } in
      let total = sum_components result in
      if not (f.less (f.lit 0 1) total) then default_weights else record {
        capability_fit = f.round4 (f.over result.capability_fit total);
        policy_fit = f.round4 (f.over result.policy_fit total);
        quality_fit = f.round4 (f.over result.quality_fit total);
        cost_fit = f.round4 (f.over result.cost_fit total);
        latency_fit = f.round4 (f.over result.latency_fit total);
        trust_fit = f.round4 (f.over result.trust_fit total);
      }

  unfoldable pub candidate_fits :
      RouteCandidate → Bool → TaskProfile f.F → CapacityProfile f.F → Components f.F
  unfolding capability_fit quality_fit cost_fit latency_fit trust_fit
  candidate_fits candidate passes task capacity = record {
    capability_fit = capability_fit f task capacity;
    policy_fit = if passes then f.lit 10 1 else f.lit 0 1;
    quality_fit = quality_fit f task capacity;
    cost_fit = cost_fit f candidate task;
    latency_fit = latency_fit f capacity task;
    trust_fit = trust_fit f capacity;
  }

  unfoldable pub weigh : Components f.F → Components f.F → Components f.F
  weigh fits weights = record {
    capability_fit = f.round4 (f.times fits.capability_fit weights.capability_fit);
    policy_fit = f.round4 (f.times fits.policy_fit weights.policy_fit);
    quality_fit = f.round4 (f.times fits.quality_fit weights.quality_fit);
    cost_fit = f.round4 (f.times fits.cost_fit weights.cost_fit);
    latency_fit = f.round4 (f.times fits.latency_fit weights.latency_fit);
    trust_fit = f.round4 (f.times fits.trust_fit weights.trust_fit);
  }

  -- the total before it is rounded; a priority is at least 1
  unfoldable pub total_of : ℕ → Bool → Components f.F → f.F → f.F
  unfolding min_of max_of
  total_of priority passes weighted penalty =
      let priority_penalty = min_of f (f.lit 8 2) (f.times (f.of_nat (priority - 1)) (f.lit 4 2)) in
      let total = max_of f (f.lit 0 1) (
        min_of f (f.lit 10 1)
          (f.minus (f.minus (sum_components weighted) penalty) priority_penalty)) in
      if passes then total else f.lit 0 1

  unfoldable pub candidate_score :
      RouteCandidate
      → Bool
      → List (String × String)
      → TaskProfile f.F
      → CapacityProfile f.F
      → TaskAnalysisReport f.F
      → Components f.F
      → CandidateScore f.F × Components f.F
  unfolding candidate_fits weigh total_of uncertainty_penalty
  candidate_score candidate passes results task capacity report weights =
      let fits = candidate_fits candidate passes task capacity in
      let penalty = uncertainty_penalty f capacity report results in
      let weighted = weigh fits weights in
      (
        record {
          total = f.round4 (total_of candidate.priority passes weighted penalty);
          fits = record {
            capability_fit = f.round4 fits.capability_fit;
            policy_fit = fits.policy_fit;
            quality_fit = f.round4 fits.quality_fit;
            cost_fit = f.round4 fits.cost_fit;
            latency_fit = f.round4 fits.latency_fit;
            trust_fit = f.round4 fits.trust_fit;
          };
          uncertainty_penalty = f.round4 penalty;
        },
        weighted,
      )

  -- the body of the loop of `score` for one candidate, with what it has looked up
  unfoldable pub candidate_trace :
      String
      → List String
      → RoutePlan
      → TaskProfile f.F
      → TaskAnalysisReport f.F
      → Components f.F
      → RouteCandidate
      → CapacityProfile f.F
      → BackendManifest
      → CandidateScoreTrace f.F
  unfolding hard_filter_results hard_filters_pass candidate_score candidate_reason_codes
  candidate_trace task_type forbidden plan task report weights candidate capacity backend =
      let results =
        hard_filter_results task_type forbidden plan candidate capacity backend report in
      let passes = hard_filters_pass results in
      let (score, weighted) =
        candidate_score candidate passes results task capacity report weights in
      record {
        candidate_id = candidate.route_candidate_id;
        score = score;
        rank = none;
        passes = passes;
        hard_filter_results = results;
        weighted_components = weighted;
        reason_codes = candidate_reason_codes candidate results passes task capacity report;
      }
