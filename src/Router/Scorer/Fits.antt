-- ===== src/Router/Scorer/Fits.antt =====
-- The parts of a candidate's score in router/route_scorer.py.
use token_bank.Prelude.{
  ℕ, ◌-◌, String, Bool, true, false, ◌&&◌, Option, none, some, List, [], ◌∷◌, any, length, leb, ltb,
  ◌==◌, str_eq, if◌then◌else◌,
}
use token_bank.Verifier.Runner.{has_name}
use token_bank.Router.Floats.{Floats, min_of, max_of}
use token_bank.Router.Model.{RouteCandidate, CapacityProfile, TaskProfile, TaskAnalysisReport}

-- DIFFICULTY_ORDER.get(difficulty, 2)
unfoldable pub difficulty_order : String → ℕ
difficulty_order d =
    if str_eq d "trivial"
    then 0
    else if str_eq d "easy"
    then 1
    else if str_eq d "medium"
    then 2
    else if str_eq d "high"
    then 3
    else if str_eq d "expert"
    then 4
    else 2

-- MODEL_TIER_ORDER.get(model_tier, 1)
unfoldable pub tier_order : String → ℕ
tier_order t =
    if str_eq t "weak_general"
    then 0
    else if str_eq t "standard"
    then 1
    else if str_eq t "strong"
    then 2
    else if str_eq t "frontier"
    then 3
    else if str_eq t "specialist"
    then 3
    else 1

-- d.get(key)
unfoldable pub capability_score {ℓ} : {A : Type ℓ} → String → List (String × A) → Option A
capability_score key [] = none
capability_score key ((k, v) ∷ rest) = if str_eq k key then some v else capability_score key rest

module _ (f : Floats) where
  unfoldable pub capability_scores : CapacityProfile f.F → List (String × f.F) → List f.F
  unfolding capability_score min_of max_of
  capability_scores capacity [] = []
  capability_scores capacity ((capability, min_score) ∷ rest) =
      elim (capability_score capability capacity.capabilities) [
        | none ↦ f.lit 0 1
        | some score ↦ min_of f (f.lit 10 1) (f.over score (max_of f min_score (f.lit 1 2)))
      ]
      ∷ capability_scores capacity rest

  unfoldable pub capability_fit : TaskProfile f.F → CapacityProfile f.F → f.F
  unfolding capability_scores
  capability_fit task capacity = elim task.required_capabilities [
    | [] ↦ f.lit 10 1
    | (r ∷ rs) ↦
        f.over (f.sum (capability_scores capacity (r ∷ rs)))
          (f.of_nat (length (capability_scores capacity (r ∷ rs))))
  ]

  unfoldable pub tier_fit_of : ℕ → ℕ → f.F
  unfolding min_of max_of
  tier_fit_of tier required_tier =
      if leb required_tier tier
      then min_of f (f.lit 10 1)
          (f.plus (f.lit 82 2) (f.times (f.of_nat (tier - required_tier)) (f.lit 7 2)))
      else max_of f (f.lit 25 2)
          (f.minus (f.lit 72 2) (f.times (f.of_nat (required_tier - tier)) (f.lit 18 2)))

  -- where there is no model profile
  unfoldable pub backend_tier_fit : ℕ → CapacityProfile f.F → f.F
  backend_tier_fit difficulty capacity =
      if leb difficulty 1
        && any (λ (c : String × f.F). str_eq c.0 "deterministic_local") capacity.capabilities
      then f.lit 95 2
      else if leb difficulty 2 && str_eq capacity.backend_class "browser_fetch"
      then f.lit 80 2
      else f.lit 45 2

  unfoldable pub model_or_backend_tier_fit : TaskProfile f.F → CapacityProfile f.F → f.F
  unfolding difficulty_order tier_order tier_fit_of backend_tier_fit
  model_or_backend_tier_fit task capacity =
      let difficulty = difficulty_order task.difficulty in
      elim capacity.model_tier [
        | none ↦ backend_tier_fit difficulty capacity
        | some model_tier ↦
            tier_fit_of (tier_order model_tier)
              (if leb difficulty 1 then 0 else if leb difficulty 2 then 1 else 2)
      ]

  unfoldable pub memory_fit : CapacityProfile f.F → f.F
  memory_fit capacity = elim capacity.verifier_pass_rate [
    | none ↦ f.lit 70 2
    | some rate ↦ if ltb 0 capacity.sample_size then rate else f.lit 70 2
  ]

  unfoldable pub quality_fit : TaskProfile f.F → CapacityProfile f.F → f.F
  unfolding model_or_backend_tier_fit memory_fit has_name
  quality_fit task capacity =
      let verifier_fit =
        if has_name task.task_type capacity.verified_for then f.lit 85 2 else f.lit 55 2 in
      f.plus
        (f.plus (f.times (f.lit 55 2) (model_or_backend_tier_fit task capacity))
          (f.times (f.lit 25 2) verifier_fit))
        (f.times (f.lit 20 2) (memory_fit capacity))

  unfoldable pub cost_base : ℕ → f.F
  cost_base cost =
      if leb cost 1000
      then f.lit 80 2
      else if leb cost 10000
      then f.lit 65 2
      else if leb cost 100000
      then f.lit 45 2
      else f.lit 25 2

  unfoldable pub cost_fit : RouteCandidate → TaskProfile f.F → f.F
  unfolding cost_base min_of max_of
  cost_fit candidate task =
      if candidate.estimated_cost_micros == 0
      then f.lit 10 1
      else (let base = cost_base candidate.estimated_cost_micros in
          if str_eq task.cost_preference "cost_first"
          then max_of f (f.lit 0 1) (f.minus base (f.lit 10 2))
          else if str_eq task.cost_preference "quality_first"
          then min_of f (f.lit 10 1) (f.plus base (f.lit 5 2))
          else base)

  unfoldable pub latency_fit : CapacityProfile f.F → TaskProfile f.F → f.F
  latency_fit capacity task =
      if str_eq capacity.availability_state "degraded" then f.lit 45 2 else elim capacity.p50_ms [
        | none ↦ if str_eq task.latency_preference "high" then f.lit 58 2 else f.lit 65 2
        | some p50 ↦
            if leb p50 500 then f.lit 95 2 else if leb p50 2000 then f.lit 75 2 else f.lit 45 2
      ]

  unfoldable pub trust_fit : CapacityProfile f.F → f.F
  trust_fit capacity =
      if str_eq capacity.ownership_scope "user_local"
      then f.lit 10 1
      else if str_eq capacity.ownership_scope "system"
      then f.lit 90 2
      else if str_eq capacity.ownership_scope "team_local"
      then f.lit 85 2
      else f.lit 40 2

  abbrev add_if : Bool → f.F → f.F → f.F
  add_if test amount x = if test then f.plus x amount else x

  unfoldable pub uncertainty_penalty :
      CapacityProfile f.F → TaskAnalysisReport f.F → List (String × String) → f.F
  unfolding min_of max_of
  uncertainty_penalty capacity report results =
      let doubt =
        f.plus (f.lit 3 2)
          (f.times (max_of f (f.lit 0 1) (f.minus (f.lit 10 1) report.confidence)) (f.lit 12 2)) in
      let unmeasured =
        add_if (elim capacity.p50_ms [ none ↦ true | some p50 ↦ false ]) (f.lit 3 2) doubt in
      let unproved = add_if (capacity.sample_size == 0) (f.lit 4 2) unmeasured in
      let pending =
        add_if (any (λ (r : String × String). str_eq r.1 "pending_policy_decision") results)
          (f.lit 3 2) unproved in
      min_of f (f.lit 25 2) pending
