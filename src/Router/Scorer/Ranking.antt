-- ===== src/Router/Scorer/Ranking.antt =====
-- The ranking and the selection of `RouteScorer.score` in router/route_scorer.py. `none` is a
-- KeyError: a candidate whose backend the registry does not have, or with no capacity profile.
use Prim.Native.String.{◌++◌ as append}
use token_bank.Prelude.{
  ℕ, suc, String, Bool, true, false, not, ◌&&◌, Option, none, some, List, [], ◌∷◌, map, keep, ltb,
  str_eq, if◌then◌else◌,
}
use token_bank.Sql.Order.{text_before, order_by}
use token_bank.Text.{codes, starts_codes}
use token_bank.Router.Floats.{Floats}
use token_bank.Router.Model.{
  RouteCandidate, RoutePlan, BackendManifest, CapacityProfile, TaskProfile, TaskAnalysisReport,
  get_backend,
}
use token_bank.Router.Scorer.Scores.{
  Components, CandidateScoreTrace, score_weights, candidate_trace,
}

-- {key(item): item for item in items}[k]: the last item with the key
unfoldable pub last_with {ℓ} : {A : Type ℓ} → (A → String) → String → List A → Option A
last_with key k [] = none
last_with key k (x ∷ xs) = elim (last_with key k xs) [
  | none ↦ if str_eq (key x) k then some x else none
  | some later ↦ some later
]

-- the tuple comparison of the keys in `_ranked_scores`, one component at a time
abbrev pub then_by : Bool → Bool → Bool → Bool
then_by less greater rest = if less then true else if greater then false else rest

-- `candidate_by_id[id]`, of which each scored candidate has an entry
abbrev pub field_of : (RouteCandidate → ℕ) → Option RouteCandidate → ℕ
field_of field none = 0
field_of field (some candidate) = field candidate

module _ (f : Floats) where
  abbrev pub Trace : Type 0
  Trace = CandidateScoreTrace f.F

  abbrev pub first_key_before : Trace → Trace → Bool
  first_key_before a b = a.passes && not b.passes

  unfoldable pub ranks_before : List RouteCandidate → Trace → Trace → Bool
  unfolding last_with text_before
  ranks_before candidates a b =
      let of = λ (t : Trace).
        last_with (λ (c : RouteCandidate). c.route_candidate_id) t.candidate_id candidates in
      let priority = λ (t : Trace). field_of (λ c. c.priority) (of t) in
      let cost = λ (t : Trace). field_of (λ c. c.estimated_cost_micros) (of t) in
      then_by (first_key_before a b) (first_key_before b a) (
        then_by (f.less b.score.total a.score.total) (f.less a.score.total b.score.total) (
          then_by (ltb (priority a) (priority b)) (ltb (priority b) (priority a)) (
            then_by (ltb (cost a) (cost b)) (ltb (cost b) (cost a))
              (text_before a.candidate_id b.candidate_id))))

  unfoldable pub ranked_scores : List RouteCandidate → List Trace → List Trace
  unfolding order_by ranks_before
  ranked_scores candidates traces = order_by (ranks_before candidates) traces

  -- enumerate(ranked_scores, start=n)
  unfoldable pub enumerate_ranks : ℕ → List Trace → List Trace
  enumerate_ranks n [] = []
  enumerate_ranks n (t ∷ ts) = record t { rank = some n } ∷ enumerate_ranks (suc n) ts

  abbrev trace_id : Trace → String
  trace_id t = t.candidate_id

  abbrev or_same : Trace → Option Trace → Trace
  or_same t none = t
  or_same t (some ranked) = ranked

  -- the scores in the order of the plan, each with its rank
  unfoldable pub with_ranks : List Trace → List Trace → List Trace
  unfolding enumerate_ranks last_with
  with_ranks ranked traces =
      map (λ t. or_same t (last_with trace_id t.candidate_id (enumerate_ranks 1 ranked))) traces

  unfoldable pub rejected_reasons : Trace → List String
  unfolding codes starts_codes
  rejected_reasons t =
      (if t.passes then "lower_score_than_selected" else "hard_filter_failed")
      ∷ keep (λ reason. starts_codes (codes "hard_filter_failed:") (codes reason)) t.reason_codes

  -- _rejected_candidates
  unfoldable pub rejected_candidates : String → List Trace → List (String × List String)
  unfolding rejected_reasons
  rejected_candidates selected [] = []
  rejected_candidates selected (t ∷ ts) =
      let rest = rejected_candidates selected ts in
      if str_eq t.candidate_id selected then rest else (t.candidate_id, rejected_reasons t) ∷ rest

  -- without the names of the plan, the Work Unit, the routebook and the scorer
  pub record RouteScoringReport : Type 0 where
    pub route_scoring_id : String
    pub baseline_selected_candidate_id : String
    pub selected_candidate_id : String
    pub selection_status : String
    pub weights : Components f.F
    pub candidate_scores : List Trace
    pub rejected : List (String × List String)
    pub reasons : List String

  -- the selection from the candidates that pass, in the order of their ranks
  unfoldable pub selection :
      RoutePlan → Components f.F → List Trace → List Trace → RouteScoringReport
  unfolding rejected_candidates
  selection plan weights scores [] = record {
    route_scoring_id = append "rs_" plan.route_plan_id;
    baseline_selected_candidate_id = plan.selected_candidate_id;
    selected_candidate_id = plan.selected_candidate_id;
    selection_status = "no_passing_candidate_keep_existing_selection";
    weights = weights;
    candidate_scores = scores;
    rejected = rejected_candidates plan.selected_candidate_id scores;
    reasons =
        "wp_rb3_route_scorer_applied" ∷ "no_passing_candidate"
        ∷ "kept_existing_route_plan_selection" ∷ [];
  }
  selection plan weights scores (best ∷ others) = record {
    route_scoring_id = append "rs_" plan.route_plan_id;
    baseline_selected_candidate_id = plan.selected_candidate_id;
    selected_candidate_id = best.candidate_id;
    selection_status = "selected_highest_scoring_candidate";
    weights = weights;
    candidate_scores = scores;
    rejected = rejected_candidates best.candidate_id scores;
    reasons = "wp_rb3_route_scorer_applied" ∷ "selected_highest_scoring_passing_candidate" ∷ [];
  }

  -- the report on ranked scores, and on the same scores in the order of the plan
  unfoldable pub report_of :
      RoutePlan → Components f.F → List Trace → List Trace → RouteScoringReport
  unfolding with_ranks selection
  report_of plan weights ranked traces =
      selection plan weights (with_ranks ranked traces) (keep (λ t. t.passes) ranked)

  abbrev pub add_trace :
      (CapacityProfile f.F → BackendManifest → Trace)
      → Option BackendManifest
      → Option (CapacityProfile f.F)
      → Option (List Trace)
      → Option (List Trace)
  add_trace trace none capacity rest = none
  add_trace trace (some backend) none rest = none
  add_trace trace (some backend) (some capacity) none = none
  add_trace trace (some backend) (some capacity) (some traces) =
      some (trace capacity backend ∷ traces)

  -- The loop over the candidates of a plan. Each step looks up the backend and the profile.
  unfoldable pub score_candidates :
      List BackendManifest
      → List (CapacityProfile f.F)
      → (RouteCandidate → CapacityProfile f.F → BackendManifest → Trace)
      → List RouteCandidate
      → Option (List Trace)
  unfolding get_backend last_with
  score_candidates registry profiles trace [] = some []
  score_candidates registry profiles trace (c ∷ cs) =
      add_trace (trace c) (get_backend c.backend_id registry)
        (last_with (λ (p : CapacityProfile f.F). p.backend_id) c.backend_id profiles)
        (score_candidates registry profiles trace cs)

  abbrev pub report_if :
      RoutePlan → Components f.F → Option (List Trace) → Option RouteScoringReport
  report_if plan weights none = none
  report_if plan weights (some traces) =
      some (report_of plan weights (ranked_scores plan.candidates traces) traces)

  -- RouteScorer.score, given the routebook's forbidden backend classes and its score weights
  unfoldable pub score :
      List String
      → List (String × f.F)
      → List BackendManifest
      → String
      → RoutePlan
      → TaskProfile f.F
      → List (CapacityProfile f.F)
      → TaskAnalysisReport f.F
      → Option RouteScoringReport
  unfolding score_weights score_candidates candidate_trace ranked_scores report_of
  score forbidden weights registry task_type plan task profiles report =
      let normalised = score_weights f weights in
      report_if plan normalised (
        score_candidates registry profiles
          (candidate_trace f task_type forbidden plan task report normalised) plan.candidates)

  -- apply_scored_selection
  unfoldable pub apply_scored_selection : RoutePlan → RouteScoringReport → RoutePlan
  apply_scored_selection plan report = record plan {
    selected_candidate_id = report.selected_candidate_id;
  }
