-- ===== src/Router/Scorer/Selection.antt =====
-- Which candidate `RouteScorer.score` of router/route_scorer.py selects.
use token_bank.Prelude.{
  String, ◌≡◌, refl, Bool, true, false, ◌&&◌, some, List, [], ◌∷◌, All, All-map, keep, Bool-cases,
  ◌⊎◌, inl, inr, arith,
}
use token_bank.Sql.Ordered.{Has, All-from_order, Has-order_by, FirstIsLeast, order_by-FirstIsLeast}
use token_bank.Router.Floats.{Floats, IsOrdered}
use token_bank.Router.Model.{
  RouteCandidate, RoutePlan, BackendManifest, CapacityProfile, TaskProfile, TaskAnalysisReport,
}
use token_bank.Router.Scorer.Scores.{Components, score_weights, candidate_trace}
use token_bank.Router.Scorer.Ranking.{
  Trace, then_by, first_key_before, ranks_before, ranked_scores, RouteScoringReport, selection,
  report_of, score_candidates, score,
}

module _ (f : Floats) (o : IsOrdered f) where
  -- the first two keys: passing before failing, then the higher total
  abbrev pub coarse : Trace f → Trace f → Bool
  coarse a b =
      then_by (first_key_before f a b) (first_key_before f b a) (f.less b.score.total a.score.total)

  opposes :
      (cs : List RouteCandidate) (a b : Trace f) → ranks_before f cs a b ≡ true → coarse b a ≡ false
  unfolding ranks_before
  opposes cs a b h = ground (arith, o.asymmetric b.score.total a.score.total)

  follows :
      (cs : List RouteCandidate) (a b : Trace f)
      → ranks_before f cs a b ≡ false
      → coarse a b ≡ false
  unfolding ranks_before
  follows cs a b h = ground arith

  passes_on : (a b c : Trace f) → coarse a b ≡ false → coarse b c ≡ false → coarse a c ≡ false
  passes_on a b c h k =
      ground (arith, o.negatively_transitive c.score.total b.score.total a.score.total)

  -- No candidate that passes has a higher total than this one, which passes.
  pub record IsBest (traces : List (Trace f)) (best : Trace f) : Type 0 where
    pub among : Has best traces
    pub passing : best.passes ≡ true
    pub highest : All (λ t. (t.passes && f.less best.score.total t.score.total) ≡ false) traces

  -- what is selected from the scores of a plan's candidates
  abbrev pub Selects : RoutePlan → List (Trace f) → RouteScoringReport f → Type 0
  Selects plan traces r =
      (All (λ t. t.passes ≡ false) traces × (r.selected_candidate_id ≡ plan.selected_candidate_id))
      ⊎ ((best : Trace f) × IsBest traces best × (r.selected_candidate_id ≡ best.candidate_id))

  none_pass :
      (ranked : List (Trace f)) (h : Trace f)
      → h.passes ≡ false
      → All (λ x. coarse x h ≡ false) ranked
      → All (λ t. t.passes ≡ false) ranked
  none_pass ranked h failed least =
      All-map {P = λ x. coarse x h ≡ false} {Q = λ t. t.passes ≡ false}
        (λ x (e : coarse x h ≡ false). ground arith) ranked least

  keep-none_pass :
      (ranked : List (Trace f))
      → All (λ t. t.passes ≡ false) ranked
      → keep (λ t. t.passes) ranked ≡ []
  keep-none_pass [] h = refl
  keep-none_pass (t ∷ ts) h = rw (h.0) (keep-none_pass ts h.1)

  first_selected :
      (plan : RoutePlan) (weights : Components f.F) (scores traces ranked : List (Trace f))
      → ((Q : Trace f → Type 0) → All Q ranked → All Q traces)
      → ((x : Trace f) → Has x ranked → Has x traces)
      → FirstIsLeast coarse ranked
      → Selects plan traces (selection f plan weights scores (keep (λ t. t.passes) ranked))
  unfolding selection
  first_selected plan weights scores traces [] back member least =
      inl (back (λ t. t.passes ≡ false) tt, refl)
  first_selected plan weights scores traces (h ∷ ranked) back member least =
      elim (Bool-cases h.passes) [
        | inl passing ↦ rw passing (
            inr (
              h,
              record {
                among = member h (inl refl);
                passing = passing;
                highest =
                    back (λ t. (t.passes && f.less h.score.total t.score.total) ≡ false)
                      (All-map {P = λ x. coarse x h ≡ false}
                        {Q = λ t. (t.passes && f.less h.score.total t.score.total) ≡ false}
                        (λ x (e : coarse x h ≡ false). ground arith) (h ∷ ranked) least);
              },
              refl,
            ))
        | inr failed ↦
            let none = none_pass (h ∷ ranked) h failed least in
            rw (keep-none_pass (h ∷ ranked) none) (inl (back (λ t. t.passes ≡ false) none, refl))
      ]

  -- If every candidate has its backend and its capacity profile, the report of the scorer selects the
  -- highest total: the selected candidate passes every hard filter, and no other that passes them has
  -- a higher total. If none passes, the selection of the plan stays. It supposes the order of numbers.
  pub score-Selects :
      (forbidden : List String) (weights : List (String × f.F)) (registry : List BackendManifest)
      (task_type : String) (plan : RoutePlan) (task : TaskProfile f.F)
      (profiles : List (CapacityProfile f.F)) (report : TaskAnalysisReport f.F)
      (traces : List (Trace f)) (r : RouteScoringReport f)
      → score_candidates f registry profiles
          (candidate_trace f task_type forbidden plan task report (score_weights f weights))
          plan.candidates
        ≡ some traces
      → score f forbidden weights registry task_type plan task profiles report ≡ some r
      → Selects plan traces r
  unfolding score report_of ranked_scores
  score-Selects forbidden weights registry task_type plan task profiles report traces r scored
        given =
      let cs = plan.candidates in
      let made : some
            (report_of f plan (score_weights f weights) (ranked_scores f cs traces) traces)
          ≡ some r =
        rw scored at given in
      let same : report_of f plan (score_weights f weights) (ranked_scores f cs traces) traces ≡ r =
        cc in
      rw (← same) (
        first_selected plan (score_weights f weights) _ traces (ranked_scores f cs traces)
          (λ Q. All-from_order (ranks_before f cs) Q traces)
          (λ x. Has-order_by (ranks_before f cs) x traces)
          (order_by-FirstIsLeast (ranks_before f cs) coarse (opposes cs) (follows cs) passes_on
            traces))
