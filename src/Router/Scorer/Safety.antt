-- ===== src/Router/Scorer/Safety.antt =====
-- What the candidate that router/route_scorer.py selects has, with the backend of the registry and the
-- profile that it names.
use mathlib.Core.Path.{subst}
use token_bank.Prelude.{
  String, ◌≡◌, refl, true, Option, none, some, List, [], ◌∷◌, All, All-map, ◌⊎◌, sym, ap, ◌∙◌,
  str_eq, arith, Option-cases, inl, inr,
}
use token_bank.Sql.Ordered.{Has, All-Has}
use token_bank.Router.Floats.{Floats, IsOrdered}
use token_bank.Router.Model.{
  RouteCandidate, RoutePlan, BackendManifest, CapacityProfile, TaskProfile, TaskAnalysisReport,
  get_backend,
}
use token_bank.Router.Scorer.Scores.{score_weights, candidate_trace}
use token_bank.Router.Scorer.Ranking.{Trace, RouteScoringReport, last_with, score_candidates, score}
use token_bank.Router.Scorer.Selection.{IsBest, score-Selects}
use token_bank.Router.Scorer.Passing.{IsSafe, hard_filters_pass-IsSafe}

get_backend-named :
    (id : String) (registry : List BackendManifest) (backend : BackendManifest)
    → get_backend id registry ≡ some backend
    → str_eq backend.backend_id id ≡ true
unfolding get_backend
get_backend-named id [] backend h = cc
get_backend-named id (m ∷ ms) backend h = ground (arith, get_backend-named id ms backend)

last_with-named :
    {A : Type 0} (key : A → String) (k : String) (xs : List A) (x : A)
    → last_with key k xs ≡ some x
    → str_eq (key x) k ≡ true
unfolding last_with
last_with-named key k [] x h = cc
last_with-named key k (y ∷ ys) x h = ground (arith, last_with-named key k ys x)

module _ (f : Floats) where
  module _ (registry : List BackendManifest) (profiles : List (CapacityProfile f.F)) where
    -- the profile and the backend that a candidate names
    abbrev pub Serves : RouteCandidate → CapacityProfile f.F → BackendManifest → Type 0
    Serves c capacity backend =
        (str_eq backend.backend_id c.backend_id ≡ true)
        × (str_eq capacity.backend_id c.backend_id ≡ true)
        × (get_backend c.backend_id registry ≡ some backend)
        × (last_with (λ (p : CapacityProfile f.F). p.backend_id) c.backend_id profiles
            ≡ some capacity)

    -- the trace of a candidate among these, with its profile and its backend
    abbrev TraceOf :
        (RouteCandidate → CapacityProfile f.F → BackendManifest → Trace f)
        → List RouteCandidate
        → Trace f
        → Type 0
    TraceOf trace cs t =
        (c : RouteCandidate) × (capacity : CapacityProfile f.F) × (backend : BackendManifest) × Has
          c cs
        × (Serves c capacity backend)
        × (t ≡ trace c capacity backend)

    more :
        (trace : RouteCandidate → CapacityProfile f.F → BackendManifest → Trace f)
        (c : RouteCandidate) (cs : List RouteCandidate) (t : Trace f)
        → TraceOf trace cs t
        → TraceOf trace (c ∷ cs) t
    more trace c cs t (d, capacity, backend, among, serves, same) =
        (d, capacity, backend, inr among, serves, same)

    traced :
        (trace : RouteCandidate → CapacityProfile f.F → BackendManifest → Trace f)
        (cs : List RouteCandidate) (traces : List (Trace f))
        → score_candidates f registry profiles trace cs ≡ some traces
        → All (TraceOf trace cs) traces
    unfolding score_candidates
    traced trace [] traces h =
        subst (All (TraceOf trace [])) (let same : [] ≡ traces = cc in same) tt
    traced trace (c ∷ cs) traces h = elim (Option-cases (get_backend c.backend_id registry)) [
      | inl missing ↦ absurd (let bad : none ≡ some traces = rw missing at h in cc)
      | inr (backend, found) ↦
          let h₁ = rw found at h in
          elim (Option-cases
            (last_with (λ (p : CapacityProfile f.F). p.backend_id) c.backend_id profiles)) [
              | inl missing ↦ absurd (let bad : none ≡ some traces = rw missing at h₁ in cc)
              | inr (capacity, profiled) ↦
                  let h₂ = rw profiled at h₁ in
                  elim (Option-cases (score_candidates f registry profiles trace cs)) [
                    | inl missing ↦ absurd (let bad : none ≡ some traces = rw missing at h₂ in cc)
                    | inr (rest, scored) ↦
                        let h₃ : some (trace c capacity backend ∷ rest) ≡ some traces =
                          rw scored at h₂ in
                        subst (All (TraceOf trace (c ∷ cs)))
                          (let same : trace c capacity backend ∷ rest ≡ traces = cc in same)
                          (
                            (
                              c,
                              capacity,
                              backend,
                              inl refl,
                              (
                                get_backend-named c.backend_id registry backend found,
                                last_with-named (λ (p : CapacityProfile f.F). p.backend_id)
                                    c.backend_id profiles capacity profiled,
                                found,
                                profiled,
                              ),
                              refl,
                            ),
                            All-map {P = TraceOf trace cs} {Q = TraceOf trace (c ∷ cs)}
                                (more trace c cs) rest (traced trace cs rest scored),
                          )
                  ]
            ]
    ]

module _ (f : Floats) (o : IsOrdered f) (forbidden : List String) (weights : List (String × f.F))
    (registry : List BackendManifest) (task_type : String) (plan : RoutePlan)
    (task : TaskProfile f.F) (profiles : List (CapacityProfile f.F))
    (report : TaskAnalysisReport f.F) (r : RouteScoringReport f) where
  -- the candidate that is selected, with its own profile and backend, and that it is safe
  abbrev pub SafelySelected : Type 0
  SafelySelected =
      (c : RouteCandidate) × (capacity : CapacityProfile f.F) × (backend : BackendManifest) × Has c
        plan.candidates
      × Serves f registry profiles c capacity backend
      × (r.selected_candidate_id ≡ c.route_candidate_id)
      × IsSafe task_type forbidden plan report c capacity backend

  abbrev traces_of : Option (List (Trace f))
  traces_of =
      score_candidates f registry profiles
        (candidate_trace f task_type forbidden plan task report (score_weights f weights))
        plan.candidates

  unscored :
      traces_of ≡ none
      → score f forbidden weights registry task_type plan task profiles report ≡ none
  unfolding score
  unscored h = rw h refl

  best_is_safe :
      (traces : List (Trace f)) (best : Trace f)
      → traces_of ≡ some traces
      → IsBest f o traces best
      → r.selected_candidate_id ≡ best.candidate_id
      → SafelySelected
  unfolding candidate_trace
  best_is_safe traces best scored is_best selected =
      let trace =
        candidate_trace f task_type forbidden plan task report (score_weights f weights) in
      let (c, capacity, backend, among, serves, same) =
        All-Has (TraceOf f registry profiles trace plan.candidates) best traces
          (traced f registry profiles trace plan.candidates traces scored) is_best.among in
      (
        c,
        capacity,
        backend,
        among,
        serves,
        selected ∙ ap (λ (t : Trace f). t.candidate_id) same,
        hard_filters_pass-IsSafe task_type forbidden plan report c capacity backend
            (ap (λ (t : Trace f). t.passes) (sym same) ∙ is_best.passing),
      )

  -- Where the scorer returns a report, the selection of the plan stays, or a candidate of the plan is
  -- selected that is safe: the preflight allows the task; the backend that the registry has for the
  -- candidate supports the type and the privacy level of the task; a level that wants a verifier has a
  -- recipe; the backend class is not forbidden, and an API class goes to the gateway of the control
  -- plane; no raw secret was found; the last profile of that backend is not unavailable and not a
  -- peer's; and the level of the plan is not below the effective one.
  pub score-SafelySelected :
      score f forbidden weights registry task_type plan task profiles report ≡ some r
      → (r.selected_candidate_id ≡ plan.selected_candidate_id) ⊎ SafelySelected
  score-SafelySelected given = elim (Option-cases traces_of) [
    | inl missing ↦ absurd (let bad : none ≡ some r = rw (unscored missing) at given in cc)
    | inr (traces, scored) ↦
        elim (score-Selects f o forbidden weights registry task_type plan task profiles report
          traces r scored given) [
            | inl (none_pass, kept) ↦ inl kept
            | inr (best, is_best, selected) ↦ inr (best_is_safe traces best scored is_best selected)
          ]
  ]
