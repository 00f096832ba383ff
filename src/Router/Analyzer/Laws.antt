-- ===== src/Router/Analyzer/Laws.antt =====
-- What TaskAnalyzer of router/task_analyzer.py promises, and what the scorer makes of its reports.
use mathlib.Core.Path.{subst}
use token_bank.Prelude.{
  ℕ, ◌+◌, ◌*◌, ◌/◌, ◌≤◌, String, ◌≡◌, ◌↔◌, refl, Bool, true, false, ◌||◌, Option, none, some, List,
  ◌⊎◌, max, ltb, ◌==◌, if◌then◌else◌, arith, Bool-cases, inl, inr,
}
use token_bank.Json.{Json, obj}
use token_bank.Router.Floats.{Floats, IsOrdered}
use token_bank.Router.Model.{
  TaskLevel, level_order, RoutePlan, BackendManifest, CapacityProfile, TaskProfile,
}
use token_bank.Router.Tokens.{estimate_tokens}
use token_bank.Router.Privacy.{raw_secret_patterns, scan_privacy}
use token_bank.Router.Privacy.Laws.{Carries, scan_privacy-Carries}
use token_bank.Router.Scorer.Ranking.{RouteScoringReport, score}
use token_bank.Router.Scorer.Safety.{score-SafelySelected}
use token_bank.Router.Analyzer.Shape.{input_shape_for_work_unit, workspace_scan_requested}
use token_bank.Router.Analyzer.Scans.{AsksScan, workspace_scan_requested-AsksScan}
use token_bank.Router.Analyzer.{
  WorkUnit, BackendPrice, privacy_order, max_by_order, raised_privacy_level, target_level,
  raised_task_level, raise_difficulty, cost_estimate, Analysis, analysis_of, analysis_if, analyze,
  report_view,
}

max_by_order-least :
    {A : Type 0} (current target : A) (order : A → ℕ)
    → order current ≤ order (max_by_order current target order)
unfolding max_by_order
max_by_order-least current target order = elim (Bool-cases (ltb (order current) (order target))) [
  | inl higher ↦ rw higher (omega (arith, ltb-true (order current) (order target) higher))
  | inr lower ↦ rw lower (omega arith)
]
  where
    ltb-true : (m n : ℕ) → ltb m n ≡ true → m ≤ n
    ltb-true m n h = ground arith

raised_task_level-least :
    (current : TaskLevel) (difficulty : String) (raw private : Bool)
    → level_order current ≤ level_order (raised_task_level current difficulty raw private)
unfolding raised_task_level
raised_task_level-least current difficulty raw private =
    max_by_order-least current (target_level current difficulty raw private) level_order

raised_privacy_level-least :
    (current : String) (raw private : Bool)
    → privacy_order current ≤ privacy_order (raised_privacy_level current raw private)
unfolding raised_privacy_level
raised_privacy_level-least current raw private =
    max_by_order-least current (if raw || private then "sensitive" else current) privacy_order

cost_range :
    (e : ℕ)
    → ((if e == 0 then 0 else max 1 ((e + 1) / 2)) ≤ e)
      × (e ≤ (if e == 0 then e else max e (e * 2)))
cost_range e = ground arith

module _ (f : Floats) (word digit : ℕ → Bool) (dumps : Json → String) (prices : List BackendPrice)
    (unit : WorkUnit) (plan : Option RoutePlan) (base task_family : String) (a : Analysis f.F) where
  abbrev analysed : String → Analysis f.F
  analysed = analysis_of f word digit dumps prices unit plan base task_family

  difficulty_known :
      (d : Option String)
      → analysis_if f word digit dumps prices unit plan base task_family d ≡ some a
      → (difficulty : String) × (analysed difficulty ≡ a)
  difficulty_known none h = absurd (let bad : none ≡ some a = h in cc)
  difficulty_known (some d) h = (d, cc)

  analyze-some :
      analyze f word digit dumps prices unit plan base task_family ≡ some a
      → (difficulty : String) × (analysed difficulty ≡ a)
  unfolding analyze
  analyze-some h =
      difficulty_known
        (raise_difficulty base (estimate_tokens dumps unit.task_type unit.inline_input).total_tokens
          (input_shape_for_work_unit dumps unit.input_refs_count unit.inline_input).json_depth)
        h

  -- A report never lowers the level or the privacy level of its Work Unit, and its least, expected and
  -- greatest costs are in this order.
  pub analyze-raises :
      analyze f word digit dumps prices unit plan base task_family ≡ some a
      → (level_order unit.task_level ≤ level_order a.effective_task_level)
        × (privacy_order unit.privacy_level ≤ privacy_order a.effective_privacy_level)
        × (a.cost_estimate.min_cost_micros ≤ a.cost_estimate.expected_cost_micros)
        × (a.cost_estimate.expected_cost_micros ≤ a.cost_estimate.max_cost_micros)
  unfolding analysis_of cost_estimate
  analyze-raises h =
      let (d, same) = analyze-some h in
      let scan = scan_privacy word digit (obj unit.inline_input) in
      subst
        (λ (x : Analysis f.F).
          (level_order unit.task_level ≤ level_order x.effective_task_level)
          × (privacy_order unit.privacy_level ≤ privacy_order x.effective_privacy_level)
          × (x.cost_estimate.min_cost_micros ≤ x.cost_estimate.expected_cost_micros)
          × (x.cost_estimate.expected_cost_micros ≤ x.cost_estimate.max_cost_micros))
        same
        (
          raised_task_level-least unit.task_level d scan.raw_secret_detected
              scan.private_data_detected,
          raised_privacy_level-least unit.privacy_level scan.raw_secret_detected
              scan.private_data_detected,
          (cost_range _).0,
          (cost_range _).1,
        )

  decided :
      (raw asked : Bool)
      → ◌≡◌ {A = String} (if raw || asked then "deny" else "allow") "deny"
        ↔ (raw ≡ true) ⊎ (asked ≡ true)
  decided true asked = (λ h. inl refl, λ h. refl)
  decided false true = (λ h. inr refl, λ h. refl)
  decided false false = (λ h. cc, λ h. elim h [ inl e ↦ cc | inr e ↦ cc ])

  -- A report denies its Work Unit exactly if an expression of a secret occurs in a text inside its
  -- input, at any depth, or a `dict` inside its input, at any depth, has an entry whose key contains
  -- both "workspace" and "scan", or whose key is "recursive" or "recursive_scan" and whose value is
  -- truthy.
  pub analyze-denies :
      analyze f word digit dumps prices unit plan base task_family ≡ some a
      → a.preflight_decision ≡ "deny" ↔ (
          Carries word raw_secret_patterns (obj unit.inline_input)
          ⊎ AsksScan (obj unit.inline_input))
  unfolding analysis_of input_shape_for_work_unit
  analyze-denies h =
      let (d, same) = analyze-some h in
      let v = obj unit.inline_input in
      let (raw, private, free) = scan_privacy-Carries word digit v in
      let (to, from) =
        decided (scan_privacy word digit v).raw_secret_detected (workspace_scan_requested v) in
      subst
        (λ (x : Analysis f.F).
          x.preflight_decision ≡ "deny" ↔ (Carries word raw_secret_patterns v ⊎ AsksScan v))
        same
        (
          λ k. elim (to k) [
            | inl r ↦ inl (raw.0 r)
            | inr s ↦ inr ((workspace_scan_requested-AsksScan v).0 s)
          ],
          λ k. elim k [
            | inl c ↦ from (inl (raw.1 c))
            | inr s ↦ from (inr ((workspace_scan_requested-AsksScan v).1 s))
          ],
        )

  module _ (o : IsOrdered f) (forbidden : List String) (weights : List (String × f.F))
      (registry : List BackendManifest) (scored : RoutePlan) (task : TaskProfile f.F)
      (profiles : List (CapacityProfile f.F)) (r : RouteScoringReport f) where
    -- If an expression of a secret occurs in a text inside the input of a Work Unit, at any depth, the
    -- scorer selects nothing on the analyzer's report: the selection of the plan stays.
    pub secret_keeps_selection :
        analyze f word digit dumps prices unit plan base task_family ≡ some a
        → Carries word raw_secret_patterns (obj unit.inline_input)
        → score f forbidden weights registry unit.task_type scored task profiles (report_view a)
          ≡ some r
        → r.selected_candidate_id ≡ scored.selected_candidate_id
    unfolding analysis_of
    secret_keeps_selection h carries given =
        let (d, same) = analyze-some h in
        let (raw, private, free) = scan_privacy-Carries word digit (obj unit.inline_input) in
        let detected : a.privacy_scan.raw_secret_detected ≡ true =
          subst (λ (x : Analysis f.F). x.privacy_scan.raw_secret_detected ≡ true) same
            (raw.1 carries) in
        elim (score-SafelySelected f o forbidden weights registry unit.task_type scored task
          profiles (report_view a) r given) [
            | inl kept ↦ kept
            | inr (c, capacity, backend, among, serves, selected, safe) ↦
                absurd (let clean = safe.no_secret in cc)
          ]
