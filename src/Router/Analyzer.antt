-- ===== src/Router/Analyzer.antt =====
-- TaskAnalyzer of router/task_analyzer.py. `none` is an exception: a KeyError or a ValidationError for a
-- difficulty that the routebook has made up.
pub mod Shape
pub mod Laws
pub mod Scans
pub mod Levels
pub mod Costs
use Prim.Native.String.{◌++◌ as append}
use token_bank.Prelude.{
  ℕ, ◌+◌, ◌*◌, ◌/◌, String, Bool, true, false, not, ◌||◌, ◌&&◌, Option, none, some, List, [], ◌∷◌,
  ◌++◌, any, max, ltb, leb, ◌==◌, str_eq, if◌then◌else◌,
}
use token_bank.Json.{Json, Fields, obj}
use token_bank.Router.Floats.{Floats}
use token_bank.Router.Model.{TaskLevel, level_order, RouteCandidate, RoutePlan, TaskAnalysisReport}
use token_bank.Router.Scorer.Filters.{is_api_gateway}
use token_bank.Router.Tokens.{TokenEstimate, estimate_tokens}
use token_bank.Router.Privacy.{PrivacyScan, scan_privacy}
use token_bank.Router.Analyzer.Shape.{InputShape, input_shape_for_work_unit}
unfoldable pub use Levels.*
unfoldable pub use Costs.*

-- what is read of a `WorkUnit`
pub record WorkUnit : Type 0 where
  pub work_unit_id : String
  pub task_type : String
  pub task_level : TaskLevel
  pub privacy_level : String
  pub input_refs_count : ℕ
  pub inline_input : Fields

pub record ComplexityEstimate (F : Type 0) : Type 0 where
  pub difficulty : String
  pub estimated_attempts : F
  pub requires_strong_reasoning : Bool
  pub requires_long_context : Bool
  pub requires_tools : Bool
  pub reason_codes : List String

-- the `TaskAnalysisReport` that is made, without the names of the routebook
pub record Analysis (F : Type 0) : Type 0 where
  pub input_shape : InputShape
  pub token_estimate : TokenEstimate
  pub cost_estimate : CostEstimate F
  pub privacy_scan : PrivacyScan
  pub complexity : ComplexityEstimate F
  pub effective_task_level : TaskLevel
  pub effective_privacy_level : String
  pub preflight_decision : String
  pub confidence : F
  pub reason_codes : List String

abbrev reason_if : Bool → String → List String
reason_if test reason = if test then reason ∷ [] else []

abbrev base_cost : Option RouteCandidate → ℕ
base_cost none = 0
base_cost (some c) = c.estimated_cost_micros

abbrev is_selected : Option RouteCandidate → Bool
is_selected none = false
is_selected (some c) = true

abbrev needs_tools : Option RoutePlan → Bool
needs_tools none = false
needs_tools (some plan) = any (λ c. not (is_api_gateway c.backend_class)) plan.candidates

module _ (f : Floats) where
  -- `ceil(expected * 0.5)` is exact, as it is below 2 ^ 53.
  unfoldable pub cost_estimate :
      List BackendPrice → TokenEstimate → Option RouteCandidate → CostEstimate f.F
  unfolding price_for
  cost_estimate prices tokens selected =
      let price = price_for prices selected in
      let token_cost =
        tokens.input_tokens * price.input_unit_micros
        + tokens.output_tokens * price.output_unit_micros in
      let expected = max (base_cost selected) token_cost in
      record {
        cost_profile_id = price.cost_profile_id;
        min_cost_micros = if expected == 0 then 0 else max 1 ((expected + 1) / 2);
        expected_cost_micros = expected;
        max_cost_micros = if expected == 0 then expected else max expected (expected * 2);
        confidence = if is_selected selected then f.lit 80 2 else f.lit 55 2;
        cost_source = if token_cost == 0 then "backend_estimate" else "pricing_table_estimate";
      }

  unfoldable pub estimated_attempts : String → f.F
  estimated_attempts d =
      if str_eq d "trivial" || str_eq d "easy"
      then f.lit 10 1
      else if str_eq d "medium"
      then f.lit 12 1
      else if str_eq d "high"
      then f.lit 15 1
      else if str_eq d "expert"
      then f.lit 20 1
      else f.lit 12 1

  -- _complexity_estimate, once the difficulty is raised
  unfoldable pub complexity_estimate :
      String → String → String → ℕ → Option RoutePlan → ComplexityEstimate f.F
  unfolding estimated_attempts is_api_gateway
  complexity_estimate base task_family difficulty token_total plan = record {
    difficulty = difficulty;
    estimated_attempts = estimated_attempts difficulty;
    requires_strong_reasoning = is_hard difficulty || str_eq task_family "strong_reasoning";
    requires_long_context = leb 16000 token_total;
    requires_tools = needs_tools plan;
    reason_codes =
        (append "default_difficulty:" base ∷ append "task_family:" task_family ∷ [])
        ++ reason_if (not (str_eq difficulty base)) (append "difficulty_raised:" difficulty)
        ++ reason_if (leb 16000 token_total) "long_context_estimate"
        ++ reason_if (needs_tools plan) "route_requires_tool_backend";
  }

  -- _analysis_confidence
  unfoldable pub analysis_confidence : ℕ → Bool → f.F
  analysis_confidence inline_chars raw =
      if raw then f.lit 90 2 else if ltb 20000 inline_chars then f.lit 70 2 else f.lit 82 2

  module _ (word digit : ℕ → Bool) (dumps : Json → String) (prices : List BackendPrice) where
    -- the report, once the difficulty is known
    unfoldable pub analysis_of :
        WorkUnit → Option RoutePlan → String → String → String → Analysis f.F
    unfolding input_shape_for_work_unit estimate_tokens scan_privacy complexity_estimate
        raised_privacy_level raised_task_level cost_estimate selected_candidate analysis_confidence
        level_order
    analysis_of unit plan base task_family difficulty =
        let shape = input_shape_for_work_unit dumps unit.input_refs_count unit.inline_input in
        let tokens = estimate_tokens dumps unit.task_type unit.inline_input in
        let scan = scan_privacy word digit (obj unit.inline_input) in
        let raw = scan.raw_secret_detected in
        let private = scan.private_data_detected in
        let level = raised_task_level unit.task_level difficulty raw private in
        record {
          input_shape = shape;
          token_estimate = tokens;
          cost_estimate = cost_estimate prices tokens (selected_candidate plan);
          privacy_scan = scan;
          complexity = complexity_estimate base task_family difficulty tokens.total_tokens plan;
          effective_task_level = level;
          effective_privacy_level = raised_privacy_level unit.privacy_level raw private;
          preflight_decision = if raw || shape.workspace_scan_requested then "deny" else "allow";
          confidence = analysis_confidence shape.inline_chars raw;
          reason_codes =
              ("deterministic_wp_rb2_preflight"
                ∷ append "task_type:" unit.task_type
                ∷ "tokenizer:heuristic:cl100k_like:v0"
                ∷ [])
              ++ reason_if shape.workspace_scan_requested "workspace_scan_requested_denied"
              ++ reason_if raw "preflight_deny_raw_secret"
              ++ reason_if private "privacy_level_raised"
              ++ reason_if (ltb (level_order unit.task_level) (level_order level))
                  "task_level_raised";
        }

    abbrev pub analysis_if :
        WorkUnit → Option RoutePlan → String → String → Option String → Option (Analysis f.F)
    analysis_if unit plan base task_family none = none
    analysis_if unit plan base task_family (some difficulty) =
        some (analysis_of unit plan base task_family difficulty)

    -- TaskAnalyzer.analyze, with the difficulty and the family that the routebook's ontology has for the
    -- task type, or "medium" and "simple_transform"
    unfoldable pub analyze : WorkUnit → Option RoutePlan → String → String → Option (Analysis f.F)
    unfolding estimate_tokens input_shape_for_work_unit raise_difficulty analysis_of
    analyze unit plan base task_family =
        let tokens = estimate_tokens dumps unit.task_type unit.inline_input in
        let shape = input_shape_for_work_unit dumps unit.input_refs_count unit.inline_input in
        analysis_if unit plan base task_family
          (raise_difficulty base tokens.total_tokens shape.json_depth)

-- what the scorer reads of the report
abbrev pub report_view : {F : Type 0} → Analysis F → TaskAnalysisReport F
report_view a = record {
  preflight_decision = a.preflight_decision;
  effective_task_level = a.effective_task_level;
  effective_privacy_level = a.effective_privacy_level;
  raw_secret_detected = a.privacy_scan.raw_secret_detected;
  requires_strong_reasoning = a.complexity.requires_strong_reasoning;
  confidence = a.confidence;
}
