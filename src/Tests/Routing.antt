-- ===== src/Tests/Routing.antt =====
-- The router and the registries at one plan with two candidates.
use token_bank.Prelude.{
  ℕ, ◌+◌, ◌-◌, ◌*◌, ◌≤◌, String, ◌≡◌, ◌↔◌, ap, refl, true, false, Option, none, some, List, [], ◌∷◌,
  max, any, ltb, str_eq, ◌⊎◌, arith, inl,
}
use token_bank.Json.{Json, Fields, str, arr, obj, nil, cons, end, field, get}
use token_bank.Json.Equality.{equals}
use token_bank.Json.Nested.{here, in_obj, value, first}
use token_bank.Text.{codes, key_codes}
use token_bank.Verifier.Runner.{has_name}
use token_bank.Router.Floats.{Floats, IsOrdered}
use token_bank.Router.Model.{
  TaskLevel, RouteCandidate, RoutePlan, BackendManifest, CapacityProfile, TaskProfile,
  TaskAnalysisReport, get_backend,
}
use token_bank.Router.Scorer.Filters.{is_api_gateway}
use token_bank.Router.Scorer.Scores.{score_weights, candidate_trace}
use token_bank.Router.Scorer.Ranking.{
  Trace, RouteScoringReport, last_with, report_if, ranked_scores, report_of, score_candidates,
  score,
}
use token_bank.Router.Scorer.Selection.{Selects, score-Selects}
use token_bank.Router.Scorer.Safety.{SafelySelected, score-SafelySelected}
use token_bank.Router.Validator.Shape.{has_fragment, scan, check_entry, check_text}
use token_bank.Router.Validator.{
  Routebook, validate_verifier, validate_route, validate_each, validate_candidates, validate,
}
use token_bank.Router.Validator.Laws.{IsRouted, validate-IsRouted, validate-shape}
use token_bank.Router.Tokens.{
  text_length, estimate_tokens, default_output, item_count, estimate_tokens_bounds,
}
use token_bank.Models.Forbidden.{rejects, IsClean, rejects-IsClean}
use token_bank.Capacity.Validators.{
  WorkerManifest, validate_registry_pairing, validate_locations, validate_workers,
  validate_backend_ids, validate_listed, validate_worker_local_backend,
  validate_backend_execution_location,
}
use token_bank.Capacity.Pairing.{Paired, validate_registry_pairing-Paired}

-- numbers in place of floats
abbrev pub numbers : Floats
numbers = record {
  F = ℕ;
  lit = λ n k. n;
  of_nat = λ n. n;
  plus = λ a b. a + b;
  minus = λ a b. a - b;
  times = λ a b. a * b;
  over = λ a b. a;
  less = ltb;
  sum = λ xs. 0;
  round4 = λ a. a;
}

pub numbers-IsOrdered : IsOrdered numbers
numbers-IsOrdered = record {
  asymmetric = λ a b h. ground arith;
  negatively_transitive = λ a b c h k. ground arith;
}

abbrev candidate : String → String → ℕ → RouteCandidate
candidate id backend cost = record {
  route_candidate_id = id;
  capacity_node_id = "capnode:worker:wrk_1";
  backend_class = "local_script";
  backend_id = backend;
  worker_selector = field "worker_id" (str "wrk_1") end;
  priority = 1;
  estimated_cost_micros = cost;
  verifier_recipe_id = some "vr_1";
}

abbrev pub plan : RoutePlan
plan = record {
  route_plan_id = "rp_1";
  work_unit_id = "wu_1";
  task_type = "dedup";
  task_level = TaskLevel.l1;
  candidates = candidate "rc_1" "be_1" 5 ∷ candidate "rc_2" "be_2" 0 ∷ [];
  selected_candidate_id = "rc_1";
  verifier_recipe_id = "vr_1";
}

abbrev backend : String → BackendManifest
backend id = record {
  backend_id = id;
  backend_class = "local_script";
  execution_location = "local_machine";
  supported_task_types = "dedup" ∷ [];
  allowed_privacy_levels = "public" ∷ [];
}

abbrev pub registry : List BackendManifest
registry = backend "be_1" ∷ backend "be_2" ∷ []

abbrev profile : String → String → CapacityProfile ℕ
profile id state = record {
  backend_id = id;
  backend_class = "local_script";
  ownership_scope = "self";
  availability_state = state;
  model_tier = none;
  capabilities = [];
  p50_ms = none;
  sample_size = 0;
  verifier_pass_rate = none;
  verified_for = [];
}

-- the second has gone away
abbrev pub profiles : List (CapacityProfile ℕ)
profiles = profile "be_1" "available" ∷ profile "be_2" "unavailable" ∷ []

abbrev pub task : TaskProfile ℕ
task = record {
  task_type = "dedup";
  difficulty = "easy";
  latency_preference = "normal";
  cost_preference = "normal";
  required_capabilities = [];
}

abbrev report : TaskAnalysisReport ℕ
report = record {
  preflight_decision = "allow";
  effective_task_level = TaskLevel.l1;
  effective_privacy_level = "public";
  raw_secret_detected = false;
  requires_strong_reasoning = false;
  confidence = 1;
}

abbrev pub or_empty : Option (List (Trace numbers)) → List (Trace numbers)
or_empty none = []
or_empty (some traces) = traces

abbrev scored : Option (List (Trace numbers))
scored =
    score_candidates numbers registry profiles
      (candidate_trace numbers "dedup" [] plan task report (score_weights numbers []))
      plan.candidates

abbrev traces : List (Trace numbers)
traces = or_empty scored

all_scored : scored ≡ some traces
unfolding score_candidates get_backend last_with
all_scored = refl

abbrev scoring : RouteScoringReport numbers
scoring =
    report_of numbers plan (score_weights numbers []) (ranked_scores numbers plan.candidates traces)
      traces

plan_scored : score numbers [] [] registry "dedup" plan task profiles report ≡ some scoring
unfolding score
plan_scored = ap (report_if numbers plan (score_weights numbers [])) all_scored

score-Selects_example : Selects numbers numbers-IsOrdered plan traces scoring
score-Selects_example =
    score-Selects numbers numbers-IsOrdered [] [] registry "dedup" plan task profiles report traces
      scoring all_scored plan_scored

score-SafelySelected_example :
    (scoring.selected_candidate_id ≡ plan.selected_candidate_id)
    ⊎ SafelySelected numbers numbers-IsOrdered [] [] registry "dedup" plan task profiles report
        scoring
score-SafelySelected_example =
    score-SafelySelected numbers numbers-IsOrdered [] [] registry "dedup" plan task profiles report
      scoring plan_scored

abbrev book : Routebook
book = record {
  requires_recipe = λ level. none;
  verifier_mapping = ("dedup", "vr_1") ∷ [];
  forbidden_backend_classes = "browser_fetch" ∷ [];
  fragments = record {
    field_fragments = "secret" ∷ [];
    path_fragments = "/home/" ∷ [];
    backend_id_fragments = "peer" ∷ [];
  };
}

abbrev dump : Fields
dump = field "route_plan_id" (str "rp_1") end

abbrev text_of : Json → String
text_of v = ""

plan_valid : validate text_of book registry plan (obj dump) ≡ none
unfolding validate scan check_entry check_text has_fragment codes key_codes validate_verifier
    validate_candidates validate_each validate_route get_backend has_name get equals
plan_valid = refl

validate-IsRouted_example :
    IsRouted book registry (candidate "rc_1" "be_1" 5)
    × (any (λ d. str_eq d.route_candidate_id plan.selected_candidate_id) plan.candidates ≡ true)
validate-IsRouted_example =
    validate-IsRouted text_of book registry plan (obj dump) plan_valid (candidate "rc_1" "be_1" 5)
      (inl refl)

validate-shape_example :
    (has_fragment book.fragments.field_fragments (key_codes "route_plan_id") ≡ false)
    × (has_fragment book.fragments.path_fragments (codes "rp_1") ≡ false)
validate-shape_example =
    validate-shape text_of book registry plan (obj dump) plan_valid dump "route_plan_id"
      (str "rp_1") "rp_1" here first (in_obj (value here))

abbrev input : Fields
input = field "items" (arr (cons (str "a") (cons (str "b") nil))) end

abbrev dumps : Json → String
dumps v = "{\"items\":[\"a\",\"b\"]}"

estimate_tokens_bounds_example :
    (text_length (dumps (obj input)) ≤ 4 * (estimate_tokens dumps "dedup" input).input_tokens)
    × (4 * (estimate_tokens dumps "dedup" input).input_tokens ≤ text_length (dumps (obj input)) + 3)
    × (default_output "dedup" ≤ (estimate_tokens dumps "dedup" input).output_tokens)
    × ((estimate_tokens dumps "dedup" input).output_tokens
        ≤ max 2048 (12 * item_count (get input "items")))
    × ((estimate_tokens dumps "dedup" input).total_tokens
        ≡ (estimate_tokens dumps "dedup" input).input_tokens
          + (estimate_tokens dumps "dedup" input).output_tokens)
estimate_tokens_bounds_example = estimate_tokens_bounds dumps "dedup" input

rejects-IsClean_example :
    rejects (obj (field "API Key" (str "k") end)) ≡ false
    ↔ IsClean (obj (field "API Key" (str "k") end))
rejects-IsClean_example = rejects-IsClean (obj (field "API Key" (str "k") end))

abbrev worker : WorkerManifest
worker = record {
  worker_id = "wrk_1";
  backend_ids = "be_1" ∷ "be_2" ∷ [];
  backend_classes = "local_script" ∷ [];
}

pairs : validate_registry_pairing (worker ∷ []) registry ≡ none
unfolding validate_registry_pairing validate_locations validate_workers validate_backend_ids
    validate_worker_local_backend validate_backend_execution_location validate_listed has_name
    last_with is_api_gateway
pairs = refl

validate_registry_pairing-Paired_example : Paired registry worker "be_1"
validate_registry_pairing-Paired_example =
    validate_registry_pairing-Paired (worker ∷ []) registry worker "be_1" refl pairs (inl refl)
      (inl refl)
