-- ===== src/Router/Model.antt =====
-- What the router reads of the models in models/ and of backends/registry.py. A score, a rate and a
-- confidence is a value of the type `F` of floats.
use token_bank.Prelude.{ℕ, String, Bool, Option, none, some, List, [], ◌∷◌, str_eq, if◌then◌else◌}
use token_bank.Json.{Fields}

-- TaskLevel of models/common.py, and TASK_LEVEL_ORDER
pub data TaskLevel : Type 0 where
  l0 l1 l2 l3 : TaskLevel

unfoldable pub level_order : TaskLevel → ℕ
level_order TaskLevel.l0 = 0
level_order TaskLevel.l1 = 1
level_order TaskLevel.l2 = 2
level_order TaskLevel.l3 = 3

pub record RouteCandidate : Type 0 where
  pub route_candidate_id : String
  pub capacity_node_id : String
  pub backend_class : String
  pub backend_id : String
  pub worker_selector : Fields
  pub priority : ℕ
  pub estimated_cost_micros : ℕ
  pub verifier_recipe_id : Option String

pub record RoutePlan : Type 0 where
  pub route_plan_id : String
  pub work_unit_id : String
  pub task_type : String
  pub task_level : TaskLevel
  pub candidates : List RouteCandidate
  pub selected_candidate_id : String
  pub verifier_recipe_id : String

pub record BackendManifest : Type 0 where
  pub backend_id : String
  pub backend_class : String
  pub execution_location : String
  pub supported_task_types : List String
  pub allowed_privacy_levels : List String

-- BackendRegistry.get, where `none` is the KeyError
unfoldable pub get_backend : String → List BackendManifest → Option BackendManifest
get_backend id [] = none
get_backend id (m ∷ ms) = if str_eq m.backend_id id then some m else get_backend id ms

pub record CapacityProfile (F : Type 0) : Type 0 where
  pub backend_id : String
  pub backend_class : String
  pub ownership_scope : String
  pub availability_state : String
  pub model_tier : Option String  -- the tier of the `model_profile`, if there is one
  pub capabilities : List (String × F)  -- with their scores
  pub p50_ms : Option ℕ
  pub sample_size : ℕ
  pub verifier_pass_rate : Option F
  pub verified_for : List String  -- the task types

pub record TaskProfile (F : Type 0) : Type 0 where
  pub task_type : String
  pub difficulty : String
  pub latency_preference : String
  pub cost_preference : String
  pub required_capabilities : List (String × F)  -- with their minimal scores

pub record TaskAnalysisReport (F : Type 0) : Type 0 where
  pub preflight_decision : String
  pub effective_task_level : TaskLevel
  pub effective_privacy_level : String
  pub raw_secret_detected : Bool
  pub requires_strong_reasoning : Bool
  pub confidence : F
