-- ===== src/Router/Analyzer/Costs.antt =====
-- The selected candidate and its price in router/task_analyzer.py.
use Prim.Native.String.{◌++◌ as append}
use token_bank.Prelude.{ℕ, String, Option, none, some, List, [], ◌∷◌, str_eq, if◌then◌else◌}
use token_bank.Router.Model.{RouteCandidate, RoutePlan}

-- a `backend_prices` entry of the pricing documents, in their order
pub record BackendPrice : Type 0 where
  pub backend_id : String
  pub input_unit_micros : ℕ
  pub output_unit_micros : ℕ

-- _selected_candidate
unfoldable pub candidate_with : String → List RouteCandidate → Option RouteCandidate
candidate_with id [] = none
candidate_with id (c ∷ cs) = if str_eq c.route_candidate_id id then some c else candidate_with id cs

unfoldable pub selected_candidate : Option RoutePlan → Option RouteCandidate
unfolding candidate_with
selected_candidate none = none
selected_candidate (some plan) = candidate_with plan.selected_candidate_id plan.candidates

-- _price_for_backend: the profile and the prices of a unit of input and of output
pub record Price : Type 0 where
  pub cost_profile_id : String
  pub input_unit_micros : ℕ
  pub output_unit_micros : ℕ

unfoldable pub price_in : String → List BackendPrice → Price
price_in id [] = record {
  cost_profile_id = append "backend_cost_model:" id;
  input_unit_micros = 0;
  output_unit_micros = 0;
}
price_in id (p ∷ ps) =
    if str_eq p.backend_id id
    then record {
      cost_profile_id = append "pricing:" id;
      input_unit_micros = p.input_unit_micros;
      output_unit_micros = p.output_unit_micros;
    }
    else price_in id ps

unfoldable pub price_for : List BackendPrice → Option RouteCandidate → Price
unfolding price_in
price_for prices none = record {
  cost_profile_id = "pricing:none";
  input_unit_micros = 0;
  output_unit_micros = 0;
}
price_for prices (some c) = price_in c.backend_id prices

pub record CostEstimate (F : Type 0) : Type 0 where
  pub cost_profile_id : String
  pub min_cost_micros : ℕ
  pub expected_cost_micros : ℕ
  pub max_cost_micros : ℕ
  pub confidence : F
  pub cost_source : String
