-- ===== src/Router/Validator.antt =====
-- RoutePlanValidator of router/route_plan_validator.py. `none` is a plan that is accepted.
pub mod Shape
pub mod Scanning
pub mod Laws
use Prim.Native.String.{◌++◌ as append}
use token_bank.Prelude.{
  String, Bool, false, not, ◌||◌, ◌&&◌, Option, none, some, List, [], ◌∷◌, any, str_eq,
  if◌then◌else◌,
}
use token_bank.Result.{Error, value_error}
use token_bank.Json.{Json, str, get, truthy}
use token_bank.Json.Equality.{equals}
use token_bank.Verifier.Runner.{has_name}
use token_bank.Router.Model.{TaskLevel, RouteCandidate, RoutePlan, BackendManifest, get_backend}
use token_bank.Router.Scorer.Filters.{
  gateway_worker_id, is_api_gateway, has_recipe, requires_verifier,
}
use token_bank.Router.Scorer.Fits.{capability_score}
use token_bank.Router.Validator.Shape.{Fragments, or_else, scan}

-- What the validator reads of a `LoadedRoutebook`.
pub record Routebook : Type 0 where
  pub requires_recipe : TaskLevel → Option Json  -- `requires_verifier_recipe_id` of the level, if set
  pub verifier_mapping : List (String × String)
  pub forbidden_backend_classes : List String
  pub fragments : Fragments

abbrev pub error_if : Bool → Option Error
error_if test = if test then some value_error else none

abbrev pub flag_or : Bool → Option Json → Bool
flag_or default none = default
flag_or default (some v) = truthy v

unfoldable pub wants_recipe : Routebook → TaskLevel → Bool
unfolding requires_verifier truthy
wants_recipe book level = flag_or (requires_verifier level) (book.requires_recipe level)

abbrev pub is_mapped : String → Option String → Bool
is_mapped recipe none = false
is_mapped recipe (some expected) = str_eq recipe expected

-- _validate_verifier
unfoldable pub validate_verifier : Routebook → RoutePlan → Option Error
unfolding wants_recipe capability_score
validate_verifier book plan =
    let wanted = wants_recipe book plan.task_level in
    or_else (error_if (wanted && str_eq plan.verifier_recipe_id "")) (
      or_else
        (error_if (
          wanted
          && not (
              is_mapped plan.verifier_recipe_id
                (capability_score plan.task_type book.verifier_mapping))))
        (error_if (wanted && any (λ c. not (has_recipe c.verifier_recipe_id)) plan.candidates)))

-- the checks of a candidate once its backend is found
unfoldable pub validate_route : Routebook → RouteCandidate → BackendManifest → Option Error
unfolding has_name is_api_gateway equals get
validate_route book c backend =
    or_else (error_if (not (str_eq c.backend_class backend.backend_class))) (
      or_else (error_if (has_name c.backend_class book.forbidden_backend_classes)) (
        or_else
          (error_if (
            is_api_gateway c.backend_class
            && not (equals (get c.worker_selector "worker_id") (str gateway_worker_id))))
          (error_if (
            is_api_gateway c.backend_class
            && not (str_eq c.capacity_node_id (append "capnode:worker:" gateway_worker_id))))))

abbrev pub validate_found : Routebook → RouteCandidate → Option BackendManifest → Option Error
validate_found book c none = some value_error
validate_found book c (some backend) = validate_route book c backend

unfoldable pub validate_each : Routebook → List BackendManifest → List RouteCandidate → Option Error
unfolding get_backend validate_route
validate_each book registry [] = none
validate_each book registry (c ∷ cs) =
    or_else (validate_found book c (get_backend c.backend_id registry))
      (validate_each book registry cs)

-- _validate_candidates
unfoldable pub validate_candidates : Routebook → List BackendManifest → RoutePlan → Option Error
unfolding validate_each
validate_candidates book registry plan =
    or_else
      (error_if
        (not (any (λ c. str_eq c.route_candidate_id plan.selected_candidate_id) plan.candidates)))
      (validate_each book registry plan.candidates)

-- `validate`, where `dump` is the plan's `model_dump` and `text_of` is Python's `str` of a value
unfoldable pub validate :
    (Json → String) → Routebook → List BackendManifest → RoutePlan → Json → Option Error
unfolding scan validate_verifier validate_candidates
validate text_of book registry plan dump =
    or_else (scan text_of book.fragments dump)
      (or_else (validate_verifier book plan) (validate_candidates book registry plan))
