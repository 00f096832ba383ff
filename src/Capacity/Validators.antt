-- ===== src/Capacity/Validators.antt =====
-- capacity/validators.py, and `_validate_registry_pairing` of capacity/registry.py. `some e` is the
-- exception that is raised.
use token_bank.Prelude.{
  String, Bool, true, false, not, ◌||◌, ◌&&◌, Option, none, some, List, [], ◌∷◌, str_eq,
  if◌then◌else◌,
}
use token_bank.Result.{Error, value_error}
use token_bank.Verifier.Runner.{has_name}
use token_bank.Router.Model.{BackendManifest}
use token_bank.Router.Scorer.Filters.{gateway_worker_id, is_api_gateway}
use token_bank.Router.Scorer.Ranking.{last_with}
use token_bank.Router.Validator.Shape.{or_else}

-- what is read of a `WorkerManifest`
pub record WorkerManifest : Type 0 where
  pub worker_id : String
  pub backend_ids : List String
  pub backend_classes : List String

abbrev error_if : Bool → Option Error
error_if test = if test then some value_error else none

-- WORKER_LOCAL_BACKEND_CLASSES
unfoldable pub is_worker_local : String → Bool
is_worker_local c = str_eq c "browser_fetch" || str_eq c "local_script" || str_eq c "local_tool"

unfoldable pub validate_backend_execution_location : BackendManifest → Option Error
unfolding is_worker_local
validate_backend_execution_location m =
    or_else
      (error_if
        (is_api_gateway m.backend_class && not (str_eq m.execution_location "mac_control_plane")))
      (error_if (
        is_worker_local m.backend_class
        && not (
            str_eq m.execution_location "local_machine"
            || str_eq m.execution_location "windows_worker")))

-- the manifest of the worker lists the backend and its class
unfoldable pub validate_listed : WorkerManifest → BackendManifest → Option Error
unfolding has_name
validate_listed worker backend =
    or_else (error_if (not (has_name backend.backend_id worker.backend_ids)))
      (error_if (not (has_name backend.backend_class worker.backend_classes)))

unfoldable pub validate_worker_local_backend : WorkerManifest → BackendManifest → Option Error
unfolding validate_backend_execution_location is_worker_local validate_listed
validate_worker_local_backend worker backend =
    or_else (validate_backend_execution_location backend) (
      if is_api_gateway backend.backend_class
      then error_if (not (str_eq worker.worker_id gateway_worker_id))
      else or_else (error_if (not (is_worker_local backend.backend_class)))
          (validate_listed worker backend))

unfoldable pub validate_gateway_worker : WorkerManifest → BackendManifest → Option Error
unfolding validate_backend_execution_location validate_listed
validate_gateway_worker worker backend = or_else (validate_backend_execution_location backend) (
    or_else (error_if (not (str_eq worker.worker_id gateway_worker_id)))
      (validate_listed worker backend))

-- one backend of one worker, as `backends_by_id.get` finds it
abbrev pub validate_pair : WorkerManifest → Option BackendManifest → Option Error
validate_pair worker none = some value_error
validate_pair worker (some backend) =
    if is_api_gateway backend.backend_class
    then validate_gateway_worker worker backend
    else validate_worker_local_backend worker backend

abbrev pub backend_key : BackendManifest → String
backend_key m = m.backend_id

unfoldable pub validate_backend_ids :
    List BackendManifest → WorkerManifest → List String → Option Error
unfolding last_with
validate_backend_ids backends worker [] = none
validate_backend_ids backends worker (id ∷ ids) =
    or_else (validate_pair worker (last_with backend_key id backends))
      (validate_backend_ids backends worker ids)

unfoldable pub validate_workers : List BackendManifest → List WorkerManifest → Option Error
unfolding validate_backend_ids
validate_workers backends [] = none
validate_workers backends (worker ∷ workers) =
    or_else (validate_backend_ids backends worker worker.backend_ids)
      (validate_workers backends workers)

unfoldable pub validate_locations : List BackendManifest → Option Error
unfolding validate_backend_execution_location
validate_locations [] = none
validate_locations (m ∷ ms) =
    or_else (validate_backend_execution_location m) (validate_locations ms)

abbrev pub is_empty : List BackendManifest → Bool
is_empty [] = true
is_empty (m ∷ ms) = false

-- _validate_registry_pairing
unfoldable pub validate_registry_pairing : List WorkerManifest → List BackendManifest → Option Error
unfolding validate_locations validate_workers
validate_registry_pairing workers backends =
    or_else (validate_locations backends)
      (if is_empty backends then none else validate_workers backends workers)
