-- ===== src/Capacity/Pairing.antt =====
-- What pairings `_validate_registry_pairing` of capacity/registry.py accepts.
use mathlib.Core.Path.{subst}
use token_bank.Prelude.{
  String, ◌≡◌, refl, sym, Bool, true, false, not, ◌||◌, ◌&&◌, Option, none, some, List, [], ◌∷◌,
  str_eq, if◌then◌else◌, arith, Bool-cases, inl, inr,
}
use token_bank.Result.{value_error}
use token_bank.Verifier.Runner.{has_name}
use token_bank.Sql.Ordered.{Has}
use token_bank.Router.Model.{BackendManifest}
use token_bank.Router.Scorer.Filters.{gateway_worker_id, is_api_gateway}
use token_bank.Router.Scorer.Ranking.{last_with}
use token_bank.Router.Validator.Scanning.{or_else-none}
use token_bank.Capacity.Validators.{
  WorkerManifest, is_worker_local, validate_backend_execution_location, validate_listed,
  validate_worker_local_backend, validate_gateway_worker, validate_pair, backend_key,
  validate_backend_ids, validate_workers, validate_locations, is_empty, validate_registry_pairing,
}

-- a worker and one of its backends
pub record IsPaired (worker : WorkerManifest) (backend : BackendManifest) : Type 0 where
  pub at_gateway :
      (is_api_gateway backend.backend_class && not (str_eq worker.worker_id gateway_worker_id))
      ≡ false
  pub known_class :
      (is_api_gateway backend.backend_class || is_worker_local backend.backend_class) ≡ true
  pub located : validate_backend_execution_location backend ≡ none
  pub listed_id : has_name backend.backend_id worker.backend_ids ≡ true
  pub listed_class : has_name backend.backend_class worker.backend_classes ≡ true

listed :
    (worker : WorkerManifest) (backend : BackendManifest)
    → validate_listed worker backend ≡ none
    → (has_name backend.backend_id worker.backend_ids ≡ true)
      × (has_name backend.backend_class worker.backend_classes ≡ true)
unfolding validate_listed
listed worker backend h = ground arith

holds : (b : Bool) → (if not b then some value_error else none) ≡ none → b ≡ true
holds true h = refl
holds false h = cc

own_class : (a b : Bool) → b ≡ true → (a && not b) ≡ false
own_class a b h = ground arith

either : (a b : Bool) → b ≡ true → (a || b) ≡ true
either a b h = ground arith

module _ (worker : WorkerManifest) (backend : BackendManifest) where
  gateway-IsPaired :
      is_api_gateway backend.backend_class ≡ true
      → validate_gateway_worker worker backend ≡ none
      → IsPaired worker backend
  unfolding validate_gateway_worker
  gateway-IsPaired api h =
      let (located, h₁) = or_else-none (validate_backend_execution_location backend) _ h in
      let (own, h₂) = or_else-none _ (validate_listed worker backend) h₁ in
      let (id, of_class) = listed worker backend h₂ in
      record {
        at_gateway = own_class _ _ (holds _ own);
        known_class = rw api refl;
        located = located;
        listed_id = id;
        listed_class = of_class;
      }

  local-IsPaired :
      is_api_gateway backend.backend_class ≡ false
      → validate_worker_local_backend worker backend ≡ none
      → IsPaired worker backend
  unfolding validate_worker_local_backend
  local-IsPaired local h =
      let (located, h₁) = or_else-none (validate_backend_execution_location backend) _ h in
      let h₂ = rw local at h₁ in
      let (known, h₃) = or_else-none _ (validate_listed worker backend) h₂ in
      let (id, of_class) = listed worker backend h₃ in
      record {
        at_gateway = rw local refl;
        known_class = either _ _ (holds _ known);
        located = located;
        listed_id = id;
        listed_class = of_class;
      }

  pair_accepted : validate_pair worker (some backend) ≡ none → IsPaired worker backend
  pair_accepted h = elim (Bool-cases (is_api_gateway backend.backend_class)) [
    | inl api ↦ gateway-IsPaired api (rw api at h)
    | inr local ↦ local-IsPaired local (rw local at h)
  ]

-- the backend of an identifier that a worker lists, with the worker
abbrev pub Paired : List BackendManifest → WorkerManifest → String → Type 0
Paired backends worker id =
    (backend : BackendManifest) × (last_with backend_key id backends ≡ some backend)
    × IsPaired worker backend

module _ (backends : List BackendManifest) where
  found-Paired :
      (worker : WorkerManifest) (id : String) (found : Option BackendManifest)
      → last_with backend_key id backends ≡ found
      → validate_pair worker found ≡ none
      → Paired backends worker id
  found-Paired worker id none e h = absurd (let bad : some value_error ≡ none = h in cc)
  found-Paired worker id (some backend) e h = (backend, e, pair_accepted worker backend h)

  ids-Paired :
      (worker : WorkerManifest) (ids : List String) (id : String)
      → validate_backend_ids backends worker ids ≡ none
      → Has id ids
      → Paired backends worker id
  unfolding validate_backend_ids
  ids-Paired worker [] id h m = elim m [ ]
  ids-Paired worker (j ∷ ids) id h (inl same) = subst (Paired backends worker) (sym same) (
      found-Paired worker j (last_with backend_key j backends) refl
        (or_else-none (validate_pair worker (last_with backend_key j backends)) _ h).0)
  ids-Paired worker (j ∷ ids) id h (inr m) =
      ids-Paired worker ids id
        (or_else-none (validate_pair worker (last_with backend_key j backends)) _ h).1 m

  workers-Paired :
      (workers : List WorkerManifest) (worker : WorkerManifest) (id : String)
      → validate_workers backends workers ≡ none
      → Has worker workers
      → Has id worker.backend_ids
      → Paired backends worker id
  unfolding validate_workers
  workers-Paired [] worker id h m n = elim m [ ]
  workers-Paired (v ∷ workers) worker id h (inl same) n =
      ids-Paired worker worker.backend_ids id
        (subst (λ (x : WorkerManifest). validate_backend_ids backends x x.backend_ids ≡ none)
          (sym same) (or_else-none (validate_backend_ids backends v v.backend_ids) _ h).0)
        n
  workers-Paired (v ∷ workers) worker id h (inr m) n =
      workers-Paired workers worker id
        (or_else-none (validate_backend_ids backends v v.backend_ids) _ h).1 m n

-- In a registry with backends whose pairing is accepted, each identifier that a worker lists names a
-- backend that is there. A backend of an API class is listed by the gateway of the control plane only;
-- every other has a worker-local class. The backend executes where its class must, and the worker's
-- manifest lists its class.
pub validate_registry_pairing-Paired :
    (workers : List WorkerManifest) (backends : List BackendManifest) (worker : WorkerManifest)
    (id : String)
    → is_empty backends ≡ false
    → validate_registry_pairing workers backends ≡ none
    → Has worker workers
    → Has id worker.backend_ids
    → Paired backends worker id
unfolding validate_registry_pairing
validate_registry_pairing-Paired workers backends worker id filled h m n =
    let (_, paired) = or_else-none (validate_locations backends) _ h in
    workers-Paired backends workers worker id (rw filled at paired) m n
