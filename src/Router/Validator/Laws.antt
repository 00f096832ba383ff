-- ===== src/Router/Validator/Laws.antt =====
-- What a plan is that the validator of router/route_plan_validator.py accepts.
use mathlib.Core.Path.{subst}
use token_bank.Prelude.{
  String, ◌≡◌, refl, sym, Bool, true, false, not, ◌&&◌, Option, none, some, List, [], ◌∷◌, any,
  str_eq, arith, Bool-cases, inl, inr,
}
use token_bank.Result.{value_error}
use token_bank.Json.{Json, Fields, str, obj, get}
use token_bank.Json.Equality.{equals}
use token_bank.Json.Nested.{Within, HasEntry}
use token_bank.Text.{codes, key_codes}
use token_bank.Verifier.Runner.{has_name}
use token_bank.Sql.Ordered.{Has}
use token_bank.Router.Model.{RouteCandidate, RoutePlan, BackendManifest, get_backend}
use token_bank.Router.Scorer.Filters.{
  gateway_worker_id, is_api_gateway, api_gateway_boundary_result,
}
use token_bank.Router.Validator.Shape.{has_fragment, scan}
use token_bank.Router.Validator.{
  Routebook, error_if, validate_verifier, validate_route, validate_found, validate_each,
  validate_candidates, validate,
}
use token_bank.Router.Validator.Scanning.{or_else-none, scan-key, scan-text}

error_if-none : (b : Bool) → error_if b ≡ none → b ≡ false
error_if-none true h = cc
error_if-none false h = refl

-- a candidate and its backend, as an accepted plan has them
pub record IsRouted (book : Routebook) (registry : List BackendManifest) (c : RouteCandidate)
    : Type 0 where
  pub backend : BackendManifest
  pub registered : get_backend c.backend_id registry ≡ some backend
  pub of_class : str_eq c.backend_class backend.backend_class ≡ true
  pub permitted : has_name c.backend_class book.forbidden_backend_classes ≡ false
  pub boundary : api_gateway_boundary_result c ≡ "pass"

own_gateway :
    (c : RouteCandidate)
    → (is_api_gateway c.backend_class
        && not (equals (get c.worker_selector "worker_id") (str gateway_worker_id)))
      ≡ false
    → api_gateway_boundary_result c ≡ "pass"
unfolding api_gateway_boundary_result
own_gateway c = elim (Bool-cases (is_api_gateway c.backend_class)) [
  | inr local ↦ rw local (λ h. refl)
  | inl remote ↦
      elim (Bool-cases (equals (get c.worker_selector "worker_id") (str gateway_worker_id))) [
        | inl own ↦ rw (remote, own) (λ h. refl)
        | inr other ↦ rw (remote, other) (λ h. cc)
      ]
]

module _ (book : Routebook) (registry : List BackendManifest) where
  route_accepted :
      (c : RouteCandidate) (backend : BackendManifest)
      → get_backend c.backend_id registry ≡ some backend
      → validate_route book c backend ≡ none
      → IsRouted book registry c
  unfolding validate_route api_gateway_boundary_result
  route_accepted c backend found h =
      let (same, h₁) =
        or_else-none (error_if (not (str_eq c.backend_class backend.backend_class))) _ h in
      let (permitted, h₂) =
        or_else-none (error_if (has_name c.backend_class book.forbidden_backend_classes)) _ h₁ in
      let (own, h₃) =
        or_else-none
          (error_if (
            is_api_gateway c.backend_class
            && not (equals (get c.worker_selector "worker_id") (str gateway_worker_id))))
          _ h₂ in
      let own' = error_if-none _ own in
      record {
        backend = backend;
        registered = found;
        of_class = let same' = error_if-none _ same in ground arith;
        permitted = error_if-none _ permitted;
        boundary = own_gateway c own';
      }

  found_accepted :
      (c : RouteCandidate) (found : Option BackendManifest)
      → get_backend c.backend_id registry ≡ found
      → validate_found book c found ≡ none
      → IsRouted book registry c
  found_accepted c none e h = absurd (let bad : some value_error ≡ none = h in cc)
  found_accepted c (some backend) e h = route_accepted c backend e h

  each_accepted :
      (cs : List RouteCandidate) (c : RouteCandidate)
      → validate_each book registry cs ≡ none
      → Has c cs
      → IsRouted book registry c
  unfolding validate_each
  each_accepted [] c h m = elim m [ ]
  each_accepted (d ∷ cs) c h (inl same) = subst (IsRouted book registry) (sym same) (
      found_accepted d (get_backend d.backend_id registry) refl
        (or_else-none (validate_found book d (get_backend d.backend_id registry)) _ h).0)
  each_accepted (d ∷ cs) c h (inr m) =
      each_accepted cs c
        (or_else-none (validate_found book d (get_backend d.backend_id registry)) _ h).1 m

module _ (text_of : Json → String) (book : Routebook) (registry : List BackendManifest)
    (plan : RoutePlan) (dump : Json)
    (accepted : validate text_of book registry plan dump ≡ none) where
  -- In a plan that the validator accepts, every candidate has a registered backend of its own class,
  -- the class is not forbidden, and an API class goes to the gateway of the control plane, so that the
  -- scorer's filter on the worker boundary passes; and the selected candidate is one of the plan's.
  pub validate-IsRouted :
      (c : RouteCandidate)
      → Has c plan.candidates
      → IsRouted book registry c
        × (any (λ d. str_eq d.route_candidate_id plan.selected_candidate_id) plan.candidates ≡ true)
  unfolding validate validate_candidates
  validate-IsRouted c among =
      let (_, rest) = or_else-none (scan text_of book.fragments dump) _ accepted in
      let (_, candidates) = or_else-none (validate_verifier book plan) _ rest in
      let (selected, each) =
        or_else-none
          (error_if (
            not
              (any (λ d. str_eq d.route_candidate_id plan.selected_candidate_id) plan.candidates)))
          (validate_each book registry plan.candidates) candidates in
      (
        each_accepted book registry plan.candidates c each among,
        let known = error_if-none _ selected in ground arith,
      )

  -- In the dump of a plan that the validator accepts, no key of a `dict` at any depth contains a
  -- forbidden field fragment, and no text at any depth contains a forbidden path fragment.
  pub validate-shape :
      (fs : Fields) (k : String) (u : Json) (s : String)
      → Within (obj fs) dump
      → HasEntry k u fs
      → Within (str s) dump
      → (has_fragment book.fragments.field_fragments (key_codes k) ≡ false)
        × (has_fragment book.fragments.path_fragments (codes s) ≡ false)
  unfolding validate
  validate-shape fs k u s m e n =
      let (shaped, _) = or_else-none (scan text_of book.fragments dump) _ accepted in
      (
        scan-key text_of book.fragments dump u fs k shaped m e,
        scan-text text_of book.fragments dump s shaped n,
      )
