-- ===== src/Router/Validator/Shape.antt =====
-- `_reject_forbidden_shape` and `_scan` of router/route_plan_validator.py.
use token_bank.Prelude.{
  String, ℕ, Bool, ◌||◌, ◌&&◌, Option, none, some, List, any, str_eq, if◌then◌else◌,
}
use token_bank.Result.{Error, value_error, type_error}
use token_bank.Json.{
  Json, Items, Fields, null, bool, int, float, str, arr, obj, nil, cons, end, field, get,
}
use token_bank.Text.{codes, key_codes, contains_codes, same_codes}

-- the fragments that the routebook's `forbidden_routes` lists
pub record Fragments : Type 0 where
  pub field_fragments : List String
  pub path_fragments : List String
  pub backend_id_fragments : List String

-- the first exception that is raised
abbrev pub or_else : Option Error → Option Error → Option Error
or_else none rest = rest
or_else (some e) rest = some e

-- any(fragment in text for fragment in fragments), by code points; the fragments are ASCII
unfoldable pub has_fragment : List String → List ℕ → Bool
unfolding codes contains_codes
has_fragment fragments text = any (λ fragment. contains_codes (codes fragment) text) fragments

-- `value.get("allowed_domains_source") in {"fetched_content", "llm"}`; a list or a `dict` has no hash
unfoldable pub check_source : Json → Option Error
check_source (str s) =
    if str_eq s "fetched_content" || str_eq s "llm" then some value_error else none
check_source (arr xs) = some type_error
check_source (obj fs) = some type_error
check_source _ = none

module _ (text_of : Json → String) (fragments : Fragments) where
  -- the checks of one entry of a `dict`
  unfoldable pub check_entry : String → Json → Option Error
  unfolding has_fragment key_codes codes same_codes
  check_entry key nested =
      if has_fragment fragments.field_fragments (key_codes key)
        || (same_codes (key_codes key) (codes "backend_id")
            && has_fragment fragments.backend_id_fragments (codes (text_of nested)))
      then some value_error
      else none

  unfoldable pub check_text : String → Option Error
  unfolding has_fragment codes
  check_text s = if has_fragment fragments.path_fragments (codes s) then some value_error else none

  unfoldable mutual
    unfolding check_source check_entry check_text get

    pub scan : Json → Option Error
    scan null = none
    scan (bool b) = none
    scan (int n) = none
    scan (float m k) = none
    scan (str s) = check_text s
    scan (arr xs) = scan_items xs
    scan (obj fs) = or_else (check_source (get fs "allowed_domains_source")) (scan_fields fs)

    pub scan_items : Items → Option Error
    scan_items nil = none
    scan_items (cons v xs) = or_else (scan v) (scan_items xs)

    pub scan_fields : Fields → Option Error
    scan_fields end = none
    scan_fields (field k v rest) = or_else (check_entry k v) (or_else (scan v) (scan_fields rest))
