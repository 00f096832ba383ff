-- ===== src/Verifier/Common.antt =====
-- verifier/checks/common.py and verifier/recipes.py. `schema_error` stands for
-- `Draft202012Validator(schema).validate(output)`: none where the output is valid, else the path of
-- the error.
pub mod Outcomes
use Prim.Native.String.{◌++◌ as append}
use token_bank.Prelude.{
  ℕ, suc, String, Bool, false, not, ◌==◌, Option, none, some, List, [], ◌∷◌, ◌++◌, any, keep, map,
  str_eq, if◌then◌else◌,
}
use token_bank.Json.{
  Json, Items, Fields, null, bool, int, float, str, arr, obj, nil, cons, end, field, get, fields,
  texts, opt_str,
}
use token_bank.World.{World}
use token_bank.Text.{
  Pattern, one, many0, many1, found_in, is_token, is_space, literal, literal_any_case,
}
use token_bank.Text.Decimal.{decimal}
use token_bank.Scheduler.Results.{ResultEnvelope, result_status_text, output_hash, result_hash}
unfoldable pub use Outcomes.*

-- `[key for key, value in required.items() if not value]`
unfoldable pub missing_identifiers : ResultEnvelope → List String
missing_identifiers e =
    map (λ (entry : String × String). entry.0)
      (keep (λ (entry : String × String). str_eq entry.1 "")
        (("result_envelope_id", e.result_envelope_id)
          ∷ ("work_unit_id", e.work_unit_id)
          ∷ ("attempt_id", e.attempt_id)
          ∷ ("assignment_id", e.assignment_id)
          ∷ []))

-- `if missing:`
unfoldable pub integrity_checks : List String → List VerifierCheckResult
unfolding passed_check failed_check
integrity_checks [] = passed_check "result_envelope_integrity" "" end ∷ []
integrity_checks (k ∷ ks) =
    failed_check "result_envelope_integrity" "result envelope is missing required identifiers" none
      (field "missing" (arr (texts (k ∷ ks))) end)
    ∷ []

unfoldable pub check_envelope_integrity : ResultEnvelope → List VerifierCheckResult
unfolding missing_identifiers integrity_checks
check_envelope_integrity e = integrity_checks (missing_identifiers e)

module _ (w : World) where
  unfoldable pub expected_envelope_result_hash : VerifiedEnvelope → String
  unfolding result_status_text result_hash
  expected_envelope_result_hash e = result_hash w (
      obj (
        fields (
          ("work_unit_id", str e.base.work_unit_id)
          ∷ ("attempt_id", str e.base.attempt_id)
          ∷ ("assignment_id", str e.base.assignment_id)
          ∷ ("backend_id", opt_str e.backend_id)
          ∷ ("backend_class", opt_str e.backend_class)
          ∷ ("output_hash", str e.base.output_hash)
          ∷ ("status", str (result_status_text e.base.status))
          ∷ ("usage_record_ids", arr (texts e.usage_record_ids))
          ∷ ("error_codes", arr (texts e.error_codes))
          ∷ [])))

  -- one of the two comparisons of `check_hashes`
  unfoldable pub check_hash : String → String → String → String → VerifierCheckResult
  unfolding passed_check failed_check
  check_hash name message expected given =
      if str_eq expected given
      then passed_check name "" (field "observed_hash" (str expected) end)
      else failed_check name message (some expected) end

  unfoldable pub check_hashes : VerifiedEnvelope → List VerifierCheckResult
  unfolding check_hash expected_envelope_result_hash output_hash
  check_hashes e =
      if str_eq e.base.output_hash ""
      then failed_check "output_hash_present" "output_hash is missing" none end ∷ []
      else check_hash "output_hash_valid" "output_hash does not match output"
          (output_hash w e.base.output) e.base.output_hash
        ∷ check_hash "result_hash_valid" "result_hash does not match result envelope"
            (expected_envelope_result_hash e) e.base.result_hash
        ∷ []

-- `value == text`
unfoldable pub is_text : Json → String → Bool
is_text (str s) t = str_eq s t
is_text v t = false

unfoldable pub check_policy_linkage : ResultEnvelope → Option Fields → List VerifierCheckResult
unfolding passed_check failed_check skipped_check is_text get
check_policy_linkage e none =
    skipped_check "policy_linkage" "policy decision linkage not provided to verifier runner" end
    ∷ []
check_policy_linkage e (some decision) =
    if not (is_text (get decision "work_unit_id") e.work_unit_id)
    then failed_check "policy_linkage" "policy decision work_unit_id does not match result envelope"
        none end
      ∷ []
    else if not (is_text (get decision "decision") "approved")
    then failed_check "policy_linkage" "policy decision is not approved" none end ∷ []
    else passed_check "policy_linkage" "" end ∷ []

one_of : List ℕ → ℕ → Bool
one_of cs c = any (λ d. d == c) cs

abbrev pub secret_patterns : List Pattern
unfolding literal literal_any_case is_token is_space one_of
secret_patterns =
    literal "sk-" (many1 is_token ∷ [])
    ∷ literal "tbk_" (
        one (one_of (b'h' ∷ b'w' ∷ b'i' ∷ b'l' ∷ []))
        ∷ one (one_of (b'_' ∷ []))
        ∷ many1 is_token
        ∷ [])
    ∷ literal_any_case "authorization:" (
        many0 is_space
        ∷ literal_any_case "bearer" (many1 is_space ∷ many1 (λ c. not (is_space c)) ∷ []))
    ∷ []

unfoldable pub is_leak : String → Bool
unfolding secret_patterns found_in
is_leak text = any (λ pattern. found_in pattern text) secret_patterns

unfoldable mutual
  unfolding is_leak decimal

  pub secret_paths : Json → String → List String
  secret_paths (obj fs) path = field_secret_paths fs path
  secret_paths (arr xs) path = item_secret_paths xs path 0
  secret_paths (str s) path = if is_leak s then path ∷ [] else []
  secret_paths null path = []
  secret_paths (bool b) path = []
  secret_paths (int n) path = []
  secret_paths (float m k) path = []

  pub field_secret_paths : Fields → String → List String
  field_secret_paths end path = []
  field_secret_paths (field k v rest) path =
      secret_paths v (append path (append "." k)) ++ field_secret_paths rest path

  pub item_secret_paths : Items → String → ℕ → List String
  item_secret_paths nil path index = []
  item_secret_paths (cons x xs) path index =
      secret_paths x (append path (append "[" (append (decimal index) "]")))
      ++ item_secret_paths xs path (suc index)

-- `if leaks:`
unfoldable pub redaction_checks : List String → List VerifierCheckResult
unfolding passed_check failed_check
redaction_checks [] = passed_check "secret_redaction" "" end ∷ []
redaction_checks (path ∷ paths) =
    failed_check "secret_redaction" "result envelope contains unredacted secret-like values" none
      (field "leaks" (arr (texts (path ∷ paths))) end)
    ∷ []

unfoldable pub check_secret_redaction : ResultEnvelope → List VerifierCheckResult
unfolding secret_paths redaction_checks
check_secret_redaction e = redaction_checks (secret_paths (obj e.body) "$")

-- the schema of the Work Unit, else that of the recipe, either of which may be empty
unfoldable pub chosen_schema : VerifierRecipe → Option Fields → Fields
unfolding get
chosen_schema recipe work_unit = if_empty (of_work_unit work_unit)
  where
    of_work_unit : Option Fields → Fields
    of_work_unit none = end
    of_work_unit (some fs) = elim (get fs "output_schema") [
      | Json.obj schema ↦ schema
      | other ↦ end
    ]

    if_empty : Fields → Fields
    if_empty end = recipe.output_schema
    if_empty (field k v rest) = field k v rest

-- the outcome of `validate`, which may raise `ValidationError`
unfoldable pub schema_check : Option Json → VerifierCheckResult
unfolding passed_check failed_check
schema_check none = passed_check "output_schema" "" end
schema_check (some path) =
    failed_check "output_schema" "output does not validate against configured schema" none
      (field "error_path" path end)

module _ (schema_error : Fields → Json → Option Json) where
  unfoldable pub validate_output : Fields → Json → VerifierCheckResult
  unfolding schema_check skipped_check
  validate_output end output = skipped_check "output_schema" "no output schema configured" end
  validate_output (field k v rest) output = schema_check (schema_error (field k v rest) output)

  unfoldable pub check_output_schema :
      ResultEnvelope → VerifierRecipe → Option Fields → List VerifierCheckResult
  unfolding chosen_schema validate_output
  check_output_schema e recipe work_unit =
      validate_output (chosen_schema recipe work_unit) e.output ∷ []
