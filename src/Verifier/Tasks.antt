-- ===== src/Verifier/Tasks.antt =====
-- verifier/checks/task_specific.py. Python compares a truth value, an integer and a float as numbers.
pub mod Values
use Prim.Native.String.{◌++◌ as append}
use token_bank.Prelude.{
  ◌*◌, ◌^◌, String, Bool, true, false, not, ◌&&◌, ◌||◌, List, [], ◌∷◌, ◌++◌, any, all, keep, str_eq,
  if◌then◌else◌,
}
use token_bank.Prelude.Int.{at_most, at_least, below, scale}
use token_bank.Json.{
  Json, Items, Fields, int, float, str, arr, obj, nil, cons, end, get, has_key, truthy,
}
use token_bank.Text.{codes, starts_codes}
use token_bank.Json.Equality.{is_element}
use token_bank.Scheduler.Results.{ResultEnvelope}
use token_bank.Verifier.Common.{VerifierCheckResult, passed_check, failed_check, warning_check}
unfoldable pub use Values.*

abbrev pub allowed_claim_types : List String
allowed_claim_types = "factual" ∷ "metric" ∷ "policy" ∷ "product" ∷ "other" ∷ []

unfoldable pub url_check : ResultEnvelope → List VerifierCheckResult
unfolding get truthy passed_check failed_check warning_check within status_text is_true is_none
url_check e =
    let output = output_of e in
    let status_code = get output "status_code" in
    if truthy (get output "private_ip_denied") || truthy (get output "redirect_denied")
    then fail_named "url_policy_safety" "private IP or redirect denial must quarantine"
    else if truthy (get output "timed_out")
    then fail_named "url_timeout" "url_check timed out"
    else if is_none status_code && is_true (get output "ok")
    then passed_check "url_status" "url_check output marked ok" end ∷ []
    else if within 200 300 status_code
    then passed_check "url_status" (status_text status_code) end ∷ []
    else if within 400 500 status_code
    then warn_named "url_status" (status_text status_code)
    else fail_named "url_status" "url_check status is not acceptable"

unfoldable pub dedup : ResultEnvelope → List VerifierCheckResult
unfolding get truthy has_key passed_check failed_check warning_check is_integer
dedup e =
    let output = output_of e in
    if truthy (get output "overmerge_detected")
    then warn_named "dedup_overmerge" "dedup overmerge was detected"
    else if has_key output "unique_items" && is_integer (get output "duplicate_count")
    then pass_named "dedup_exact"
    else fail_named "dedup_exact" "dedup output is missing required fields"

-- `isinstance(value, int | float) and not isinstance(value, bool) and 0 <= value <= 1`
unfoldable pub is_confidence : Json → Bool
is_confidence (int n) = at_least n 0 && at_most n 1
is_confidence (float m k) = at_least m 0 && at_most m (2 ^ k)
is_confidence _ = false

-- `value < 0.65`, where 0.65 is the float 5854679515581645 / 2 ^ 53
unfoldable pub is_low : Json → Bool
is_low (int n) = below n 1
is_low (float m k) = below (scale m (2 ^ 53)) (5854679515581645 * 2 ^ k)
is_low _ = false

-- `isinstance(allowed_labels, list) and label not in allowed_labels`
unfoldable pub is_foreign_label : Json → Json → Bool
unfolding is_element
is_foreign_label label (arr xs) = not (is_element label xs)
is_foreign_label label _ = false

unfoldable pub topic_classification : ResultEnvelope → List VerifierCheckResult
unfolding get passed_check failed_check warning_check is_foreign_label is_confidence is_low
topic_classification e =
    let output = output_of e in
    let confidence = get output "confidence" in
    if is_foreign_label (get output "label") (get output "allowed_labels")
    then fail_named "topic_label_enum" "topic label is not in allowed label enum"
    else if not (is_confidence confidence)
    then fail_named "topic_confidence_range" "topic confidence must be numeric and between 0 and 1"
    else if is_low confidence
    then warn_named "topic_confidence" "topic confidence is low"
    else pass_named "topic_classification"

-- `[item for item in value if isinstance(item, str) and item]`, none where it is no list
unfoldable pub item_texts : Items → List String
item_texts nil = []
item_texts (cons (str s) xs) = if str_eq s "" then item_texts xs else s ∷ item_texts xs
item_texts (cons _ xs) = item_texts xs

unfoldable pub list_texts : Json → List String
unfolding item_texts
list_texts (arr xs) = item_texts xs
list_texts _ = []

abbrev member : String → List String → Bool
member s xs = any (str_eq s) xs

-- a list, or the other one if it is empty
abbrev or_list : List String → List String → List String
or_list [] ys = ys
or_list (x ∷ xs) ys = x ∷ xs

unfoldable pub allowed_types_of : Fields → List String
unfolding get list_texts
allowed_types_of output =
    or_list
      (keep (λ s. member s allowed_claim_types) (list_texts (get output "allowed_claim_types")))
      allowed_claim_types

unfoldable pub claim_source_ids : Fields → List String
unfolding get list_texts
claim_source_ids output = list_texts (get output "source_ids")

-- `isinstance(value, str) and value`
unfoldable pub some_text : Json → List String
some_text (str s) = if str_eq s "" then [] else s ∷ []
some_text _ = []

unfoldable pub claim_source_refs : Fields → List String
unfolding get list_texts some_text
claim_source_refs claim =
    or_list (list_texts (get claim "source_post_refs")) (some_text (get claim "source_ref"))

unfoldable pub source_refs_allowed : List String → List String → Bool
unfolding codes starts_codes
source_refs_allowed refs [] =
    all (λ r. starts_codes (codes "src_") (codes r) || starts_codes (codes "fixture_") (codes r))
      refs
source_refs_allowed refs (id ∷ ids) = all (λ r. member r (id ∷ ids)) refs

abbrev no_texts : List String → Bool
no_texts [] = true
no_texts (s ∷ ss) = false

-- `isinstance(value, str) and value in allowed`
unfoldable pub is_allowed_type : List String → Json → Bool
is_allowed_type allowed (str s) = member s allowed
is_allowed_type allowed _ = false

-- `if test: failures.append(failed_check(name, message))`
unfoldable pub fail_if : Bool → String → String → List VerifierCheckResult
unfolding failed_check
fail_if true name message = fail_named name message
fail_if false name message = []

unfoldable pub check_source_refs : List String → List String → List VerifierCheckResult
unfolding fail_if source_refs_allowed
check_source_refs [] ids = fail_if true "claim_source_ref" "claim is missing source_post_refs"
check_source_refs (r ∷ refs) ids =
    fail_if (not (source_refs_allowed (r ∷ refs) ids)) "claim_source_ref"
      "claim source_post_refs are not in input source ids"

-- the body of the loop over the claims
unfoldable pub check_claim : Fields → List String → Json → List VerifierCheckResult
unfolding fail_if get truthy some_text is_allowed_type allowed_types_of is_confidence
    claim_source_refs check_source_refs
check_claim output ids (obj claim) =
    let claim_text = get claim "claim_text" in
    let used_text = if truthy claim_text then claim_text else get claim "text" in
    fail_if (no_texts (some_text used_text)) "claim_text" "claim is missing claim_text"
    ++ fail_if (not (truthy (get claim "entity"))) "claim_entity" "claim is missing entity"
    ++ fail_if (not (is_allowed_type (allowed_types_of output) (get claim "claim_type")))
        "claim_type_enum" "claim_type is not allowed"
    ++ fail_if (not (is_confidence (get claim "confidence"))) "claim_confidence_range"
        "claim confidence must be numeric and between 0 and 1"
    ++ check_source_refs (claim_source_refs claim) ids
    ++ fail_if (no_texts (some_text (get claim "evidence_hint"))) "claim_evidence_hint"
        "claim is missing evidence_hint"
check_claim output ids claim = fail_if true "claim_entity" "claim entry is not an object"

unfoldable pub check_claims : Fields → List String → Items → List VerifierCheckResult
unfolding check_claim
check_claims output ids nil = []
check_claims output ids (cons claim claims) =
    check_claim output ids claim ++ check_claims output ids claims

-- `failures or [passed_check(...)]`
abbrev or_passed : String → List VerifierCheckResult → List VerifierCheckResult
or_passed name [] = pass_named name
or_passed name (c ∷ cs) = c ∷ cs

unfoldable pub claim_extraction : ResultEnvelope → List VerifierCheckResult
unfolding get passed_check failed_check check_claims claim_source_ids
claim_extraction e =
    let output = output_of e in
    elim (get output "claims") [
      | Json.arr (Items.cons claim claims) ↦
          or_passed "claim_extraction"
            (check_claims output (claim_source_ids output) (cons claim claims))
      | other ↦ fail_named "claim_entity" "claim extraction produced no claims"
    ]

unfoldable pub webpage_extraction : ResultEnvelope → List VerifierCheckResult
unfolding get truthy passed_check failed_check warning_check
webpage_extraction e =
    let output = output_of e in
    elim (get output "extracted") [
      | Json.obj (Fields.field k v rest) ↦
          if truthy (get output "prompt_injection_detected")
          then warn_named "webpage_prompt_injection"
              "prompt injection marker detected in untrusted content"
          else pass_named "webpage_extraction"
      | other ↦ fail_named "webpage_empty" "webpage extraction output is empty"
    ]

unfoldable pub run_task_specific_checks : String → ResultEnvelope → List VerifierCheckResult
unfolding url_check dedup topic_classification claim_extraction webpage_extraction failed_check
run_task_specific_checks recipe_id e =
    if str_eq recipe_id "url_check_v0"
    then url_check e
    else if str_eq recipe_id "dedup_v0"
    then dedup e
    else if str_eq recipe_id "topic_classification_v0"
    then topic_classification e
    else if str_eq recipe_id "claim_extraction_v0"
    then claim_extraction e
    else if str_eq recipe_id "webpage_extraction_v0"
    then webpage_extraction e
    else fail_named "recipe_known" (append "unknown verifier recipe: " recipe_id)
