-- ===== src/Verifier/Acceptance.antt =====
-- What an `accept` of the verifier says of the envelope.
pub mod Shared
use token_bank.Prelude.{
  String, ◌≡◌, ◌≢◌, refl, sym, ◌∙◌, ◌⊎◌, Bool, true, false, ◌||◌, Option, none, List, ◌∷◌, ◌++◌,
  if◌then◌else◌,
}
use token_bank.Result.{ok, err, validation_error}
use token_bank.Json.{Json, Fields, obj, end}
use token_bank.World.{World}
use token_bank.Scheduler.Results.{output_hash}
use token_bank.Verifier.Common.{
  VerifierCheckResult, VerifierRecipe, VerifiedEnvelope, check_hashes,
  expected_envelope_result_hash, check_policy_linkage, check_secret_redaction, chosen_schema,
  check_output_schema,
}
use token_bank.Verifier.Secrets.{SecretFree, secret_paths_lem}
use token_bank.Verifier.Runner.{
  VerifierReport, recommendation, recommend, build_verifier_report, all_checks, run,
}
pub use Shared.*

-- what the recipe says of the failures of the checks that every recipe shares is never `accept`
abbrev pub Rejects : VerifierRecipe → Type 0
Rejects recipe =
    (recommendation recipe "secret_detected" "quarantine" ≢ "accept")
    × (recommendation recipe "output_hash_missing" "reject" ≢ "accept")
    × (recommendation recipe "hash_mismatch" "quarantine" ≢ "accept")
    × (recommendation recipe "schema_invalid" "retry" ≢ "accept")

passes_over : (b : Bool) (x y t : String) → (if b then x else y) ≡ t → x ≢ t → (b ≡ false) × (y ≡ t)
passes_over true x y t h k = absurd (k h)
passes_over false x y t h k = (refl, h)

quarantine≢accept : ◌≢◌ {A = String} "quarantine" "accept"
quarantine≢accept q = cc

recommend-accept :
    (recipe : VerifierRecipe) (checks : List VerifierCheckResult)
    → Rejects recipe
    → recommend recipe checks ≡ "accept"
    → (fails "secret_redaction" checks ≡ false)
      × (fails "output_hash_present" checks ≡ false)
      × (fails "output_hash_valid" checks ≡ false)
      × (fails "result_hash_valid" checks ≡ false)
      × (fails "output_schema" checks ≡ false)
      × (fails "policy_linkage" checks ≡ false)
unfolding recommend
recommend-accept recipe checks (secret, missing, mismatch, schema) h =
    let (no_secret, h₁) = passes_over _ _ _ _ h secret in
    let (present, h₂) = passes_over _ _ _ _ h₁ missing in
    let (match, h₃) = passes_over _ _ _ _ h₂ mismatch in
    let (valid, h₄) = passes_over _ _ _ _ h₃ schema in
    let (linked, h₅) = passes_over _ _ _ _ h₄ (quarantine≢accept) in
    let (output, rest) = neither _ _ match in
    let (result, nothing) = neither _ _ rest in (no_secret, present, output, result, valid, linked)

if_ok :
    (known : Bool) (x report : VerifierReport)
    → (if known then ok x else err validation_error) ≡ ok report
    → report.recommendation ≡ x.recommendation
if_ok true x report h = cc h
if_ok false x report h = cc

-- What an envelope must be for the verifier to accept it.
pub record IsAcceptable (w : World) (schema_error : Fields → Json → Option Json)
    (recipe : VerifierRecipe) (e : VerifiedEnvelope) (work_unit policy : Option Fields)
    : Type 0 where
  pub secret_free : SecretFree (obj e.base.body)
  pub output_matches : output_hash w e.base.output ≡ e.base.output_hash
  pub result_matches : expected_envelope_result_hash w e ≡ e.base.result_hash
  pub valid :
      (chosen_schema recipe work_unit ≡ end)
      ⊎ (schema_error (chosen_schema recipe work_unit) e.base.output ≡ none)
  pub approved : Approves e.base policy

module _ (w : World) (schema_error : Fields → Json → Option Json) (recipe : VerifierRecipe)
    (e : VerifiedEnvelope) (work_unit policy : Option Fields) where
  abbrev pub checks : List VerifierCheckResult
  checks = all_checks w schema_error recipe e work_unit policy

  -- a name that no check failed under fails in none of the groups
  group_by_group :
      (name : String)
      → fails name checks ≡ false
      → (fails name (check_hashes w e) ≡ false)
        × (fails name (check_policy_linkage e.base policy) ≡ false)
        × (fails name (check_secret_redaction e.base) ≡ false)
        × (fails name (check_output_schema schema_error e.base recipe work_unit) ≡ false)
  unfolding all_checks
  group_by_group name h =
      let (h₁, task) = apart name _ _ h in
      let (h₂, schema) = apart name _ _ h₁ in
      let (h₃, secret) = apart name _ _ h₂ in
      let (h₄, policy) = apart name _ _ h₃ in
      let (integrity, hashes) = apart name _ _ h₄ in (hashes, policy, secret, schema)

  checks-IsAcceptable :
      Rejects recipe
      → recommend recipe checks ≡ "accept"
      → IsAcceptable w schema_error recipe e work_unit policy
  unfolding check_secret_redaction check_output_schema
  checks-IsAcceptable r h =
      let (secret, present, output, result, schema, linkage) = recommend-accept recipe checks r h in
      let (output_ok, result_ok) =
        hashes_match w e (group_by_group _ present).0 (group_by_group _ output).0
          (group_by_group _ result).0 in
      record {
        secret_free =
            (secret_paths_lem (obj e.base.body) "$").0
              (no_leaks _ (group_by_group "secret_redaction" secret).2);
        output_matches = output_ok;
        result_matches = result_ok;
        valid = valid_output schema_error _ _ (group_by_group "output_schema" schema).3;
        approved = linked e.base policy (group_by_group "policy_linkage" linkage).1;
      }

  pub built :
      (r : String) (cs : List VerifierCheckResult) (metadata : Fields) (report : VerifierReport)
      → build_verifier_report w recipe.verifier_recipe_id e cs r metadata ≡ ok report
      → report.recommendation ≡ r
  unfolding build_verifier_report
  built r cs metadata report h = if_ok _ _ report h

  -- Where the recipe does not accept what fails one of the shared checks, a report that recommends
  -- `accept` is about an envelope in which no text matches a secret pattern, whose two hashes are those
  -- of its contents, whose output validates against the schema if there is one, and whose policy
  -- decision, if one was handed over, approves its Work Unit.
  pub accepted-IsAcceptable :
      (report : VerifierReport)
      → Rejects recipe
      → run w schema_error recipe e work_unit policy ≡ ok report
      → report.recommendation ≡ "accept"
      → IsAcceptable w schema_error recipe e work_unit policy
  unfolding run
  accepted-IsAcceptable report r returned accepts =
      checks-IsAcceptable r (sym (built _ _ _ report returned) ∙ accepts)
