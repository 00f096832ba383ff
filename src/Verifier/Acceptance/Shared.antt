-- ===== src/Verifier/Acceptance/Shared.antt =====
-- What a shared check that did not fail says of the envelope.
use token_bank.Prelude.{
  String, ◌≡◌, refl, sym, ◌∙◌, ◌⊎◌, Bool, true, false, ◌||◌, Option, none, some, List, [], ◌∷◌,
  ◌++◌, str_eq, eq_iff, eq_refl, Bool-cases, inl, inr, arith,
}
use token_bank.Json.{Json, Fields, end, field, get}
use token_bank.World.{World}
use token_bank.Scheduler.Results.{ResultEnvelope, output_hash}
use token_bank.Verifier.Common.{
  VerifierCheckResult, VerifiedEnvelope, failed_check, check_hash, check_hashes,
  expected_envelope_result_hash, is_text, check_policy_linkage, redaction_checks, schema_check,
  validate_output,
}
use token_bank.Verifier.Runner.{is_failed, names_of, has_name}

-- the check of this name failed
abbrev pub fails : String → List VerifierCheckResult → Bool
fails name checks = has_name name (names_of is_failed checks)

pub fails-append :
    (name : String) (xs ys : List VerifierCheckResult)
    → fails name (xs ++ ys) ≡ fails name xs || fails name ys
unfolding has_name names_of
fails-append name [] ys = refl
fails-append name (x ∷ xs) ys = elim (Bool-cases (is_failed x.status)) [
  | inl f ↦ rw (f, fails-append name xs ys) ground arith
  | inr p ↦ rw p (fails-append name xs ys)
]

pub neither : (a b : Bool) → a || b ≡ false → (a ≡ false) × (b ≡ false)
neither false b h = (refl, h)
neither true b h = cc

pub apart :
    (name : String) (xs ys : List VerifierCheckResult)
    → fails name (xs ++ ys) ≡ false
    → (fails name xs ≡ false) × (fails name ys ≡ false)
apart name xs ys h = neither _ _ (sym (fails-append name xs ys) ∙ h)

pub no_leaks :
    (paths : List String) → fails "secret_redaction" (redaction_checks paths) ≡ false → paths ≡ []
unfolding redaction_checks has_name names_of failed_check
no_leaks [] h = refl
no_leaks (p ∷ ps) h = cc

pub no_error : (r : Option Json) → fails "output_schema" (schema_check r ∷ []) ≡ false → r ≡ none
unfolding schema_check has_name names_of failed_check
no_error none h = refl
no_error (some path) h = cc

pub valid_output :
    (schema_error : Fields → Json → Option Json) (schema : Fields) (output : Json)
    → fails "output_schema" (validate_output schema_error schema output ∷ []) ≡ false
    → (schema ≡ end) ⊎ (schema_error schema output ≡ none)
unfolding validate_output
valid_output schema_error end output h = inl refl
valid_output schema_error (field k v rest) output h = inr (no_error _ h)

-- the decision that was handed over approves this Work Unit
abbrev pub Approves : ResultEnvelope → Option Fields → Type 0
Approves e none = Unit
Approves e (some d) =
    (is_text (get d "work_unit_id") e.work_unit_id ≡ true)
    × (is_text (get d "decision") "approved" ≡ true)

pub linked :
    (e : ResultEnvelope) (policy : Option Fields)
    → fails "policy_linkage" (check_policy_linkage e policy) ≡ false
    → Approves e policy
unfolding check_policy_linkage has_name names_of failed_check
linked e none h = tt
linked e (some d) h = elim (Bool-cases (is_text (get d "work_unit_id") e.work_unit_id)) [
  | inr other ↦ cc (rw other at h)
  | inl same ↦ elim (Bool-cases (is_text (get d "decision") "approved")) [
    | inr denied ↦ cc (rw (same, denied) at h)
    | inl approved ↦ (same, approved)
  ]
]

module _ (w : World) (e : VerifiedEnvelope) where
  pub hash_matches :
      (name message expected given : String)
      → fails name (check_hash w name message expected given ∷ []) ≡ false
      → expected ≡ given
  unfolding check_hash has_name names_of failed_check
  hash_matches name message expected given h = elim (Bool-cases (str_eq expected given)) [
    | inl same ↦ (eq_iff expected given).0 same
    | inr other ↦ cc (rw (other, eq_refl name) at h)
  ]

  pub hash_is_there :
      fails "output_hash_present" (check_hashes w e) ≡ false → str_eq e.base.output_hash "" ≡ false
  unfolding check_hashes has_name names_of failed_check
  hash_is_there h = elim (Bool-cases (str_eq e.base.output_hash "")) [
    | inl missing ↦ cc (rw missing at h)
    | inr given ↦ given
  ]

  pub hashes_match :
      fails "output_hash_present" (check_hashes w e) ≡ false
      → fails "output_hash_valid" (check_hashes w e) ≡ false
      → fails "result_hash_valid" (check_hashes w e) ≡ false
      → (output_hash w e.base.output ≡ e.base.output_hash)
        × (expected_envelope_result_hash w e ≡ e.base.result_hash)
  unfolding check_hashes
  hashes_match present output result =
      let given = hash_is_there present in
      (
        hash_matches "output_hash_valid" _ _ _
            (apart "output_hash_valid" (_ ∷ []) (_ ∷ []) (rw given at output)).0,
        hash_matches "result_hash_valid" _ _ _
            (apart "result_hash_valid" (_ ∷ []) (_ ∷ []) (rw given at result)).1,
      )
