-- ===== src/Verifier/Leaks.antt =====
-- What the verifier recommends for an envelope with a secret in it.
use token_bank.Prelude.{
  String, ◌≡◌, ◌≢◌, refl, ◌∙◌, Bool, true, false, ◌||◌, Option, List, [], ◌∷◌, ◌++◌, arith,
}
use token_bank.Result.{ok}
use token_bank.Json.{Json, Fields, obj}
use token_bank.World.{World}
use token_bank.Verifier.Common.{
  VerifierCheckResult, VerifierRecipe, VerifiedEnvelope, failed_check, secret_paths,
  redaction_checks, check_secret_redaction,
}
use token_bank.Verifier.Secrets.{SecretFree, secret_paths_lem}
use token_bank.Verifier.Runner.{
  VerifierReport, names_of, has_name, recommendation, recommend, all_checks, run,
}
use token_bank.Verifier.Acceptance.{fails, fails-append, built}

found :
    (paths : List String) → paths ≢ [] → fails "secret_redaction" (redaction_checks paths) ≡ true
unfolding redaction_checks failed_check has_name names_of
found [] h = absurd (h refl)
found (p ∷ ps) h = refl

either : (a b : Bool) → (a ≡ true) → a || b ≡ true
either true b h = refl
either false b h = cc

in_left :
    (xs ys : List VerifierCheckResult)
    → fails "secret_redaction" xs ≡ true
    → fails "secret_redaction" (xs ++ ys) ≡ true
in_left xs ys h = fails-append "secret_redaction" xs ys ∙ either _ _ h

in_right :
    (xs ys : List VerifierCheckResult)
    → fails "secret_redaction" ys ≡ true
    → fails "secret_redaction" (xs ++ ys) ≡ true
in_right xs ys h = rw (fails-append "secret_redaction" xs ys, h) ground arith

module _ (w : World) (schema_error : Fields → Json → Option Json) (recipe : VerifierRecipe)
    (e : VerifiedEnvelope) (work_unit policy : Option Fields) where
  leak_fails :
      ¬ SecretFree (obj e.base.body)
      → fails "secret_redaction" (all_checks w schema_error recipe e work_unit policy) ≡ true
  unfolding all_checks check_secret_redaction
  leak_fails leaks = in_left _ _ (
      in_left _ _ (
        in_right _ _ (
          found (secret_paths (obj e.base.body) "$")
            (λ none. leaks ((secret_paths_lem (obj e.base.body) "$").0 none)))))

  -- Whatever else its checks find, the report on an envelope in which some text, at any depth, matches
  -- a secret pattern recommends what the recipe says for a detected secret, by default `quarantine`.
  pub leak-quarantined :
      (report : VerifierReport)
      → ¬ SecretFree (obj e.base.body)
      → run w schema_error recipe e work_unit policy ≡ ok report
      → report.recommendation ≡ recommendation recipe "secret_detected" "quarantine"
  unfolding run recommend
  leak-quarantined report leaks returned =
      let checks = all_checks w schema_error recipe e work_unit policy in
      let recommended : recommend recipe checks
          ≡ recommendation recipe "secret_detected" "quarantine" =
        rw (leak_fails leaks) refl in
      built w schema_error recipe e work_unit policy _ _ _ report returned ∙ recommended
