-- ===== src/Policy/Decision.antt =====
-- What `evaluate_policy` returns: the decision against what is permitted, and its reasons.
use token_bank.Prelude.{
  String, ◌≡◌, ◌≢◌, refl, ◌∙◌, sym, ap, ◌↔◌, Bool, true, false, not, List, [], ◌∷◌, map, keep, all,
  all-All, Bool-cases, inl, inr, if◌then◌else◌,
}
use token_bank.Result.{ok, err, validation_error}
use token_bank.Json.{Json}
use token_bank.World.{World}
use token_bank.Policy.Checks.{
  PolicyInputs, PolicyCheck, PolicyDecision, DecisionValue, all_passed, or_all_passed, reasons_of,
  decision_of,
}
use token_bank.Policy.Evaluation.{policy_checks, evaluate_policy}
use token_bank.Policy.Verdict.{IsPermitted, checks-IsPermitted, IsPermitted-checks}

-- the reasons of the checks that failed, in the order of the checks
abbrev pub failures : List PolicyCheck → List String
failures checks = map (λ c. c.reason) (keep (λ c. not c.passed) checks)

approved_iff :
    (checks : List PolicyCheck)
    → decision_of checks ≡ DecisionValue.approved ↔ all (λ c. c.passed) checks ≡ true
unfolding decision_of
approved_iff checks = elim (Bool-cases (all (λ c. c.passed) checks)) [
  | inl passes ↦ rw passes (λ h. refl, λ h. refl)
  | inr fails ↦ rw fails (λ h. cc, λ h. cc)
]

no_failures : (checks : List PolicyCheck) → all (λ c. c.passed) checks ≡ true → failures checks ≡ []
no_failures [] h = refl
no_failures (c ∷ cs) h = elim (Bool-cases c.passed) [
  | inl passes ↦ rw passes (no_failures cs (rw passes at h))
  | inr fails ↦ cc (rw fails at h)
]

some_failure :
    (checks : List PolicyCheck) → all (λ c. c.passed) checks ≡ false → failures checks ≢ []
some_failure [] h = cc
some_failure (c ∷ cs) h = elim (Bool-cases c.passed) [
  | inl passes ↦ rw passes (some_failure cs (rw passes at h))
  | inr fails ↦ rw fails (λ e. cc)
]

-- what the reasons say of a decision
abbrev pub Explains : List PolicyCheck → DecisionValue → List String → Type 0
Explains checks DecisionValue.approved reasons = reasons ≡ all_passed ∷ []
Explains checks DecisionValue.denied reasons = (reasons ≡ failures checks) × (reasons ≢ [])

kept_reasons : (rs : List String) → rs ≢ [] → or_all_passed rs ≡ rs
unfolding or_all_passed
kept_reasons [] h = absurd (h refl)
kept_reasons (r ∷ rs) h = refl

reasons_of-Explains :
    (checks : List PolicyCheck) → Explains checks (decision_of checks) (reasons_of checks)
unfolding decision_of reasons_of or_all_passed
reasons_of-Explains checks = elim (Bool-cases (all (λ c. c.passed) checks)) [
  | inl passes ↦ rw (passes, no_failures checks passes) refl
  | inr fails ↦
      let some = some_failure checks fails in
      let kept = kept_reasons (failures checks) some in rw (fails, kept) (refl, some)
]

if_ok :
    (refused : Bool) (x d : PolicyDecision)
    → (if refused then err validation_error else ok x) ≡ ok d
    → x ≡ d
if_ok true x d e = cc
if_ok false x d e = cc e

module _ (repr : Json → String) (w : World) (i : PolicyInputs) (d : PolicyDecision)
    (e : evaluate_policy repr w i ≡ ok d) where
  made_by_checks :
      (d.decision ≡ decision_of (policy_checks repr i))
      × (d.reasons ≡ reasons_of (policy_checks repr i))
  unfolding evaluate_policy
  made_by_checks =
      let same = if_ok _ _ d e in
      (
        ap (λ (x : PolicyDecision). x.decision) (sym same),
        ap (λ (x : PolicyDecision). x.reasons) (sym same),
      )

  -- A decision that `evaluate_policy` returns is an approval exactly if the three documents are given,
  -- none asks for a review, backend and class are allowed and not forbidden, a model gateway runs on
  -- the control plane, levels L1 and L2 have a verifier, no extension key at any depth is forbidden and
  -- every amount at any depth is an integer.
  pub evaluate_policy-IsPermitted : d.decision ≡ DecisionValue.approved ↔ IsPermitted repr i
  evaluate_policy-IsPermitted =
      let checks = policy_checks repr i in
      let decided = made_by_checks.0 in
      (
        λ h.
            checks-IsPermitted repr i
              ((all-All (λ c. c.passed) checks).0 ((approved_iff checks).0 (sym decided ∙ h))),
        λ p.
            decided
            ∙ (approved_iff checks).1
                ((all-All (λ c. c.passed) checks).1 (IsPermitted-checks repr i p)),
      )

  -- An approval has the one reason that all checks passed; a denial has the reasons of exactly the
  -- checks that failed, in their order, and at least one.
  pub evaluate_policy-Explains : Explains (policy_checks repr i) d.decision d.reasons
  evaluate_policy-Explains =
      let (decided, reasoned) = made_by_checks in
      rw (decided, reasoned) (reasons_of-Explains (policy_checks repr i))
