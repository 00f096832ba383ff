-- ===== src/Verifier/Tasks/Values.antt =====
-- What the task checks share: their outcomes, and tests of the values of an output.
use Prim.Native.String.{◌++◌ as append}
use token_bank.Prelude.{ℕ, String, Bool, true, false, ◌&&◌, none, List, [], ◌∷◌}
use token_bank.Prelude.Int.{pos, at_least, below}
use token_bank.Json.{Json, Fields, null, bool, int, end}
use token_bank.Text.Decimal.{decimal}
use token_bank.Scheduler.Results.{ResultEnvelope}
use token_bank.Verifier.Common.{VerifierCheckResult, passed_check, failed_check, warning_check}

-- `output` is a `dict`.
abbrev pub output_of : ResultEnvelope → Fields
output_of e = elim e.output [ Json.obj fs ↦ fs | other ↦ end ]

abbrev pub pass_named : String → List VerifierCheckResult
pass_named name = passed_check name "" end ∷ []

abbrev pub fail_named : String → String → List VerifierCheckResult
fail_named name message = failed_check name message none end ∷ []

abbrev pub warn_named : String → String → List VerifierCheckResult
warn_named name message = warning_check name message end ∷ []

-- `isinstance(value, int)`, which a truth value is too, and its digits where it is not negative
unfoldable pub is_integer : Json → Bool
is_integer (int n) = true
is_integer (bool b) = true
is_integer _ = false

-- `isinstance(value, int) and low <= value < high`, for bounds above 1
unfoldable pub within : ℕ → ℕ → Json → Bool
within low high (int n) = at_least n low && below n high
within low high _ = false

unfoldable pub status_text : Json → String
unfolding decimal
status_text (int (pos n)) = append "HTTP " (decimal n)
status_text _ = "HTTP "

-- `value is True`, `value is None`
unfoldable pub is_true : Json → Bool
is_true (bool b) = b
is_true _ = false

unfoldable pub is_none : Json → Bool
is_none null = true
is_none _ = false
