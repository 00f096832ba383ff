-- ===== src/Verifier/Common/Outcomes.antt =====
-- The outcome of a check, a recipe and an envelope.
use token_bank.Prelude.{ℕ, String, Option, none, List, str_eq, if◌then◌else◌}
use token_bank.Json.{Fields}
use token_bank.Scheduler.Results.{ResultEnvelope}

pub data VerifierStatus : Type 0 where
  passed : VerifierStatus
  failed : VerifierStatus
  needs_review : VerifierStatus
  skipped : VerifierStatus

pub record VerifierCheckResult : Type 0 where
  pub name : String
  pub status : VerifierStatus
  pub message : String
  pub observed_hash : Option String
  pub metadata : Fields

pub record VerifierRecipe : Type 0 where
  pub verifier_recipe_id : String
  pub task_type : String
  pub output_schema : Fields
  pub recommendations : List (String × String)
  pub sampled_audit_rate_bps : ℕ

-- what the verifier reads of a result envelope beside what the scheduler reads
pub record VerifiedEnvelope : Type 0 where
  pub base : ResultEnvelope
  pub backend_id : Option String
  pub backend_class : Option String
  pub usage_record_ids : List String
  pub error_codes : List String

unfoldable pub passed_check : String → String → Fields → VerifierCheckResult
passed_check name message metadata = record {
  name = name;
  status = VerifierStatus.passed;
  message = if str_eq message "" then "passed" else message;
  observed_hash = none;
  metadata = metadata;
}

unfoldable pub failed_check : String → String → Option String → Fields → VerifierCheckResult
failed_check name message observed_hash metadata = record {
  name = name;
  status = VerifierStatus.failed;
  message = message;
  observed_hash = observed_hash;
  metadata = metadata;
}

unfoldable pub warning_check : String → String → Fields → VerifierCheckResult
warning_check name message metadata = record {
  name = name;
  status = VerifierStatus.needs_review;
  message = message;
  observed_hash = none;
  metadata = metadata;
}

unfoldable pub skipped_check : String → String → Fields → VerifierCheckResult
skipped_check name message metadata = record {
  name = name;
  status = VerifierStatus.skipped;
  message = message;
  observed_hash = none;
  metadata = metadata;
}
