-- ===== src/Tests/Scheduling.antt =====
-- The scheduler and the outbox at concrete calls.
use token_bank.Prelude.{◌≡◌, refl, none, some, List, [], ◌∷◌, All, str_eq, Bool-cases, inl, inr}
use token_bank.Result.{ok, err, permission_error, lease_conflict}
use token_bank.Json.{str, obj, end, field}
use token_bank.Db.{AssignmentRow, AssignmentStatus}
use token_bank.Exec.{◌>>=◌}
use token_bank.Scheduler.Tables.{assignment_for_worker, update_attempt, update_assignments}
use token_bank.Session.{Session, read, transaction}
use token_bank.Scheduler.Lease.{conditional_assignment_update}
use token_bank.Scheduler.Lifecycle.{update_work_unit_status}
use token_bank.Outbox.{enqueue_event}
use token_bank.Redaction.Laws.{HidesSecrets, redact_sensitive_value-HidesSecrets}
use token_bank.Redaction.{redact_sensitive_value}
use token_bank.Scheduler.Calls.{Operation, Call, perform, serve}
use token_bank.Scheduler.Invariant.{Inv}
use token_bank.Scheduler.History.{Grows, serve-Inv, serve-Grows}
use token_bank.Sql.{fetchone}
use token_bank.Scheduler.Ownership.{foreign_worker_refused}
use token_bank.Scheduler.Sweeper.{is_overdue, sweep_row, sweep_rows, sweep_expired_leases}
use token_bank.Scheduler.Sweeping.{IsCurrent, sweep_expired_leases-swept}
use token_bank.Scheduler.Secrecy.{serve-HidesSecrets}
use token_bank.Scheduler.Atomicity.{perform-error_unchanged}
use token_bank.Scheduler.Leases.Granting.{lease_granted_once}
use token_bank.Scheduler.Leasing.{accept_write, accept_effects, accept_assignment}
use token_bank.Tests.Data.{world, offered, leased, start, first_attempt, output}

abbrev offer : Session
offer = start first_attempt offered

offer-Inv : Inv offer.db
offer-Inv = record {
  attempt_ids = (refl, tt);
  assignment_ids = (refl, tt);
  linked = (refl, tt);
  attempt_numbers =
      λ id. elim (Bool-cases (str_eq "wu_1" id)) [ inl h ↦ rw h (refl, tt) | inr h ↦ rw h tt ];
  sequences = tt;
  redacted = tt;
}

abbrev calls : List Call
calls =
    Call.method (Operation.accept "asg_1" "wrk_1" 0 60000)
    ∷ Call.method (Operation.submit "asg_1" "wrk_1" (some "tbk_l_secret1") none output none)
    ∷ Call.sweep
    ∷ []

serve-Inv_example : Inv (serve world offer calls).db
serve-Inv_example = serve-Inv world offer calls offer-Inv

serve-Grows_example : Grows offer.db (serve world offer calls).db
serve-Grows_example = serve-Grows world offer calls offer-Inv

serve-HidesSecrets_example :
    All (λ row. HidesSecrets row.body_json) (serve world offer calls).db.event_outbox
serve-HidesSecrets_example = serve-HidesSecrets world offer calls offer-Inv

abbrev foreign_accept : Operation
foreign_accept = Operation.accept "asg_1" "wrk_2" 0 60000

foreign_accept_raises : (perform world foreign_accept offer).0 ≡ err permission_error
unfolding perform accept_assignment assignment_for_worker ◌>>=◌
foreign_accept_raises = refl

perform-error_unchanged_example : (perform world foreign_accept offer).1.db ≡ offer.db
perform-error_unchanged_example =
    perform-error_unchanged world foreign_accept offer permission_error foreign_accept_raises

abbrev granted : AssignmentRow
granted = record offered {
  status = AssignmentStatus.accepted;
  lease_version = 1;
  lease_expires_at = some "2026-01-01T00:01:00Z";
  lease_token_hash = some "sha256:tbk_l_a";
  lease_token_prefix = some "tbk_l_a";
  accepted_at = some "2026-01-01T00:00:00Z";
  updated_at = some "2026-01-01T00:00:00Z";
}

first_accept :
    (accept_write world offered "wrk_1" 0 "tbk_l_a" "2026-01-01T00:01:00Z" "2026-01-01T00:00:00Z"
      offer).0
    ≡ ok granted
unfolding world accept_write accept_effects ◌>>=◌ transaction conditional_assignment_update read
    update_attempt update_work_unit_status enqueue_event
first_accept = refl

lease_granted_once_example :
    (accept_write world offered "wrk_2" 0 "tbk_l_b" "2026-01-01T00:01:00Z" "2026-01-01T00:00:00Z" (
      serve world
        (accept_write world offered "wrk_1" 0 "tbk_l_a" "2026-01-01T00:01:00Z"
          "2026-01-01T00:00:00Z" offer).1
        calls)).0
    ≡ err lease_conflict
lease_granted_once_example =
    lease_granted_once world offer offered offered granted 0 "wrk_1" "tbk_l_a"
      "2026-01-01T00:01:00Z" "2026-01-01T00:00:00Z" "wrk_2" "tbk_l_b" "2026-01-01T00:01:00Z"
      "2026-01-01T00:00:00Z" calls offer-Inv refl first_accept

redact_sensitive_value-HidesSecrets_example :
    HidesSecrets (redact_sensitive_value (obj (field "API-Key" (str "k") end)))
redact_sensitive_value-HidesSecrets_example =
    redact_sensitive_value-HidesSecrets (obj (field "API-Key" (str "k") end))

foreign_worker_refused_example : (perform world foreign_accept offer).0 ≡ err permission_error
unfolding fetchone
foreign_worker_refused_example =
    foreign_worker_refused world offer "asg_1" "wrk_2" offered refl refl foreign_accept refl

-- a lease that ended a day before
abbrev late_night : Session
late_night = start first_attempt (record leased { lease_expires_at = some "2025-12-31T00:00:00Z" })

sweeps_one : (sweep_expired_leases world late_night).0 ≡ ok 1
unfolding world sweep_expired_leases sweep_rows sweep_row is_overdue ◌>>=◌ read update_assignments
    enqueue_event
sweeps_one = refl

sweep_expired_leases-swept_example :
    All
      (IsCurrent (world.clock_text late_night.reads))
      (sweep_expired_leases world late_night).1.db.assignments
sweep_expired_leases-swept_example = sweep_expired_leases-swept world late_night 1 sweeps_one
