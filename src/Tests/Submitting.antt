-- ===== src/Tests/Submitting.antt =====
-- A late and a timely result, stored under a lease.
use token_bank.Prelude.{String, ◌≡◌, refl, true, false, none, some}
use token_bank.Result.{ok}
use token_bank.Exec.{◌>>=◌}
use token_bank.Db.{ResultStatus}
use token_bank.Session.{Session, read, transaction}
use token_bank.Sql.{fetchone}
use token_bank.Scheduler.Lease.{verify_lease_token_hash}
use token_bank.Outbox.{enqueue_event}
use token_bank.Outbox.Frames.{OnlyEvents}
use token_bank.Scheduler.Lifecycle.{update_work_unit_status}
use token_bank.Scheduler.Tables.{
  append_result, assignment_for_worker, find_attempt, insert_result, insert_quarantine,
  update_attempt, update_assignments,
}
use token_bank.Scheduler.Results.{
  from_output, newer_attempt_exists, prepare_result, PreparedResult, result_row, result_write,
  settle_result, submit_result,
}
use token_bank.Scheduler.Submission.Checked.{MayStore, prepare_result-MayStore}
use token_bank.Scheduler.Submission.Settled.{
  set_aside, accepted, late_result_set_aside, timely_result_accepted,
}
use token_bank.Tests.Data.{world, attempt_of, leased, start, first_attempt, both_attempts, output}

abbrev replaced : Session
replaced = start both_attempts leased

abbrev current : Session
current = start first_attempt leased

late_stored :
    (submit_result world "asg_1" "wrk_1" none (some "hash") output none replaced).0
    ≡ ok (from_output world true leased output "0")
unfolding world submit_result prepare_result result_write transaction ◌>>=◌ assignment_for_worker
    find_attempt insert_result insert_quarantine update_attempt update_assignments settle_result
    enqueue_event read from_output verify_lease_token_hash
late_stored = refl

late_result_set_aside_example :
    (from_output world true leased output "0").status ≡ ResultStatus.quarantined
    × (now : String) × (hex : String) × (later : String) × OnlyEvents
        (set_aside leased (from_output world true leased output "0") hex later (
          append_result
            (result_row leased (from_output world true leased output "0") now)
            replaced.db))
        (submit_result world "asg_1" "wrk_1" none (some "hash") output none replaced).1.db
unfolding fetchone newer_attempt_exists
late_result_set_aside_example =
    late_result_set_aside world "asg_1" "wrk_1" none (some "hash") output none replaced
      (from_output world true leased output "0") late_stored leased (attempt_of "att_1" 1) refl refl
      refl

timely_stored :
    (submit_result world "asg_1" "wrk_1" none (some "hash") output none current).0
    ≡ ok (from_output world false leased output "0")
unfolding world submit_result prepare_result result_write transaction ◌>>=◌ assignment_for_worker
    find_attempt insert_result insert_quarantine update_attempt update_assignments settle_result
    update_work_unit_status enqueue_event read from_output verify_lease_token_hash
timely_stored = refl

timely_result_accepted_example :
    (from_output world false leased output "0").status ≡ ResultStatus.succeeded
    × (now : String) × (later : String) × OnlyEvents
        (accepted leased now later (
          append_result
            (result_row leased (from_output world false leased output "0") now)
            current.db))
        (submit_result world "asg_1" "wrk_1" none (some "hash") output none current).1.db
unfolding fetchone newer_attempt_exists
timely_result_accepted_example =
    timely_result_accepted world "asg_1" "wrk_1" none (some "hash") output none current
      (from_output world false leased output "0") timely_stored leased (attempt_of "att_1" 1) refl
      refl refl

abbrev ready : PreparedResult
ready = record {
  late = false;
  assignment = leased;
  stored = from_output world false leased output "0";
  now = "2026-01-01T00:00:00Z";
}

prepares :
    (prepare_result world "asg_1" "wrk_1" none (some "hash") output none current).0 ≡ ok ready
unfolding world prepare_result ◌>>=◌ assignment_for_worker find_attempt read from_output
    verify_lease_token_hash
prepares = refl

prepare_result-MayStore_example :
    MayStore world current "asg_1" "wrk_1" none (some "hash") none ready
prepare_result-MayStore_example =
    prepare_result-MayStore world "asg_1" "wrk_1" none (some "hash") output none current ready
      prepares
