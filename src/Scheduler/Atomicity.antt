-- ===== src/Scheduler/Atomicity.antt =====
-- A method of `Scheduler` that raises has changed nothing in the database.
use token_bank.Prelude.{ℕ, String, ◌≡◌, Bool, Option, none, some, List, [], ◌∷◌}
use token_bank.Result.{Error, err}
use token_bank.Json.{Json}
use token_bank.World.{World}
use token_bank.Db.{AttemptRow, AssignmentRow, CapacityNodeRow}
use token_bank.Session.{Session}
use token_bank.Session.Atomic.{IsReadOnly, IsAtomic, read_only_rules, atomic_rules}
use token_bank.Scheduler.Tables.{find_attempt, find_assignment, assignment_for_worker}
use token_bank.Scheduler.Lease.{new_lease_token, verify_lease_token, verify_lease_token_hash}
use token_bank.Scheduler.Attempts.{
  AttemptRequest, create_attempt, reschedule, schedule_retry, schedule_fallback,
}
use token_bank.Scheduler.Assignments.{
  AssignmentRequest, create_assignment, assign_with, assign_next_work,
}
use token_bank.Scheduler.Leasing.{
  accept_assignment, reject_assignment, progress_assignment, record_worker_heartbeat,
}
use token_bank.Scheduler.Results.{
  ResultEnvelope, validate_envelope, stored_result, result_write, verify_lease, prepare_result,
  submit_result,
}
use token_bank.Scheduler.Calls.{
  Operation, attempt, assignment, assign_next, accept, reject, progress, heartbeat, submit, retry,
  fallback, perform,
}

pub find_attempt-IsReadOnly : (id : String) → IsReadOnly (find_attempt id)
unfolding find_attempt
find_attempt-IsReadOnly id = search read_only_rules

find_assignment-IsReadOnly : (id : String) → IsReadOnly (find_assignment id)
unfolding find_assignment
find_assignment-IsReadOnly id = search read_only_rules

pub assignment_for_worker-IsReadOnly :
    (id worker_id : String) → IsReadOnly (assignment_for_worker id worker_id)
unfolding assignment_for_worker
assignment_for_worker-IsReadOnly id worker_id = search (read_only_rules, find_assignment-IsReadOnly)

verify_lease_token-IsReadOnly :
    (w : World) (s t : Option String) → IsReadOnly (verify_lease_token w s t)
unfolding verify_lease_token
verify_lease_token-IsReadOnly w s t = search read_only_rules

verify_lease_token_hash-IsReadOnly :
    (s t : Option String) → IsReadOnly (verify_lease_token_hash s t)
unfolding verify_lease_token_hash
verify_lease_token_hash-IsReadOnly s t = search read_only_rules

new_lease_token-IsReadOnly : (w : World) → IsReadOnly (new_lease_token w)
unfolding new_lease_token
new_lease_token-IsReadOnly w = search read_only_rules

pub verify_lease-IsReadOnly :
    (w : World) (x : AssignmentRow) (token hash : Option String)
    → IsReadOnly (verify_lease w x token hash)
unfolding verify_lease
verify_lease-IsReadOnly w x token none = verify_lease_token-IsReadOnly w _ token
verify_lease-IsReadOnly w x token (some hash) = verify_lease_token_hash-IsReadOnly _ (some hash)

pub validate_envelope-IsReadOnly :
    (e : Option ResultEnvelope) (x : AssignmentRow) → IsReadOnly (validate_envelope e x)
unfolding validate_envelope
validate_envelope-IsReadOnly none x = search read_only_rules
validate_envelope-IsReadOnly (some e) x = search read_only_rules

pub stored_result-IsReadOnly :
    (w : World) (late : Bool) (x : AssignmentRow) (output : Json) (e : Option ResultEnvelope)
    → IsReadOnly (stored_result w late x output e)
unfolding stored_result
stored_result-IsReadOnly w late x output none = search read_only_rules
stored_result-IsReadOnly w late x output (some e) = search read_only_rules

pub prepare_result-IsReadOnly :
    (w : World) (id worker_id : String) (token hash : Option String) (output : Json)
    (e : Option ResultEnvelope)
    → IsReadOnly (prepare_result w id worker_id token hash output e)
unfolding prepare_result
prepare_result-IsReadOnly w id worker_id token hash output e =
    search
      (
        read_only_rules, find_attempt-IsReadOnly, assignment_for_worker-IsReadOnly,
        verify_lease-IsReadOnly, validate_envelope-IsReadOnly, stored_result-IsReadOnly,
      )
      depth 16

ruleset checked_rules = (
  atomic_rules, find_attempt-IsReadOnly, assignment_for_worker-IsReadOnly,
  verify_lease_token-IsReadOnly, new_lease_token-IsReadOnly, verify_lease-IsReadOnly,
  validate_envelope-IsReadOnly, stored_result-IsReadOnly,
)

module _ (w : World) where
  create_attempt-IsAtomic : (r : AttemptRequest) → IsAtomic (create_attempt w r)
  unfolding create_attempt
  create_attempt-IsAtomic r = search checked_rules depth 12

  create_assignment-IsAtomic : (r : AssignmentRequest) → IsAtomic (create_assignment w r)
  unfolding create_assignment
  create_assignment-IsAtomic r = search checked_rules depth 12

  assign_with-IsAtomic :
      (worker_id : String) (node : Option CapacityNodeRow) (waiting : Option AttemptRow)
      → IsAtomic (assign_with w worker_id node waiting)
  unfolding assign_with
  assign_with-IsAtomic worker_id none waiting = search checked_rules
  assign_with-IsAtomic worker_id (some node) none = search checked_rules
  assign_with-IsAtomic worker_id (some node) (some waiting) = go node.backend_ids
    where
      go :
          (ids : List String)
          → IsAtomic
              (assign_with w worker_id (some (record node { backend_ids = ids })) (some waiting))
      go [] = search checked_rules
      go (id ∷ ids) = search (atomic_rules, create_assignment-IsAtomic)

  assign_next_work-IsAtomic : (worker_id : String) → IsAtomic (assign_next_work w worker_id)
  unfolding assign_next_work
  assign_next_work-IsAtomic worker_id = search (checked_rules, assign_with-IsAtomic)

  accept_assignment-IsAtomic :
      (id worker_id : String) (version ms : ℕ)
      → IsAtomic (accept_assignment w id worker_id version ms)
  unfolding accept_assignment
  accept_assignment-IsAtomic id worker_id version ms = search checked_rules depth 12

  reject_assignment-IsAtomic : (id worker_id : String) → IsAtomic (reject_assignment w id worker_id)
  unfolding reject_assignment
  reject_assignment-IsAtomic id worker_id = search checked_rules depth 12

  progress_assignment-IsAtomic :
      (id worker_id : String) (token : Option String) (version ms : ℕ)
      → IsAtomic (progress_assignment w id worker_id token version ms)
  unfolding progress_assignment
  progress_assignment-IsAtomic id worker_id token version ms = search checked_rules depth 12

  heartbeat-IsAtomic :
      (worker_id status : String) → IsAtomic (record_worker_heartbeat w worker_id status)
  unfolding record_worker_heartbeat
  heartbeat-IsAtomic worker_id status = search checked_rules depth 12

  submit_result-IsAtomic :
      (id worker_id : String) (token hash : Option String) (output : Json)
      (e : Option ResultEnvelope)
      → IsAtomic (submit_result w id worker_id token hash output e)
  unfolding submit_result result_write
  submit_result-IsAtomic id worker_id token hash output e =
      search (atomic_rules, prepare_result-IsReadOnly)

  reschedule-IsAtomic : (type id : String) → IsAtomic (reschedule w type id)
  unfolding reschedule
  reschedule-IsAtomic type id = search (checked_rules, create_attempt-IsAtomic)

  schedule_retry-IsAtomic : (id : String) → IsAtomic (schedule_retry w id)
  unfolding schedule_retry
  schedule_retry-IsAtomic id = reschedule-IsAtomic _ id

  schedule_fallback-IsAtomic : (id : String) → IsAtomic (schedule_fallback w id)
  unfolding schedule_fallback
  schedule_fallback-IsAtomic id = reschedule-IsAtomic _ id

  perform-IsAtomic : (o : Operation) → IsAtomic (perform w o)
  unfolding perform
  perform-IsAtomic (attempt r) = search (atomic_rules, create_attempt-IsAtomic)
  perform-IsAtomic (assignment r) = search (atomic_rules, create_assignment-IsAtomic)
  perform-IsAtomic (assign_next worker_id) = search (atomic_rules, assign_next_work-IsAtomic)
  perform-IsAtomic (accept id worker_id version ms) =
      search (atomic_rules, accept_assignment-IsAtomic)
  perform-IsAtomic (reject id worker_id) = reject_assignment-IsAtomic id worker_id
  perform-IsAtomic (progress id worker_id token version ms) =
      search (atomic_rules, progress_assignment-IsAtomic)
  perform-IsAtomic (heartbeat worker_id status) = heartbeat-IsAtomic worker_id status
  perform-IsAtomic (submit id worker_id token hash output envelope) =
      search (atomic_rules, submit_result-IsAtomic)
  perform-IsAtomic (retry id) = search (atomic_rules, schedule_retry-IsAtomic)
  perform-IsAtomic (fallback id) = search (atomic_rules, schedule_fallback-IsAtomic)

  -- If a method of `Scheduler` raises, whatever the error and wherever it arose, the database is
  -- the one before the call.
  pub perform-error_unchanged :
      (o : Operation) (s : Session) (e : Error)
      → (perform w o s).0 ≡ err e
      → (perform w o s).1.db ≡ s.db
  perform-error_unchanged o s e h = (perform-IsAtomic o).at s e h
