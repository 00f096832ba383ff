-- ===== src/Scheduler/Effects/Operations.antt =====
-- The lease operations and the heartbeat have only the effects that `Allows` lists.
use token_bank.Prelude.{ℕ, String, Option, arith}
use token_bank.World.{World}
use token_bank.Db.{Db, AttemptRow, AttemptStatus, AssignmentRow, AssignmentStatus}
use token_bank.Session.Moves.{Moves, moves_rules}
use token_bank.Scheduler.Lease.{new_lease_token, verify_lease_token, verify_lease_token_hash}
use token_bank.Scheduler.Assignments.{set_assigned}
use token_bank.Scheduler.Leasing.{
  set_attempt_running, close_attempt, set_assignment_rejected, accept_effects, accept_write,
  accept_assignment, reject_assignment, progress_write, progress_assignment,
  record_worker_heartbeat,
}
use token_bank.Scheduler.Results.{close_assignment}
use token_bank.Scheduler.Sweeper.{set_expired}
use token_bank.Scheduler.Effects.{SameAttempt, SameLease, Allows}
use token_bank.Scheduler.Effects.Primitives.{
  enqueue_event-Moves, insert_result-Moves, insert_quarantine-Moves, insert_health-Moves,
  update_attempt-Moves, update_assignment-Moves, find_attempt-Moves, assignment_for_worker-Moves,
  update_work_unit_status-Moves, conditional_assignment_update-Moves,
}

pub set_assigned_same : (row : AttemptRow) → SameAttempt row (set_assigned row)
unfolding set_assigned
set_assigned_same row = ground arith

pub set_attempt_running_same :
    (now : String) (row : AttemptRow) → SameAttempt row (set_attempt_running now row)
unfolding set_attempt_running
set_attempt_running_same now row = ground arith

pub close_attempt_same :
    (status : AttemptStatus) (now : String) (row : AttemptRow)
    → SameAttempt row (close_attempt status now row)
unfolding close_attempt
close_attempt_same status now row = ground arith

pub set_assignment_rejected_same :
    (now : String) (row : AssignmentRow) → SameLease row (set_assignment_rejected now row)
unfolding set_assignment_rejected
set_assignment_rejected_same now row = ground arith

pub close_assignment_same :
    (status : AssignmentStatus) (now : String) (row : AssignmentRow)
    → SameLease row (close_assignment status now row)
unfolding close_assignment
close_assignment_same status now row = ground arith

pub set_expired_same : (now : String) (row : AssignmentRow) → SameLease row (set_expired now row)
unfolding set_expired
set_expired_same now row = ground arith

pub ruleset same_rules = (
  set_assigned_same, set_attempt_running_same, close_attempt_same, set_assignment_rejected_same,
  close_assignment_same, set_expired_same,
)

pub ruleset effect_rules = (
  moves_rules, same_rules, enqueue_event-Moves, insert_result-Moves, insert_quarantine-Moves,
  insert_health-Moves, update_attempt-Moves, update_assignment-Moves, find_attempt-Moves,
  assignment_for_worker-Moves, update_work_unit_status-Moves, conditional_assignment_update-Moves,
)

module _ {R : Db → Db → Type 0} (a : Allows R) (w : World) where
  pub accept_effects-Moves :
      (x : AssignmentRow) (worker_id prefix now : String) (row : AssignmentRow)
      → Moves R (accept_effects w x worker_id prefix now row)
  unfolding accept_effects
  accept_effects-Moves x worker_id prefix now row = search (effect_rules, a.preorder) depth 20

  pub accept_write-Moves :
      (x : AssignmentRow) (worker_id : String) (version : ℕ) (token expires now : String)
      → Moves R (accept_write w x worker_id version token expires now)
  unfolding accept_write
  accept_write-Moves x worker_id version token expires now =
      search (effect_rules, a.preorder, accept_effects-Moves)

  new_lease_token-Moves : Moves R (new_lease_token w)
  unfolding new_lease_token
  new_lease_token-Moves = search (moves_rules, a.preorder)

  pub accept_assignment-Moves :
      (id worker_id : String) (version ms : ℕ)
      → Moves R (accept_assignment w id worker_id version ms)
  unfolding accept_assignment
  accept_assignment-Moves id worker_id version ms =
      search (effect_rules, a.preorder, accept_write-Moves, new_lease_token-Moves) depth 20

  pub reject_assignment-Moves : (id worker_id : String) → Moves R (reject_assignment w id worker_id)
  unfolding reject_assignment
  reject_assignment-Moves id worker_id = search (effect_rules, a.preorder) depth 20

  progress_write-Moves :
      (x : AssignmentRow) (worker_id : String) (version : ℕ) (expires : String)
      → Moves R (progress_write w x worker_id version expires)
  unfolding progress_write
  progress_write-Moves x worker_id version expires = search (effect_rules, a.preorder) depth 20

  pub verify_lease_token-Moves : (s t : Option String) → Moves R (verify_lease_token w s t)
  unfolding verify_lease_token
  verify_lease_token-Moves s t = search (moves_rules, a.preorder)

  pub verify_lease_token_hash-Moves : (s t : Option String) → Moves R (verify_lease_token_hash s t)
  unfolding verify_lease_token_hash
  verify_lease_token_hash-Moves s t = search (moves_rules, a.preorder)

  pub progress_assignment-Moves :
      (id worker_id : String) (token : Option String) (version ms : ℕ)
      → Moves R (progress_assignment w id worker_id token version ms)
  unfolding progress_assignment
  progress_assignment-Moves id worker_id token version ms =
      search (effect_rules, a.preorder, progress_write-Moves, verify_lease_token-Moves) depth 20

  pub record_worker_heartbeat-Moves :
      (worker_id status : String) → Moves R (record_worker_heartbeat w worker_id status)
  unfolding record_worker_heartbeat
  record_worker_heartbeat-Moves worker_id status = search (effect_rules, a.preorder) depth 20
