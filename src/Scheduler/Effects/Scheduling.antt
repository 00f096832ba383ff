-- ===== src/Scheduler/Effects/Scheduling.antt =====
-- So have the creation of attempts and assignments, whose rows depend on the database that they are
-- put into.
use Prim.Native.String.{◌++◌ as append}
use token_bank.Prelude.{
  suc, String, ◌≡◌, refl, Option, some, none, List, [], ◌∷◌, Option-cases, inl, inr,
}
use token_bank.Exec.{pure, ◌>>=◌}
use token_bank.World.{World}
use token_bank.Sql.{fetchone}
use token_bank.Db.{Db, AttemptRow, CapacityNodeRow, WorkUnitStatus}
use token_bank.Session.{Session, read}
use token_bank.Session.Moves.{Moves, moves_rules, bind_at, transaction_at}
use token_bank.Outbox.{OutboxEventInput, enqueue_event}
use token_bank.Scheduler.Lifecycle.{update_work_unit_status}
use token_bank.Scheduler.Tables.{
  is_attempt, find_attempt, insert_attempt, insert_assignment, update_attempt,
}
use token_bank.Scheduler.Attempts.{
  AttemptRequest, create_attempt, attempt_row, attempt_event, attempt_body, next_attempt_number,
  reschedule, schedule_retry, schedule_fallback,
}
use token_bank.Scheduler.Assignments.{
  AssignmentRequest, assignment_row, assignment_body, assignment_event, set_assigned,
  create_assignment, assign_with, assign_next_work,
}
use token_bank.Scheduler.Effects.{Allows}
use token_bank.Scheduler.Effects.Primitives.{
  insert_attempt_at, insert_assignment_at, find_attempt-Moves,
}
use token_bank.Scheduler.Effects.Operations.{effect_rules}

module _ {R : Db → Db → Type 0} (a : Allows R) (w : World) where
  announce :
      (event : OutboxEventInput) (id : String) → Moves R (enqueue_event w event >>= λ _. pure id)
  announce event id = search (effect_rules, a.preorder)

  pub create_attempt-Moves : (r : AttemptRequest) → Moves R (create_attempt w r)
  unfolding create_attempt ◌>>=◌ read
  create_attempt-Moves r = record {
    at = λ s.
        let id = append "att_" (w.uuid_hex s.reads) in
        let number = next_attempt_number r.work_unit_id s.db.execution_attempts in
        let now = w.clock_text (suc s.reads) in
        let event = attempt_event r id (attempt_body r id number now) in
        let later : Session = record s { reads = suc (suc s.reads) } in
        let rest = λ (_ : Unit {0}). enqueue_event w event >>= (λ (_ : String). pure id) in
        transaction_at a.preorder (insert_attempt (attempt_row r id number now) >>= rest) later (
          bind_at a.preorder (insert_attempt (attempt_row r id number now)) rest later
            (insert_attempt_at a (attempt_row r id number now) later refl)
            (λ _. announce event id));
  }

  reschedule-Moves : (type id : String) → Moves R (reschedule w type id)
  unfolding reschedule
  reschedule-Moves type id =
      search (moves_rules, a.preorder, find_attempt-Moves, create_attempt-Moves)

  pub schedule_retry-Moves : (id : String) → Moves R (schedule_retry w id)
  unfolding schedule_retry
  schedule_retry-Moves id = reschedule-Moves _ id

  pub schedule_fallback-Moves : (id : String) → Moves R (schedule_fallback w id)
  unfolding schedule_fallback
  schedule_fallback-Moves id = reschedule-Moves _ id

  assigned :
      (r : AssignmentRequest) (work_unit_id : String) (event : OutboxEventInput) (id : String)
      → Moves R (
          update_attempt r.attempt_id set_assigned >>= λ _.
          update_work_unit_status w work_unit_id WorkUnitStatus.assigned "scheduler"
            (some "work_unit.assigned")
          >>= λ _. enqueue_event w event >>= λ _. pure id)
  assigned r work_unit_id event id = search (effect_rules, a.preorder) depth 16

  create_assignment_at :
      (r : AssignmentRequest) (s : Session) (attempt : AttemptRow)
      → fetchone (is_attempt r.attempt_id) s.db.execution_attempts ≡ some attempt
      → R s.db (create_assignment w r s).1.db
  unfolding create_assignment find_attempt ◌>>=◌ read
  create_assignment_at r s attempt found =
      let id = append "asg_" (w.uuid_hex s.reads) in
      let now = w.clock_text (suc s.reads) in
      let unit = attempt.work_unit_id in
      let row = assignment_row r unit id now in
      let event =
        assignment_event "assignment.created" id unit r.attempt_id
          (assignment_body r unit id now) in
      let later : Session = record s { reads = suc (suc s.reads) } in
      let rest = λ (_ : Unit {0}). update_attempt r.attempt_id set_assigned >>= λ (_ : Unit {0}).
      update_work_unit_status w unit WorkUnitStatus.assigned "scheduler" (some "work_unit.assigned")
      >>= λ (_ : Unit {0}). enqueue_event w event >>= λ (_ : String). pure id in
      rw found (
        transaction_at a.preorder (insert_assignment row >>= rest) later (
          bind_at a.preorder (insert_assignment row) rest later
            (insert_assignment_at a row later attempt found refl refl)
            (λ _. assigned r unit event id)))

  pub create_assignment-Moves : (r : AssignmentRequest) → Moves R (create_assignment w r)
  create_assignment-Moves r = record {
    at = λ s. elim (Option-cases (fetchone (is_attempt r.attempt_id) s.db.execution_attempts)) [
      | inl missing ↦
          unfold create_assignment find_attempt ◌>>=◌ in rw missing (a.preorder.same s.db)
      | inr (attempt, found) ↦ create_assignment_at r s attempt found
    ];
  }

  assign_with-Moves :
      (worker_id : String) (node : Option CapacityNodeRow) (attempt : Option AttemptRow)
      → Moves R (assign_with w worker_id node attempt)
  unfolding assign_with
  assign_with-Moves worker_id none attempt = search (moves_rules, a.preorder)
  assign_with-Moves worker_id (some node) none = search (moves_rules, a.preorder)
  assign_with-Moves worker_id (some node) (some attempt) = go node.backend_ids
    where
      go :
          (ids : List String)
          → Moves R
              (assign_with w worker_id (some (record node { backend_ids = ids })) (some attempt))
      go [] = search (moves_rules, a.preorder)
      go (id ∷ ids) = search (moves_rules, a.preorder, create_assignment-Moves)

  pub assign_next_work-Moves : (worker_id : String) → Moves R (assign_next_work w worker_id)
  unfolding assign_next_work
  assign_next_work-Moves worker_id = search (moves_rules, a.preorder, assign_with-Moves)
