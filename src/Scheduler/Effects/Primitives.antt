-- ===== src/Scheduler/Effects/Primitives.antt =====
-- The statements of scheduler/ move the database along every relation that allows the effects.
use token_bank.Prelude.{
  ℕ, suc, ◌+◌, any, not, String, ◌≡◌, refl, Bool, Option, some, Bool-cases, Option-cases, inl, inr,
}
use token_bank.Result.{lease_conflict}
use token_bank.Exec.{raise_if, ◌>>=◌, ◌>>◌}
use token_bank.World.{World}
use token_bank.Sql.{fetchone}
use token_bank.Db.{
  Db, WorkUnitStatus, AttemptRow, AssignmentRow, ResultRow, QuarantineRow, HealthRow,
}
use token_bank.Session.{Session, read}
use token_bank.Session.Moves.{Moves, moves_rules, bind_at}
use token_bank.Outbox.{OutboxEventInput, enqueue_event}
use token_bank.Outbox.Sequence.{Moves-enqueue_event}
use token_bank.Scheduler.Tables.{
  is_attempt, is_assignment, refuses_attempt, insert_attempt, refuses_assignment, insert_assignment,
  refuses_result, insert_result, refuses_quarantine, insert_quarantine, refuses_health,
  insert_health, update_attempt, update_assignments, find_attempt, find_assignment,
  assignment_for_worker,
}
use token_bank.Scheduler.Lease.{
  LeaseUpdate, holds_version, set_lease, conditional_assignment_update,
}
use token_bank.Scheduler.Lifecycle.{set_work_unit, set_status, update_work_unit_status}
use token_bank.Scheduler.Attempts.{next_attempt_number}
use token_bank.Scheduler.Effects.{SameAttempt, SameLease, Allows}

module _ {R : Db → Db → Type 0} (a : Allows R) where
  pub enqueue_event-Moves : (w : World) (event : OutboxEventInput) → Moves R (enqueue_event w event)
  enqueue_event-Moves = Moves-enqueue_event a.preorder a.new_event

  pub insert_attempt_at :
      (row : AttemptRow) (s : Session)
      → row.attempt_number ≡ next_attempt_number row.work_unit_id s.db.execution_attempts
      → R s.db (insert_attempt row s).1.db
  unfolding insert_attempt ◌>>=◌
  insert_attempt_at row s e = elim (Bool-cases (refuses_attempt row s.db)) [
    | inl refused ↦ rw refused (a.preorder.same s.db)
    | inr free ↦ rw free (a.new_attempt s.db row (record { accepted = free; numbered = e }))
  ]

  pub insert_assignment_at :
      (row : AssignmentRow) (s : Session) (attempt : AttemptRow)
      → fetchone (is_attempt row.attempt_id) s.db.execution_attempts ≡ some attempt
      → row.work_unit_id ≡ attempt.work_unit_id
      → row.lease_version ≡ 0
      → R s.db (insert_assignment row s).1.db
  unfolding insert_assignment ◌>>=◌
  insert_assignment_at row s attempt found e v = elim (Bool-cases (refuses_assignment row s.db)) [
    | inl refused ↦ rw refused (a.preorder.same s.db)
    | inr free ↦ rw free (
        a.new_assignment s.db row (record {
          accepted = free;
          attempt = attempt;
          found = found;
          of_attempt = e;
          unleased = v;
        }))
  ]

  pub insert_result-Moves : (row : ResultRow) → Moves R (insert_result row)
  unfolding insert_result ◌>>=◌
  insert_result-Moves row = record {
    at = λ s. elim (Bool-cases (refuses_result row s.db)) [
      | inl refused ↦ rw refused (a.preorder.same s.db)
      | inr free ↦ rw free (a.new_result s.db row free)
    ];
  }

  pub insert_quarantine-Moves : (row : QuarantineRow) → Moves R (insert_quarantine row)
  unfolding insert_quarantine ◌>>=◌
  insert_quarantine-Moves row = record {
    at = λ s. elim (Bool-cases (refuses_quarantine row s.db)) [
      | inl refused ↦ rw refused (a.preorder.same s.db)
      | inr free ↦ rw free (a.new_quarantine s.db row free)
    ];
  }

  pub insert_health-Moves : (row : HealthRow) → Moves R (insert_health row)
  unfolding insert_health ◌>>=◌
  insert_health-Moves row = record {
    at = λ s. elim (Bool-cases (refuses_health row s.db)) [
      | inl refused ↦ rw refused (a.preorder.same s.db)
      | inr free ↦ rw free (a.new_health s.db row free)
    ];
  }

  pub update_attempt-Moves :
      (id : String) (f : AttemptRow → AttemptRow)
      → ((row : AttemptRow) → SameAttempt row (f row))
      → Moves R (update_attempt id f)
  unfolding update_attempt ◌>>=◌
  update_attempt-Moves id f h = record { at = λ s. a.set_attempt s.db id f h }

  pub update_assignment-Moves :
      (id : String) (f : AssignmentRow → AssignmentRow)
      → ((row : AssignmentRow) → SameLease row (f row))
      → Moves R (update_assignments (is_assignment id) f)
  unfolding update_assignments ◌>>=◌
  update_assignment-Moves id f h = record { at = λ s. a.set_assignment s.db id f h }

  pub find_attempt-Moves : (id : String) → Moves R (find_attempt id)
  unfolding find_attempt
  find_attempt-Moves id = search (moves_rules, a.preorder)

  pub find_assignment-Moves : (id : String) → Moves R (find_assignment id)
  unfolding find_assignment
  find_assignment-Moves id = search (moves_rules, a.preorder)

  pub assignment_for_worker-Moves :
      (id worker_id : String) → Moves R (assignment_for_worker id worker_id)
  unfolding assignment_for_worker
  assignment_for_worker-Moves id worker_id = search (moves_rules, a.preorder, find_assignment-Moves)

  set_work_unit-Moves :
      (id : String) (status : WorkUnitStatus) (now : String) → Moves R (set_work_unit id status now)
  unfolding set_work_unit ◌>>=◌
  set_work_unit-Moves id status now = record {
    at = λ s. a.set_work_unit s.db id (set_status status now) (λ row. refl);
  }

  pub update_work_unit_status-Moves :
      (w : World) (id : String) (status : WorkUnitStatus) (actor : String)
      (event_type : Option String)
      → Moves R (update_work_unit_status w id status actor event_type)
  unfolding update_work_unit_status
  update_work_unit_status-Moves w id status actor event_type =
      search (moves_rules, a.preorder, set_work_unit-Moves, enqueue_event-Moves) depth 16

  lease_checked :
      (id : String) (conflict : Bool)
      → Moves R (raise_if conflict lease_conflict >>= λ _. find_assignment id)
  lease_checked id conflict = search (moves_rules, a.preorder, find_assignment-Moves)

  renew_at :
      (w : World) (id : String) (version : ℕ) (u : LeaseUpdate) (s : Session)
      (current : AssignmentRow)
      → fetchone (is_assignment id) s.db.assignments ≡ some current
      → R s.db (conditional_assignment_update w id version u s).1.db
  unfolding conditional_assignment_update ◌>>=◌ read
  renew_at w id version u s current found =
      let now = w.clock_text s.reads in
      let later : Session = record s { reads = suc s.reads } in
      rw found (
        bind_at a.preorder
          (update_assignments (holds_version id version)
            (set_lease u (current.lease_version + 1) now))
          (λ _. do
            raise_if (not (any (holds_version id version) s.db.assignments)) lease_conflict
            find_assignment id)
          later (a.renew s.db id version u now current found)
          (λ _. lease_checked id (not (any (holds_version id version) s.db.assignments))))

  pub conditional_assignment_update-Moves :
      (w : World) (id : String) (version : ℕ) (u : LeaseUpdate)
      → Moves R (conditional_assignment_update w id version u)
  conditional_assignment_update-Moves w id version u = record {
    at = λ s. elim (Option-cases (fetchone (is_assignment id) s.db.assignments)) [
      | inl missing ↦
          unfold conditional_assignment_update ◌>>=◌ in rw missing (a.preorder.same s.db)
      | inr (current, found) ↦ renew_at w id version u s current found
    ];
  }
