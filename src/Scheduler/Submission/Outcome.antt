-- ===== src/Scheduler/Submission/Outcome.antt =====
-- What a submission that returns has done to the database, for a late result and for any other.
use Prim.Native.String.{◌++◌ as append}
use token_bank.Prelude.{suc, String, ◌≡◌, Option, some, any, Bool-cases, inl, inr}
use token_bank.Result.{ok}
use token_bank.Exec.{Exec, pure, ◌>>=◌}
use token_bank.World.{World}
use token_bank.Sql.{update_where}
use token_bank.Db.{
  Db, AttemptStatus, AssignmentRow, AssignmentStatus, ResultRow, QuarantineRow, WorkUnitStatus,
}
use token_bank.Session.{Session, read}
use token_bank.Session.Moves.{Moves, moves_rules}
use token_bank.Session.Runs.{bind-ok}
use token_bank.Outbox.{OutboxEventInput, enqueue_event}
use token_bank.Outbox.Frames.{OnlyEvents, OnlyEvents-preorder, enqueue_event-OnlyEvents}
use token_bank.Scheduler.Tables.{
  is_work_unit, is_attempt, is_assignment, refuses_result, append_result, insert_result,
  refuses_quarantine, append_quarantine, insert_quarantine, update_attempt, update_assignments,
}
use token_bank.Scheduler.Lifecycle.{set_status, set_work_unit, update_work_unit_status}
use token_bank.Scheduler.Leasing.{close_attempt}
use token_bank.Scheduler.Results.{
  StoredResult, close_assignment, completed_event, quarantine_late_result, complete_result,
}

pub insert_result-ok :
    (row : ResultRow) (s : Session) (u : Unit {0})
    → (insert_result row s).0 ≡ ok u
    → (insert_result row s).1 ≡ record s { db = append_result row s.db }
unfolding insert_result ◌>>=◌
insert_result-ok row s u e = elim (Bool-cases (refuses_result row s.db)) [
  | inl refused ↦ cc (rw refused at e)
  | inr free ↦ rw free
]

pub insert_quarantine-ok :
    (row : QuarantineRow) (s : Session) (u : Unit {0})
    → (insert_quarantine row s).0 ≡ ok u
    → (insert_quarantine row s).1.db ≡ append_quarantine row s.db
unfolding insert_quarantine ◌>>=◌
insert_quarantine-ok row s u e = elim (Bool-cases (refuses_quarantine row s.db)) [
  | inl refused ↦ cc (rw refused at e)
  | inr free ↦ rw free
]

-- both rows closed with their status
abbrev pub closed : AssignmentRow → AssignmentStatus → AttemptStatus → String → Db → Db
closed a status attempt_status now db = record db {
  assignments =
      update_where (is_assignment a.assignment_id) (close_assignment status now) db.assignments;
  execution_attempts =
      update_where (is_attempt a.attempt_id) (close_attempt attempt_status now)
        db.execution_attempts;
}

abbrev pub quarantine_entry : AssignmentRow → StoredResult → String → String → QuarantineRow
quarantine_entry a r hex now = record {
  quarantine_id = append "quar_" hex;
  result_envelope_id = r.result_envelope_id;
  work_unit_id = a.work_unit_id;
  attempt_id = a.attempt_id;
  assignment_id = a.assignment_id;
  reason = "newer_attempt_exists";
  body_json = r.body;
  created_at = now;
}

module _ (w : World) (a : AssignmentRow) (r : StoredResult) where
  pub quarantine_late_result-ok :
      (s : Session) (u : Unit {0})
      → (quarantine_late_result w a r s).0 ≡ ok u
      → (quarantine_late_result w a r s).1.db
        ≡ append_quarantine
            (quarantine_entry a r (w.uuid_hex (suc s.reads)) (w.clock_text s.reads))
            (closed a AssignmentStatus.quarantined AttemptStatus.quarantined
              (w.clock_text s.reads)
              s.db)
  unfolding quarantine_late_result update_attempt update_assignments ◌>>=◌ read
  quarantine_late_result-ok s u e =
      insert_quarantine-ok (quarantine_entry a r (w.uuid_hex (suc s.reads)) (w.clock_text s.reads))
        (record {
          db =
              closed a AssignmentStatus.quarantined AttemptStatus.quarantined (w.clock_text s.reads)
                s.db;
          reads = suc (suc s.reads);
        })
        u e

-- the Work Unit with its new status
abbrev pub unit_set : String → WorkUnitStatus → String → Db → Db
unit_set id status now db = record db {
  work_units = update_where (is_work_unit id) (set_status status now) db.work_units;
}

pub announced :
    {A : Type 0} (w : World) (event : OutboxEventInput) (a : A)
    → Moves OnlyEvents (enqueue_event w event >>= λ _. pure a)
announced w event a = search (moves_rules, OnlyEvents-preorder, enqueue_event-OnlyEvents)

update_work_unit_status-ok :
    (w : World) (id : String) (status : WorkUnitStatus) (type : Option String) (s : Session)
    (u : Unit {0})
    → (update_work_unit_status w id status "scheduler" type s).0 ≡ ok u
    → OnlyEvents
        (unit_set id status (w.clock_text s.reads) s.db)
        (update_work_unit_status w id status "scheduler" type s).1.db
unfolding update_work_unit_status set_work_unit ◌>>=◌ read
update_work_unit_status-ok w id status type s u e =
    elim (Bool-cases (any (is_work_unit id) s.db.work_units)) [
      | inl known ↦ rw known (
          (announced w _ tt).at
            (record { db = unit_set id status (w.clock_text s.reads) s.db; reads = suc s.reads }))
      | inr unknown ↦ cc (rw unknown at e)
    ]

-- where a step returned, a rest that only announces adds events to what the step did
pub events_after :
    {A B : Type 0} (m : Exec Session A) (f : A → Exec Session B) (base : Db) (s : Session) (b : B)
    → ((m >>= f) s).0 ≡ ok b
    → ((x : A) → (m s).0 ≡ ok x → OnlyEvents base (m s).1.db)
    → ((x : A) → Moves OnlyEvents (f x))
    → OnlyEvents base ((m >>= f) s).1.db
events_after m f base s b e step rest =
    let (x, returned, onward) = bind-ok m f s b e in
    rw onward (
      OnlyEvents-preorder.chain base (m s).1.db (f x (m s).1).1.db (step x returned)
        ((rest x).at (m s).1))

module _ (w : World) (a : AssignmentRow) where
  pub complete_result-ok :
      (now : String) (s : Session) (u : Unit {0})
      → (complete_result w a now s).0 ≡ ok u
      → OnlyEvents
          (unit_set a.work_unit_id WorkUnitStatus.succeeded
            (w.clock_text s.reads)
            (closed a AssignmentStatus.completed AttemptStatus.succeeded now s.db))
          (complete_result w a now s).1.db
  unfolding complete_result update_attempt update_assignments ◌>>=◌
  complete_result-ok now s u e =
      events_after
        (update_work_unit_status w a.work_unit_id WorkUnitStatus.succeeded "scheduler"
          (some "work_unit.succeeded"))
        (λ _. enqueue_event w (completed_event a) >>= λ _. pure tt)
        (unit_set a.work_unit_id WorkUnitStatus.succeeded (w.clock_text s.reads)
          (closed a AssignmentStatus.completed AttemptStatus.succeeded now s.db))
        (record s { db = closed a AssignmentStatus.completed AttemptStatus.succeeded now s.db }) u e
        (λ x returned.
          update_work_unit_status-ok w a.work_unit_id WorkUnitStatus.succeeded
            (some "work_unit.succeeded") _ x returned)
        (λ _. announced w (completed_event a) tt)
