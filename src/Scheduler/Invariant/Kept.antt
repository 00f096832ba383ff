-- ===== src/Scheduler/Invariant/Kept.antt =====
-- Each effect keeps the invariant.
use token_bank.Prelude.{
  suc, ◌+◌, String, ◌≡◌, sym, ap, ◌∙◌, Bool, false, some, List, [], ◌∷◌, ◌++◌, any, keep,
  keep-append, any-append, All-append, All-map, length, eq_iff, arith, Bool-cases, inl, inr,
}
use mathlib.Core.List.{append-nil}
use mathlib.Core.Path.{fun_ext}
use token_bank.Sql.{fetchone, update_where}
use token_bank.Sql.Rows.{
  Numbered, Numbered-append, max_column-Numbered, Distinct-append, any-update_where,
  Distinct-update_where, All-update_where, Numbered-update_where,
}
use token_bank.Db.{Db, AttemptRow, AssignmentRow, EventRow}
use token_bank.Outbox.{append_event, next_sequence}
use token_bank.Outbox.Sequence.{IsNewEvent}
use token_bank.Scheduler.Tables.{
  is_attempt, is_assignment, refuses_attempt, append_attempt, refuses_assignment, append_assignment,
}
use token_bank.Scheduler.Attempts.{of_work_unit, next_attempt_number}
use token_bank.Scheduler.Effects.{SameAttempt, SameAssignment, IsNewAssignment, IsNewAttempt}
use token_bank.Scheduler.Invariant.{
  attempt_key, assignment_key, is_attempt_of, HasAttempt, IsRedacted, Inv,
}

pub append_event-Inv :
    (db : Db) (row : EventRow) → IsNewEvent row db.event_outbox → Inv db → Inv (append_event row db)
unfolding append_event
append_event-Inv db row n v = record {
  attempt_ids = v.attempt_ids;
  assignment_ids = v.assignment_ids;
  linked = v.linked;
  attempt_numbers = v.attempt_numbers;
  sequences = Numbered-append _ 1 db.event_outbox row v.sequences next;
  redacted = All-append IsRedacted db.event_outbox (row ∷ []) v.redacted ((n.body, n.redacted), tt);
}
  where
    next : row.sequence ≡ 1 + length db.event_outbox
    next =
        unfold next_sequence in
        omega (
          arith,
          n.numbered,
          max_column-Numbered (λ (r : EventRow). r.sequence) db.event_outbox v.sequences,
        )

HasAttempt-append :
    (xs ys : List AttemptRow) (a : AssignmentRow) → HasAttempt xs a → HasAttempt (xs ++ ys) a
HasAttempt-append xs ys a h = rw (any-append (is_attempt_of a) xs ys) (ground arith)

attempt_numbers-append :
    (rows : List AttemptRow) (row : AttemptRow) (id : String)
    → row.attempt_number ≡ next_attempt_number row.work_unit_id rows
    → ((id : String) → Numbered (λ r. r.attempt_number) 1 (keep (of_work_unit id) rows))
    → Numbered (λ r. r.attempt_number) 1 (keep (of_work_unit id) (rows ++ row ∷ []))
unfolding next_attempt_number
attempt_numbers-append rows row id e h =
    rw (keep-append (of_work_unit id) rows (row ∷ [])) (elim (Bool-cases (of_work_unit id row)) [
      | inl here ↦ rw here (
          Numbered-append _ 1 (keep (of_work_unit id) rows) row (h id) (
            rw ((eq_iff row.work_unit_id id).0 here) at e
            ∙ ap suc (
                max_column-Numbered (λ (r : AttemptRow). r.attempt_number)
                  (keep (of_work_unit id) rows) (h id))
            ∙ omega arith))
      | inr out ↦ rw out (rw append-nil (h id))
    ])

pub append_attempt-Inv :
    (db : Db) (row : AttemptRow) → IsNewAttempt row db → Inv db → Inv (append_attempt row db)
unfolding append_attempt
append_attempt-Inv db row n v = record {
  attempt_ids = Distinct-append attempt_key db.execution_attempts row v.attempt_ids fresh;
  assignment_ids = v.assignment_ids;
  linked =
      All-map (λ a. HasAttempt-append db.execution_attempts (row ∷ []) a) db.assignments v.linked;
  attempt_numbers =
      λ id. attempt_numbers-append db.execution_attempts row id n.numbered v.attempt_numbers;
  sequences = v.sequences;
  redacted = v.redacted;
}
  where
    fresh : any (is_attempt row.attempt_id) db.execution_attempts ≡ false
    fresh = unfold refuses_attempt in ground (arith, n.accepted)

found-HasAttempt :
    (rows : List AttemptRow) (a : AssignmentRow) (t : AttemptRow)
    → fetchone (is_attempt a.attempt_id) rows ≡ some t
    → a.work_unit_id ≡ t.work_unit_id
    → HasAttempt rows a
unfolding fetchone
found-HasAttempt [] a t e u = cc
found-HasAttempt (x ∷ rows) a t e u =
    ground (arith, found-HasAttempt rows a t, eq_iff x.work_unit_id a.work_unit_id)

pub append_assignment-Inv :
    (db : Db) (row : AssignmentRow)
    → IsNewAssignment row db
    → Inv db
    → Inv (append_assignment row db)
unfolding append_assignment
append_assignment-Inv db row n v = record {
  attempt_ids = v.attempt_ids;
  assignment_ids = Distinct-append assignment_key db.assignments row v.assignment_ids fresh;
  linked =
      All-append (HasAttempt db.execution_attempts) db.assignments (row ∷ []) v.linked
        (found-HasAttempt db.execution_attempts row n.attempt n.found n.of_attempt, tt);
  attempt_numbers = v.attempt_numbers;
  sequences = v.sequences;
  redacted = v.redacted;
}
  where
    fresh : any (is_assignment row.assignment_id) db.assignments ≡ false
    fresh = unfold refuses_assignment in ground (arith, n.accepted)

pub set_attempt-Inv :
    (db : Db) (p : AttemptRow → Bool) (f : AttemptRow → AttemptRow)
    → ((row : AttemptRow) → SameAttempt row (f row))
    → Inv db
    → Inv (record db { execution_attempts = update_where p f db.execution_attempts })
set_attempt-Inv db p f h v = record {
  attempt_ids =
      Distinct-update_where p f attempt_key db.execution_attempts (λ row. sym (h row).attempt_id)
        v.attempt_ids;
  assignment_ids = v.assignment_ids;
  linked =
      All-map
        (λ a k.
          any-update_where p f (is_attempt_of a) db.execution_attempts
            (λ row. cc ((h row).attempt_id, (h row).work_unit_id))
          ∙ k)
        db.assignments v.linked;
  attempt_numbers = λ id.
      Numbered-update_where p f (of_work_unit id) (λ row. row.attempt_number) 1
        db.execution_attempts (λ row. cc (h row).work_unit_id) (λ row. sym (h row).attempt_number)
        (v.attempt_numbers id);
  sequences = v.sequences;
  redacted = v.redacted;
}

pub set_assignment-Inv :
    (db : Db) (p : AssignmentRow → Bool) (f : AssignmentRow → AssignmentRow)
    → ((row : AssignmentRow) → SameAssignment row (f row))
    → Inv db
    → Inv (record db { assignments = update_where p f db.assignments })
set_assignment-Inv db p f h v = record {
  attempt_ids = v.attempt_ids;
  assignment_ids =
      Distinct-update_where p f assignment_key db.assignments (λ row. sym (h row).assignment_id)
        v.assignment_ids;
  linked =
      All-update_where p f (HasAttempt db.execution_attempts) db.assignments
        (λ a k.
          ap (λ (test : AttemptRow → Bool). any test db.execution_attempts)
            (fun_ext λ t. cc ((h a).attempt_id, (h a).work_unit_id))
          ∙ k)
        v.linked;
  attempt_numbers = v.attempt_numbers;
  sequences = v.sequences;
  redacted = v.redacted;
}
