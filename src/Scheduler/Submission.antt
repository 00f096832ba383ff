-- ===== src/Scheduler/Submission.antt =====
-- What `submit_result` has checked when its transaction begins.
pub mod Outcome
pub mod Settled
pub mod Checked
use token_bank.Prelude.{
  String, ◌≡◌, ap, ◌∙◌, Bool, true, false, ◌&&◌, ◌||◌, Option, some, none, arith, str_eq,
}
use token_bank.Result.{ok}
use token_bank.Exec.{gets, ◌>>=◌}
use token_bank.Json.{Json}
use token_bank.World.{World}
use token_bank.Sql.{fetchone}
use token_bank.Db.{Db, AttemptRow, AssignmentRow, ResultStatus}
use token_bank.Session.{Session, read}
use token_bank.Session.Runs.{read_step, gets-ok, read-pure-ok}
use token_bank.Session.Atomic.{IsReadOnly-gets}
use token_bank.Scheduler.Atomicity.{
  assignment_for_worker-IsReadOnly, find_attempt-IsReadOnly, verify_lease-IsReadOnly,
  validate_envelope-IsReadOnly, stored_result-IsReadOnly,
}
use token_bank.Scheduler.Tables.{is_attempt, is_assignment, find_attempt, assignment_for_worker}
use token_bank.Scheduler.Lease.{
  token_differs, hash_differs, verify_lease_token, verify_lease_token_hash,
}
use token_bank.Scheduler.Results.{
  ResultEnvelope, StoredResult, PreparedResult, newer_attempt_exists, envelope_mismatch,
  validate_envelope, late_status, stored_result, verify_lease, prepare_result,
}

-- the status that the result has of itself
abbrev pub own_status : Option ResultEnvelope → ResultStatus
own_status none = ResultStatus.succeeded
own_status (some e) = e.status

abbrev pub credential_differs : World → AssignmentRow → Option String → Option String → Bool
credential_differs w a token none = token_differs w a.lease_token_hash token
credential_differs w a token (some hash) = hash_differs a.lease_token_hash (some hash)

-- the envelope, if there is one, names this assignment
abbrev pub EnvelopeFits : Option ResultEnvelope → AssignmentRow → Type 0
EnvelopeFits none a = Unit
EnvelopeFits (some e) a = envelope_mismatch e a ≡ false

pub record IsPrepared (w : World) (s : Session) (id worker_id : String) (token hash : Option String)
    (envelope : Option ResultEnvelope) (p : PreparedResult) : Type 0 where
  pub found : fetchone (is_assignment id) s.db.assignments ≡ some p.assignment
  pub own : str_eq p.assignment.worker_id worker_id ≡ true
  pub authorised : credential_differs w p.assignment token hash ≡ false
  pub attempt : AttemptRow
  pub of_attempt :
      fetchone (is_attempt p.assignment.attempt_id) s.db.execution_attempts ≡ some attempt
  pub late :
      p.late
      ≡ newer_attempt_exists attempt.work_unit_id attempt.attempt_number s.db.execution_attempts
  pub fits : EnvelopeFits envelope p.assignment
  pub status : p.stored.status ≡ late_status p.late (own_status envelope)

assignment_for_worker-ok :
    (id worker_id : String) (s : Session) (a : AssignmentRow)
    → (assignment_for_worker id worker_id s).0 ≡ ok a
    → (fetchone (is_assignment id) s.db.assignments ≡ some a)
      × (str_eq a.worker_id worker_id ≡ true)
unfolding assignment_for_worker ◌>>=◌
assignment_for_worker-ok id worker_id s a e = ground arith

find_attempt-ok :
    (id : String) (s : Session) (t : AttemptRow)
    → (find_attempt id s).0 ≡ ok t
    → fetchone (is_attempt id) s.db.execution_attempts ≡ some t
unfolding find_attempt ◌>>=◌
find_attempt-ok id s t e = ground arith

verify_lease-ok :
    (w : World) (a : AssignmentRow) (token hash : Option String) (s : Session) (u : Unit {0})
    → (verify_lease w a token hash s).0 ≡ ok u
    → credential_differs w a token hash ≡ false
unfolding verify_lease verify_lease_token verify_lease_token_hash ◌>>=◌
verify_lease-ok w a token none s u e = ground arith
verify_lease-ok w a token (some hash) s u e = ground arith

validate_envelope-ok :
    (envelope : Option ResultEnvelope) (a : AssignmentRow) (s : Session) (u : Unit {0})
    → (validate_envelope envelope a s).0 ≡ ok u
    → EnvelopeFits envelope a
unfolding validate_envelope ◌>>=◌
validate_envelope-ok none a s u e = tt
validate_envelope-ok (some x) a s u e = ground arith

stored_result-ok :
    (w : World) (late : Bool) (a : AssignmentRow) (output : Json) (envelope : Option ResultEnvelope)
    (s : Session) (r : StoredResult)
    → (stored_result w late a output envelope s).0 ≡ ok r
    → r.status ≡ late_status late (own_status envelope)
unfolding stored_result ◌>>=◌ read
stored_result-ok w late a output none s r e = ground arith
stored_result-ok w late a output (some x) s r e = ground arith

abbrev prepared : Bool → AssignmentRow → StoredResult → String → PreparedResult
prepared late a r now = record { late = late; assignment = a; stored = r; now = now }

module _ (w : World) (id worker_id : String) (token hash : Option String) (output : Json)
    (envelope : Option ResultEnvelope) where
  pub prepare_result-ok :
      (s : Session) (p : PreparedResult)
      → (prepare_result w id worker_id token hash output envelope s).0 ≡ ok p
      → IsPrepared w s id worker_id token hash envelope p
  unfolding prepare_result
  prepare_result-ok s p e =
      read_step (assignment_for_worker id worker_id) _ s p
        (assignment_for_worker-IsReadOnly id worker_id) e
        λ a s₁ ea d₁ e₁.
          read_step (verify_lease w a token hash) _ s₁ p (verify_lease-IsReadOnly w a token hash) e₁
            λ u s₂ eu d₂ e₂.
              read_step (find_attempt a.attempt_id) _ s₂ p (find_attempt-IsReadOnly a.attempt_id) e₂
                λ t s₃ et d₃ e₃.
                  read_step
                    (gets (λ (x : Session).
                      newer_attempt_exists t.work_unit_id t.attempt_number x.db.execution_attempts))
                    _ s₃ p (IsReadOnly-gets _) e₃
                    λ late s₄ el d₄ e₄.
                      read_step (validate_envelope envelope a) _ s₄ p
                        (validate_envelope-IsReadOnly envelope a) e₄
                        λ x s₅ ex d₅ e₅.
                          read_step (stored_result w late a output envelope) _ s₅ p
                            (stored_result-IsReadOnly w late a output envelope) e₅
                            λ r s₆ er d₆ e₆.
                              let same =
                                read-pure-ok w.clock_text (λ (now : String). prepared late a r now)
                                  s₆ p e₆ in
                              rw same (record {
                                found = (assignment_for_worker-ok id worker_id s a ea).0;
                                own = (assignment_for_worker-ok id worker_id s a ea).1;
                                authorised = verify_lease-ok w a token hash s₁ u eu;
                                attempt = t;
                                of_attempt =
                                    rw (← (d₂ ∙ d₁)) (find_attempt-ok a.attempt_id s₂ t et);
                                late =
                                    gets-ok _ s₃ late el
                                    ∙ ap
                                        (λ (db : Db).
                                          newer_attempt_exists t.work_unit_id t.attempt_number
                                            db.execution_attempts)
                                        (d₃ ∙ d₂ ∙ d₁);
                                fits = validate_envelope-ok envelope a s₄ x ex;
                                status = stored_result-ok w late a output envelope s₅ r er;
                              })
