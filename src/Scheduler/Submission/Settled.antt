-- ===== src/Scheduler/Submission/Settled.antt =====
-- What a submission that returns has written, for a late result and for any other.
use mathlib.Core.Path.{subst}
use mathlib.Core.Option.{some-injective}
use token_bank.Prelude.{ℕ, String, ◌≡◌, sym, ap, ◌∙◌, Bool, true, false, Option, some}
use token_bank.Result.{Result, ok}
use token_bank.Exec.{Exec, pure, ◌>>=◌}
use token_bank.Json.{Json}
use token_bank.World.{World}
use token_bank.Sql.{fetchone}
use token_bank.Db.{
  Db, AttemptRow, AttemptStatus, AssignmentRow, AssignmentStatus, ResultStatus, WorkUnitStatus,
}
use token_bank.Session.{Session}
use token_bank.Session.Moves.{Moves-pure}
use token_bank.Session.Runs.{transaction-ok, bind-ok}
use token_bank.Outbox.{enqueue_event}
use token_bank.Outbox.Frames.{OnlyEvents, OnlyEvents-preorder, same-OnlyEvents}
use token_bank.Scheduler.Tables.{
  is_attempt, is_assignment, append_result, append_quarantine, insert_result,
}
use token_bank.Scheduler.Results.{
  StoredResult, ResultEnvelope, PreparedResult, newer_attempt_exists, late_status, result_row,
  settle_result, quarantine_late_result, complete_result, result_event, result_write,
  prepare_result, submit_result,
}
use token_bank.Scheduler.Atomicity.{prepare_result-IsReadOnly}
use token_bank.Scheduler.Submission.{IsPrepared, own_status, prepare_result-ok}
use token_bank.Scheduler.Submission.Outcome.{
  closed, unit_set, quarantine_entry, insert_result-ok, quarantine_late_result-ok,
  complete_result-ok, events_after, announced,
}

-- the assignment and its attempt quarantined, with an entry: no Work Unit is written
abbrev pub set_aside : AssignmentRow → StoredResult → String → String → Db → Db
set_aside a r hex later db =
    append_quarantine (quarantine_entry a r hex later)
      (closed a AssignmentStatus.quarantined AttemptStatus.quarantined later db)

-- the assignment, its attempt and its Work Unit are done
abbrev pub accepted : AssignmentRow → String → String → Db → Db
accepted a now later db =
    unit_set a.work_unit_id WorkUnitStatus.succeeded later
      (closed a AssignmentStatus.completed AttemptStatus.succeeded now db)

abbrev pub settled : World → Bool → AssignmentRow → StoredResult → String → ℕ → Db → Db
settled w true a r now n db = set_aside a r (w.uuid_hex (ℕ.suc n)) (w.clock_text n) db
settled w false a r now n db = accepted a now (w.clock_text n) db

module _ (w : World) (a : AssignmentRow) (r : StoredResult) (now : String) where
  settle_result-ok :
      (late : Bool) (s : Session) (x : String)
      → (settle_result w late a r now s).0 ≡ ok x
      → OnlyEvents (settled w late a r now s.reads s.db) (settle_result w late a r now s).1.db
  unfolding settle_result
  settle_result-ok true s x e =
      events_after (quarantine_late_result w a r) (λ _. pure "result.quarantined")
        (settled w true a r now s.reads s.db) s x e
        (λ u returned.
          same-OnlyEvents (settled w true a r now s.reads s.db)
            (quarantine_late_result w a r s).1.db (quarantine_late_result-ok w a r s u returned))
        (λ _. Moves-pure OnlyEvents-preorder "result.quarantined")
  settle_result-ok false s x e =
      events_after (complete_result w a now) (λ _. pure "result.submitted")
        (settled w false a r now s.reads s.db) s x e
        (λ u returned. complete_result-ok w a now s u returned)
        (λ _. Moves-pure OnlyEvents-preorder "result.submitted")

  returns_stored :
      (type : String) (s : Session) (x : StoredResult)
      → ((enqueue_event w (result_event type a r) >>= λ _. pure r) s).0 ≡ ok x
      → x ≡ r
  unfolding pure
  returns_stored type s x e =
      let (id, sent, onward) =
        bind-ok (enqueue_event w (result_event type a r)) (λ _. pure r) s x e in
      cc

  -- what follows the insert of the result
  abbrev settle_and_announce : Bool → Exec Session StoredResult
  settle_and_announce late = settle_result w late a r now >>= λ type.
      enqueue_event w (result_event type a r) >>= λ _. pure r

  settle_and_announce-ok :
      (late : Bool) (s : Session) (x : StoredResult)
      → (settle_and_announce late s).0 ≡ ok x
      → OnlyEvents (settled w late a r now s.reads s.db) (settle_and_announce late s).1.db × (x ≡ r)
  settle_and_announce-ok late s x e =
      let (type, done, onward) =
        bind-ok (settle_result w late a r now)
          (λ type. enqueue_event w (result_event type a r) >>= λ _. pure r) s x e in
      (
        events_after (settle_result w late a r now)
            (λ type. enqueue_event w (result_event type a r) >>= λ _. pure r)
            (settled w late a r now s.reads s.db) s x e (settle_result-ok late s)
            (λ type. announced w (result_event type a r) r),
        returns_stored type (settle_result w late a r now s).1 x (rw (← onward) e),
      )

  result_write-ok :
      (late : Bool) (base : Db) (s : Session) (x : StoredResult)
      → s.db ≡ base
      → (result_write w late a r now s).0 ≡ ok x
      → OnlyEvents
          (settled w late a r now s.reads (append_result (result_row a r now) base))
          (result_write w late a r now s).1.db
        × (x ≡ r)
  unfolding result_write
  result_write-ok late base s x same e =
      let (returned, state) = transaction-ok _ s x e in
      let (u, inserted, onward) =
        bind-ok (insert_result (result_row a r now)) (λ _. settle_and_announce late) s x returned in
      let at = insert_result-ok (result_row a r now) s u inserted in
      rw (← same, state, onward, at)
        (settle_and_announce-ok late (record s { db = append_result (result_row a r now) s.db }) x
          (rw (← at, ← onward) returned))

module _ (w : World) (id worker_id : String) (token hash : Option String) (output : Json)
    (envelope : Option ResultEnvelope) (s : Session) (r : StoredResult)
    (e : (submit_result w id worker_id token hash output envelope s).0 ≡ ok r) where
  -- the database after the submission
  abbrev after : Db
  after = (submit_result w id worker_id token hash output envelope s).1.db

  submit_result-ok :
      (p : PreparedResult) × (n : ℕ) × IsPrepared w s id worker_id token hash envelope p
      × (r ≡ p.stored)
      × OnlyEvents
          (settled w p.late p.assignment p.stored p.now n
            (append_result (result_row p.assignment p.stored p.now) s.db))
          after
  unfolding submit_result
  submit_result-ok =
      let (p, prepared, onward) =
        bind-ok (prepare_result w id worker_id token hash output envelope)
          (λ p. result_write w p.late p.assignment p.stored p.now) s r e in
      let t = (prepare_result w id worker_id token hash output envelope s).1 in
      let (written, same) =
        result_write-ok w p.assignment p.stored p.now p.late s.db t r
          ((prepare_result-IsReadOnly w id worker_id token hash output envelope).at s)
          (rw (← onward) e) in
      (
        p,
        t.reads,
        prepare_result-ok w id worker_id token hash output envelope s p prepared,
        same,
        subst
            (λ (x : Result StoredResult × Session).
              OnlyEvents
                (settled w p.late p.assignment p.stored p.now t.reads
                  (append_result (result_row p.assignment p.stored p.now) s.db))
                x.1.db)
            (sym onward) written,
      )

  module _ (a : AssignmentRow) (t : AttemptRow)
      (found : fetchone (is_assignment id) s.db.assignments ≡ some a)
      (attempted : fetchone (is_attempt a.attempt_id) s.db.execution_attempts ≡ some t) where
    is_settled :
        (late : Bool)
        → newer_attempt_exists t.work_unit_id t.attempt_number s.db.execution_attempts ≡ late
        → (p : PreparedResult) (n : ℕ) → IsPrepared w s id worker_id token hash envelope p
        → r ≡ p.stored
        → OnlyEvents
            (settled w p.late p.assignment p.stored p.now n
              (append_result (result_row p.assignment p.stored p.now) s.db))
            after
        → (r.status ≡ late_status late (own_status envelope))
          × OnlyEvents
              (settled w late a r p.now n (append_result (result_row a r p.now) s.db))
              after
    is_settled late newer p n x same written =
        let here : p.assignment ≡ a = some-injective p.assignment a (sym x.found ∙ found) in
        let tried : x.attempt ≡ t = some-injective x.attempt t (
          sym x.of_attempt
          ∙ ap (λ (b : AssignmentRow). fetchone (is_attempt b.attempt_id) s.db.execution_attempts)
              here
          ∙ attempted) in
        let known : p.late ≡ late =
          x.late
          ∙ ap
              (λ (b : AttemptRow).
                newer_attempt_exists b.work_unit_id b.attempt_number s.db.execution_attempts)
              tried
          ∙ newer in
        (
          ap (λ (b : StoredResult). b.status) same
              ∙ x.status
              ∙ ap (λ b. late_status b (own_status envelope)) known,
          rw (← known, ← here, same) written,
        )

    -- A result for an attempt that a newer attempt of its Work Unit has replaced, when it is stored, is
    -- stored as quarantined, with an entry in the quarantine table; its assignment and its attempt are
    -- closed as quarantined, the Work Unit is left as it was, and nothing else changes but the outbox.
    pub late_result_set_aside :
        newer_attempt_exists t.work_unit_id t.attempt_number s.db.execution_attempts ≡ true
        → (r.status ≡ ResultStatus.quarantined)
          × (now : String) × (hex : String) × (later : String) × OnlyEvents
              (set_aside a r hex later (append_result (result_row a r now) s.db))
              after
    unfolding late_status
    late_result_set_aside newer =
        let (p, n, x, same, written) = submit_result-ok in
        let (status, done) = is_settled true newer p n x same written in
        (status, p.now, w.uuid_hex (ℕ.suc n), w.clock_text n, done)

    -- A result for the newest attempt of its Work Unit, when it is stored, is stored with its own status,
    -- and its assignment is completed, its attempt and its Work Unit succeeded, whatever that status is;
    -- nothing is quarantined and nothing else changes but the outbox.
    pub timely_result_accepted :
        newer_attempt_exists t.work_unit_id t.attempt_number s.db.execution_attempts ≡ false
        → (r.status ≡ own_status envelope)
          × (now : String) × (later : String) × OnlyEvents
              (accepted a now later (append_result (result_row a r now) s.db))
              after
    unfolding late_status
    timely_result_accepted newest =
        let (p, n, x, same, written) = submit_result-ok in
        let (status, done) = is_settled false newest p n x same written in
        (status, p.now, w.clock_text n, done)
