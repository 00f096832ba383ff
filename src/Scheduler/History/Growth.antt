-- ===== src/Scheduler/History/Growth.antt =====
-- What may become of the rows of a database, and that it composes.
use token_bank.Prelude.{◌≤◌, ◌≡◌, refl, ◌∙◌, List, arith}
use token_bank.Sql.Evolution.{Evolves, Evolves-refl, Evolves-trans}
use token_bank.Db.{Db, AttemptRow, AssignmentRow, ResultRow, QuarantineRow, EventRow}
use token_bank.Scheduler.Effects.{SameAttempt, SameAssignment}

-- An assignment keeps its identity, and its lease version never falls.
pub record Renewed (a b : AssignmentRow) : Type 0 where
  pub same : SameAssignment a b
  pub later : a.lease_version ≤ b.lease_version

pub record Grows (a b : Db) : Type 0 where
  pub attempts : Evolves SameAttempt a.execution_attempts b.execution_attempts
  pub assignments : Evolves Renewed a.assignments b.assignments
  pub results : Evolves {A = ResultRow} ◌≡◌ a.result_envelopes b.result_envelopes
  pub quarantined : Evolves {A = QuarantineRow} ◌≡◌ a.result_quarantine b.result_quarantine
  pub events : Evolves {A = EventRow} ◌≡◌ a.event_outbox b.event_outbox

pub SameAttempt-refl : (a : AttemptRow) → SameAttempt a a
SameAttempt-refl a = ground arith

pub SameAttempt-trans : (a b c : AttemptRow) → SameAttempt a b → SameAttempt b c → SameAttempt a c
SameAttempt-trans a b c h k = ground arith

pub SameAssignment-refl : (a : AssignmentRow) → SameAssignment a a
SameAssignment-refl a = ground arith

pub Renewed-refl : (a : AssignmentRow) → Renewed a a
Renewed-refl a = record { same = SameAssignment-refl a; later = omega arith }

pub Renewed-trans : (a b c : AssignmentRow) → Renewed a b → Renewed b c → Renewed a c
Renewed-trans a b c h k = ground arith

pub Grows-refl : (a : Db) → Grows a a
Grows-refl a = record {
  attempts = Evolves-refl SameAttempt SameAttempt-refl a.execution_attempts;
  assignments = Evolves-refl Renewed Renewed-refl a.assignments;
  results = Evolves-refl ◌≡◌ (λ _. refl) a.result_envelopes;
  quarantined = Evolves-refl ◌≡◌ (λ _. refl) a.result_quarantine;
  events = Evolves-refl ◌≡◌ (λ _. refl) a.event_outbox;
}

pub Grows-trans : (a b c : Db) → Grows a b → Grows b c → Grows a c
Grows-trans a b c h k = record {
  attempts =
      Evolves-trans SameAttempt SameAttempt-trans a.execution_attempts b.execution_attempts
        c.execution_attempts h.attempts k.attempts;
  assignments =
      Evolves-trans Renewed Renewed-trans a.assignments b.assignments c.assignments h.assignments
        k.assignments;
  results =
      Evolves-trans ◌≡◌ (λ _ _ _ p q. p ∙ q) a.result_envelopes b.result_envelopes
        c.result_envelopes h.results k.results;
  quarantined =
      Evolves-trans ◌≡◌ (λ _ _ _ p q. p ∙ q) a.result_quarantine b.result_quarantine
        c.result_quarantine h.quarantined k.quarantined;
  events =
      Evolves-trans ◌≡◌ (λ _ _ _ p q. p ∙ q) a.event_outbox b.event_outbox c.event_outbox h.events
        k.events;
}

-- a change of one table
pub Grows-attempts :
    (a : Db) (rows : List AttemptRow)
    → Evolves {A = AttemptRow} SameAttempt a.execution_attempts rows
    → Grows a (record a { execution_attempts = rows })
Grows-attempts a rows h =
    let g = Grows-refl a in
    record {
      attempts = h;
      assignments = g.assignments;
      results = g.results;
      quarantined = g.quarantined;
      events = g.events;
    }

pub Grows-assignments :
    (a : Db) (rows : List AssignmentRow)
    → Evolves {A = AssignmentRow} Renewed a.assignments rows
    → Grows a (record a { assignments = rows })
Grows-assignments a rows h =
    let g = Grows-refl a in
    record {
      attempts = g.attempts;
      assignments = h;
      results = g.results;
      quarantined = g.quarantined;
      events = g.events;
    }

pub Grows-results :
    (a : Db) (rows : List ResultRow)
    → Evolves {A = ResultRow} ◌≡◌ a.result_envelopes rows
    → Grows a (record a { result_envelopes = rows })
Grows-results a rows h =
    let g = Grows-refl a in
    record {
      attempts = g.attempts;
      assignments = g.assignments;
      results = h;
      quarantined = g.quarantined;
      events = g.events;
    }

pub Grows-quarantined :
    (a : Db) (rows : List QuarantineRow)
    → Evolves {A = QuarantineRow} ◌≡◌ a.result_quarantine rows
    → Grows a (record a { result_quarantine = rows })
Grows-quarantined a rows h =
    let g = Grows-refl a in
    record {
      attempts = g.attempts;
      assignments = g.assignments;
      results = g.results;
      quarantined = h;
      events = g.events;
    }

pub Grows-events :
    (a : Db) (rows : List EventRow)
    → Evolves {A = EventRow} ◌≡◌ a.event_outbox rows
    → Grows a (record a { event_outbox = rows })
Grows-events a rows h =
    let g = Grows-refl a in
    record {
      attempts = g.attempts;
      assignments = g.assignments;
      results = g.results;
      quarantined = g.quarantined;
      events = h;
    }
