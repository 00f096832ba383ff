-- ===== src/Scheduler/History.antt =====
-- What the calls of the scheduler never take back.
pub mod Growth
use token_bank.Prelude.{
  ℕ, ◌+◌, ◌≤◌, String, ◌≡◌, refl, ap, ◌∙◌, true, some, List, [], ◌∷◌, All-of, All-map, arith,
}
use token_bank.Exec.Keeps.{IsPreorder}
use token_bank.World.{World}
use token_bank.Sql.{fetchone, update_where}
use token_bank.Sql.Rows.{fetchone_unique}
use token_bank.Sql.Evolution.{Evolves, Evolves-append, Evolves-update_where}
use token_bank.Db.{Db, WorkUnitRow, HealthRow, AssignmentRow, ResultRow, QuarantineRow}
use token_bank.Outbox.{append_event}
use token_bank.Session.{Session}
use token_bank.Scheduler.Tables.{
  is_attempt, is_assignment, append_attempt, append_assignment, append_result, append_quarantine,
  append_health,
}
use token_bank.Scheduler.Lease.{LeaseUpdate, holds_version, set_lease}
use token_bank.Scheduler.Calls.{Call, serve}
use token_bank.Scheduler.Effects.{SameAttempt, SameAssignment, SameLease, Allows}
use token_bank.Scheduler.Effects.Serving.{serve-moves}
use token_bank.Scheduler.Invariant.{assignment_key, Inv}
use token_bank.Scheduler.Invariant.Kept.{
  append_event-Inv, append_attempt-Inv, append_assignment-Inv, set_attempt-Inv, set_assignment-Inv,
}
pub use Growth.*

-- the relation that every call keeps
abbrev pub Kept : Db → Db → Type 0
Kept a b = Inv a → Inv b × Grows a b

Kept-preorder : IsPreorder Kept
Kept-preorder = record {
  same = λ a v. (v, Grows-refl a);
  chain = λ a b c h k v. let (v', g) = h v in let (v'', g') = k v' in (v'', Grows-trans a b c g g');
}

set_lease_same :
    (u : LeaseUpdate) (n : ℕ) (now : String) (a : AssignmentRow)
    → SameAssignment a (set_lease u n now a)
unfolding set_lease
set_lease_same u n now a = ground arith

Renewed-row :
    (id : String) (version : ℕ) (u : LeaseUpdate) (now : String) (current a : AssignmentRow)
    → (is_assignment id a ≡ true → a ≡ current)
    → holds_version id version a ≡ true
    → Renewed a (set_lease u (current.lease_version + 1) now a)
unfolding holds_version
Renewed-row id version u now current a only hit = record {
  same = set_lease_same u (current.lease_version + 1) now a;
  later =
      unfold set_lease in
      omega (arith, ap (λ (r : AssignmentRow). r.lease_version) (only (ground arith)));
}

renew-Kept :
    (db : Db) (id : String) (version : ℕ) (u : LeaseUpdate) (now : String) (current : AssignmentRow)
    → fetchone (is_assignment id) db.assignments ≡ some current
    → Kept db (record db {
      assignments =
          update_where
            (holds_version id version)
            (set_lease u (current.lease_version + 1) now)
            db.assignments;
    })
renew-Kept db id version u now current found v = (
  set_assignment-Inv db (holds_version id version) (set_lease u (current.lease_version + 1) now)
      (set_lease_same u (current.lease_version + 1) now) v,
  Grows-assignments db _ (
      Evolves-update_where Renewed Renewed-refl (holds_version id version)
        (set_lease u (current.lease_version + 1) now) db.assignments
        (All-map (λ a. Renewed-row id version u now current a) db.assignments
          (fetchone_unique assignment_key id db.assignments current v.assignment_ids found))),
)

SameLease-Renewed : (a b : AssignmentRow) → SameLease a b → Renewed a b
SameLease-Renewed a b h = record { same = h.same; later = omega (arith, h.lease_version) }

-- The invariant says nothing of the other tables.
same_tables-Inv :
    (db : Db) (units : List WorkUnitRow) (results : List ResultRow)
    (quarantined : List QuarantineRow) (health : List HealthRow)
    → Inv db
    → Inv (record db {
      work_units = units;
      result_envelopes = results;
      result_quarantine = quarantined;
      worker_health_snapshots = health;
    })
same_tables-Inv db units results quarantined health v = record {
  attempt_ids = v.attempt_ids;
  assignment_ids = v.assignment_ids;
  linked = v.linked;
  attempt_numbers = v.attempt_numbers;
  sequences = v.sequences;
  redacted = v.redacted;
}

pub Kept-Allows : Allows Kept
unfolding append_event append_attempt append_assignment append_result append_quarantine
    append_health
Kept-Allows = record {
  preorder = Kept-preorder;
  new_event = λ db row n v. (
    append_event-Inv db row n v,
    Grows-events db _ (Evolves-append ◌≡◌ (λ _. refl) db.event_outbox (row ∷ [])),
  );
  new_attempt = λ db row n v. (
    append_attempt-Inv db row n v,
    Grows-attempts db _
        (Evolves-append SameAttempt SameAttempt-refl db.execution_attempts (row ∷ [])),
  );
  new_assignment = λ db row n v. (
    append_assignment-Inv db row n v,
    Grows-assignments db _ (Evolves-append Renewed Renewed-refl db.assignments (row ∷ [])),
  );
  new_result = λ db row n v. (
    same_tables-Inv db _ _ _ _ v,
    Grows-results db _ (Evolves-append ◌≡◌ (λ _. refl) db.result_envelopes (row ∷ [])),
  );
  new_quarantine = λ db row n v. (
    same_tables-Inv db _ _ _ _ v,
    Grows-quarantined db _ (Evolves-append ◌≡◌ (λ _. refl) db.result_quarantine (row ∷ [])),
  );
  new_health = λ db row n v. (
    same_tables-Inv db _ _ _ _ v,
    (let g = Grows-refl db in
        record {
          attempts = g.attempts;
          assignments = g.assignments;
          results = g.results;
          quarantined = g.quarantined;
          events = g.events;
        }),
  );
  set_work_unit = λ db id f h v. (
    same_tables-Inv db _ _ _ _ v,
    (let g = Grows-refl db in
        record {
          attempts = g.attempts;
          assignments = g.assignments;
          results = g.results;
          quarantined = g.quarantined;
          events = g.events;
        }),
  );
  set_attempt = λ db id f h v. (
    set_attempt-Inv db (is_attempt id) f h v,
    Grows-attempts db _ (
        Evolves-update_where SameAttempt SameAttempt-refl (is_attempt id) f db.execution_attempts
          (All-of (λ row _. h row) db.execution_attempts)),
  );
  set_assignment = λ db id f h v. (
    set_assignment-Inv db (is_assignment id) f (λ row. (h row).same) v,
    Grows-assignments db _ (
        Evolves-update_where Renewed Renewed-refl (is_assignment id) f db.assignments
          (All-of (λ row _. SameLease-Renewed row (f row) (h row)) db.assignments)),
  );
  renew = renew-Kept;
}

module _ (w : World) (s : Session) (cs : List Call) (v : Inv s.db) where
  -- Whatever calls the scheduler serves from a database that meets the invariant, raising or not,
  -- the database meets it again: keys are distinct, every assignment has its attempt in its own
  -- Work Unit, the attempts of each Work Unit are numbered 1, 2, 3, ... in the order of creation,
  -- the outbox is numbered 1, 2, 3, ... without a gap, and every event body was redacted.
  pub serve-Inv : Inv (serve w s cs).db
  serve-Inv = (serve-moves Kept-Allows w s cs v).0

  -- Whatever calls the scheduler serves from a database that meets the invariant, raising or not,
  -- no row of an attempt, an assignment, a result, a quarantine entry or an event is lost or moved;
  -- results, quarantine entries and events are never changed, attempts and assignments keep their
  -- identity, and no lease version falls.
  pub serve-Grows : Grows s.db (serve w s cs).db
  serve-Grows = (serve-moves Kept-Allows w s cs v).1
