-- ===== src/Scheduler/Submission/Checked.antt =====
-- What `submit_result` of scheduler/scheduler.py has made sure of when its transaction begins: the
-- worker, the credential, the envelope and whether the result is late, each said of the stored rows.
use mathlib.Core.Path.{subst}
use token_bank.Prelude.{
  ap, ℕ, ◌<◌, String, ◌≡◌, ◌≢◌, ◌↔◌, ◌∙◌, refl, sym, Bool, true, false, not, ◌&&◌, ◌||◌, Option,
  some, none, List, [], ◌∷◌, any, ltb, str_eq, eq_iff, inl, inr, arith, Bool-cases, ◌⊎◌,
}
use token_bank.Result.{ok}
use token_bank.Json.{Json}
use token_bank.World.{World}
use token_bank.Sql.{fetchone}
use token_bank.Sql.Lookup.{fetchone-key}
use token_bank.Sql.Ordered.{Has}
use token_bank.Db.{AttemptRow, AssignmentRow, ResultStatus}
use token_bank.Session.{Session}
use token_bank.Scheduler.Tables.{is_attempt, is_assignment}
use token_bank.Scheduler.Lease.{token_differs, hash_differs}
use token_bank.Scheduler.Results.{
  ResultEnvelope, PreparedResult, newer_attempt_exists, envelope_mismatch, late_status,
  prepare_result,
}
use token_bank.Scheduler.Submission.{
  own_status, credential_differs, EnvelopeFits, prepare_result-ok,
}

-- The hash of the lease's token is given, or, where no hash is given, a token with this digest.
pub data Shows (w : World) (a : AssignmentRow) : Option String → Option String → Type 0 where
  by_hash :
      {token : Option String} {stored : String}
      → a.lease_token_hash ≡ some stored
      → stored ≢ ""
      → Shows w a token (some stored)
  by_token :
      {token : String}
      → token ≢ ""
      → a.lease_token_hash ≡ some (w.lease_digest token)
      → Shows w a (some token) none

-- another attempt of the Work Unit, with a greater number
abbrev pub IsReplaced : AttemptRow → List AttemptRow → Type 0
IsReplaced attempt rows =
    (row : AttemptRow) × Has row rows
    × (row.work_unit_id ≡ attempt.work_unit_id)
    × (attempt.attempt_number < row.attempt_number)

-- the envelope, if there is one, names the assignment, its attempt, its Work Unit and, if it names a
-- worker, its worker
abbrev pub Names : Option ResultEnvelope → AssignmentRow → Type 0
Names none a = Unit
Names (some e) a =
    (e.assignment_id ≡ a.assignment_id)
    × (e.attempt_id ≡ a.attempt_id)
    × (e.work_unit_id ≡ a.work_unit_id)
    × (e.worker_id ≡ none ⊎ e.worker_id ≡ some a.worker_id)

pub record MayStore (w : World) (s : Session) (id worker_id : String) (token hash : Option String)
    (envelope : Option ResultEnvelope) (p : PreparedResult) : Type 0 where
  pub found : fetchone (is_assignment id) s.db.assignments ≡ some p.assignment
  pub named : p.assignment.assignment_id ≡ id
  pub own : p.assignment.worker_id ≡ worker_id
  pub authorised : Shows w p.assignment token hash
  pub attempt : AttemptRow
  pub of_attempt :
      fetchone (is_attempt p.assignment.attempt_id) s.db.execution_attempts ≡ some attempt
  pub late : p.late ≡ true ↔ IsReplaced attempt s.db.execution_attempts
  pub fits : Names envelope p.assignment
  pub set_aside : p.late ≡ true → p.stored.status ≡ ResultStatus.quarantined
  pub own_result : p.late ≡ false → p.stored.status ≡ own_status envelope

all_three : (a b c : Bool) → (a || b || not c) ≡ false → (a ≡ false) × (b ≡ false) × (c ≡ true)
all_three a b c h = ground arith

differs : (s t : String) → str_eq s t ≡ false → s ≢ t
differs s t h e = ground (arith, eq_iff s t)

hash-Shows :
    (w : World) (a : AssignmentRow) (token stored : Option String) (given : String)
    → a.lease_token_hash ≡ stored
    → hash_differs stored (some given) ≡ false
    → Shows w a token (some given)
unfolding hash_differs
hash-Shows w a token none given at h = cc
hash-Shows w a token (some stored) given at h =
    let (stored_full, given_full, same) = all_three _ _ _ h in
    let equal = (eq_iff given stored).0 same in
    subst (λ (x : String). Shows w a token (some x)) (sym equal)
      (by_hash at (differs stored "" stored_full))

token-Shows :
    (w : World) (a : AssignmentRow) (token stored : Option String)
    → a.lease_token_hash ≡ stored
    → token_differs w stored token ≡ false
    → Shows w a token none
unfolding token_differs
token-Shows w a token none at h = cc
token-Shows w a none (some stored) at h = cc
token-Shows w a (some token) (some stored) at h =
    let (stored_full, token_full, same) = all_three _ _ _ h in
    let equal = (eq_iff (w.lease_digest token) stored).0 same in
    by_token (differs token "" token_full) (rw equal at)

credential-Shows :
    (w : World) (a : AssignmentRow) (token hash : Option String)
    → credential_differs w a token hash ≡ false
    → Shows w a token hash
credential-Shows w a token none h = token-Shows w a token a.lease_token_hash refl h
credential-Shows w a token (some hash) h = hash-Shows w a token a.lease_token_hash hash refl h

newer :
    (id : String) (n : ℕ) (row : AttemptRow)
    → (str_eq row.work_unit_id id && ltb n row.attempt_number) ≡ true
      ↔ (row.work_unit_id ≡ id) × (n < row.attempt_number)
newer id n row = (
  λ h. ground (arith, eq_iff row.work_unit_id id),
  λ h. ground (arith, eq_iff row.work_unit_id id),
)

any-Has :
    {A : Type 0} (p : A → Bool) (xs : List A) → any p xs ≡ true → (x : A) × Has x xs × (p x ≡ true)
any-Has p [] h = cc
any-Has p (x ∷ xs) h = elim (Bool-cases (p x)) [
  | inl hit ↦ (x, inl refl, hit)
  | inr miss ↦ let (y, m, hit) = any-Has p xs (ground arith) in (y, inr m, hit)
]

Has-any :
    {A : Type 0} (p : A → Bool) (x : A) (xs : List A) → Has x xs → p x ≡ true → any p xs ≡ true
Has-any p x [] m hit = elim m [ ]
Has-any {A = A} p x (y ∷ xs) (inl e) hit =
    let own : p y ≡ true = subst (λ (z : A). p z ≡ true) e hit in ground arith
Has-any p x (y ∷ xs) (inr m) hit = ground (arith, Has-any p x xs m hit)

newer_attempt_exists-IsReplaced :
    (t : AttemptRow) (rows : List AttemptRow)
    → newer_attempt_exists t.work_unit_id t.attempt_number rows ≡ true ↔ IsReplaced t rows
unfolding newer_attempt_exists
newer_attempt_exists-IsReplaced t rows = (
  λ h.
      let (row, m, hit) = any-Has _ rows h in
      let (of_unit, greater) = (newer t.work_unit_id t.attempt_number row).0 hit in
      (row, m, of_unit, greater),
  λ r.
      let (row, m, of_unit, greater) = r in
      Has-any _ row rows m ((newer t.work_unit_id t.attempt_number row).1 (of_unit, greater)),
)

matches :
    (a b c d : Bool)
    → (not (a && b && c) || d) ≡ false
    → (a ≡ true) × (b ≡ true) × (c ≡ true) × (d ≡ false)
matches a b c d h = ground arith

worker_fits :
    (given : Option String) (worker : String)
    → elim given [ none ↦ false | some id ↦ not (str_eq id worker) ] ≡ false
    → (given ≡ none) ⊎ (given ≡ some worker)
worker_fits none worker h = inl refl
worker_fits (some id) worker h =
    let same : str_eq id worker ≡ true = ground arith in inr (ap some ((eq_iff id worker).0 same))

EnvelopeFits-Names :
    (envelope : Option ResultEnvelope) (a : AssignmentRow)
    → EnvelopeFits envelope a
    → Names envelope a
unfolding envelope_mismatch
EnvelopeFits-Names none a h = tt
EnvelopeFits-Names (some e) a h =
    let (unit, attempt, assignment, worker) = matches _ _ _ _ h in
    (
      (eq_iff e.assignment_id a.assignment_id).0 assignment,
      (eq_iff e.attempt_id a.attempt_id).0 attempt,
      (eq_iff e.work_unit_id a.work_unit_id).0 unit,
      worker_fits e.worker_id a.worker_id worker,
    )

late_status-true :
    (late : Bool) (own status : ResultStatus)
    → status ≡ late_status late own
    → late ≡ true
    → status ≡ ResultStatus.quarantined
unfolding late_status
late_status-true true own status e h = e
late_status-true false own status e h = cc

late_status-false :
    (late : Bool) (own status : ResultStatus)
    → status ≡ late_status late own
    → late ≡ false
    → status ≡ own
unfolding late_status
late_status-false true own status e h = cc
late_status-false false own status e h = e

module _ (w : World) (id worker_id : String) (token hash : Option String) (output : Json)
    (envelope : Option ResultEnvelope) where
  -- If what `submit_result` does before its transaction returns, then: the assignment is stored and is
  -- the worker's own; the given hash is the stored hash of its lease, or, where no hash is given, it is
  -- the digest of the given token; its attempt is stored; the result is late exactly if a stored
  -- attempt of the same Work Unit has a greater number; the envelope, if there is one, names the
  -- assignment, its attempt, its Work Unit and no other worker; and the status to store is quarantined
  -- for a late result, and otherwise the envelope's, or succeeded without an envelope.
  pub prepare_result-MayStore :
      (s : Session) (p : PreparedResult)
      → (prepare_result w id worker_id token hash output envelope s).0 ≡ ok p
      → MayStore w s id worker_id token hash envelope p
  prepare_result-MayStore s p e =
      let ready = prepare_result-ok w id worker_id token hash output envelope s p e in
      let replaced = newer_attempt_exists-IsReplaced ready.attempt s.db.execution_attempts in
      record {
        found = ready.found;
        named =
            fetchone-key (λ (x : AssignmentRow). x.assignment_id) id s.db.assignments p.assignment
              ready.found;
        own = (eq_iff p.assignment.worker_id worker_id).0 ready.own;
        authorised = credential-Shows w p.assignment token hash ready.authorised;
        attempt = ready.attempt;
        of_attempt = ready.of_attempt;
        late = (λ h. replaced.0 (sym ready.late ∙ h), λ r. ready.late ∙ replaced.1 r);
        fits = EnvelopeFits-Names envelope p.assignment ready.fits;
        set_aside = late_status-true p.late (own_status envelope) p.stored.status ready.status;
        own_result = late_status-false p.late (own_status envelope) p.stored.status ready.status;
      }
