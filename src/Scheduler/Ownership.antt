-- ===== src/Scheduler/Ownership.antt =====
-- Who may act on an assignment.
use token_bank.Prelude.{String, ◌≡◌, refl, false, Option, none, some, str_eq}
use token_bank.Result.{err, permission_error}
use token_bank.Exec.{Exec, pure, ◌>>=◌}
use token_bank.World.{World}
use token_bank.Sql.{fetchone}
use token_bank.Db.{AssignmentRow}
use token_bank.Session.{Session}
use token_bank.Session.Runs.{bind-err}
use token_bank.Scheduler.Tables.{is_assignment, assignment_for_worker}
use token_bank.Scheduler.Leasing.{accept_assignment, reject_assignment, progress_assignment}
use token_bank.Scheduler.Results.{submit_result, prepare_result}
use token_bank.Scheduler.Calls.{
  Operation, attempt, assignment, assign_next, accept, reject, progress, heartbeat, submit, retry,
  fallback, perform,
}

-- the assignment that a worker acts on, and the worker that says it is its own
abbrev pub acts_on : Operation → Option (String × String)
acts_on (accept id worker_id version ms) = some (id, worker_id)
acts_on (reject id worker_id) = some (id, worker_id)
acts_on (progress id worker_id token version ms) = some (id, worker_id)
acts_on (submit id worker_id token hash output envelope) = some (id, worker_id)
acts_on _ = none

refused :
    (id worker_id : String) (s : Session) (a : AssignmentRow)
    → fetchone (is_assignment id) s.db.assignments ≡ some a
    → str_eq a.worker_id worker_id ≡ false
    → (assignment_for_worker id worker_id s).0 ≡ err permission_error
unfolding assignment_for_worker ◌>>=◌
refused id worker_id s a found other = rw (found, other) refl

module _ (w : World) (s : Session) (id worker_id : String) (a : AssignmentRow)
    (found : fetchone (is_assignment id) s.db.assignments ≡ some a)
    (other : str_eq a.worker_id worker_id ≡ false) where
  -- the lookup that each of the four begins with
  lookup_refused :
      (id' worker_id' : String)
      → ◌≡◌ {A = Option (String × String)} (some (id', worker_id')) (some (id, worker_id))
      → (assignment_for_worker id' worker_id' s).0 ≡ err permission_error
  lookup_refused id' worker_id' e = cc (e, refused id worker_id s a found other)

  -- what begins with that lookup raises with it
  raises :
      {A : Type 0} (id' worker_id' : String) (f : AssignmentRow → Exec Session A)
      → ◌≡◌ {A = Option (String × String)} (some (id', worker_id')) (some (id, worker_id))
      → ((assignment_for_worker id' worker_id' >>= f) s).0 ≡ err permission_error
  raises id' worker_id' f e =
      bind-err (assignment_for_worker id' worker_id') f s permission_error
        (lookup_refused id' worker_id' e)

  -- Accepting, rejecting, reporting progress on or submitting a result for an assignment in the name
  -- of a worker that it was not given to raises PermissionError.
  pub foreign_worker_refused :
      (o : Operation) → acts_on o ≡ some (id, worker_id) → (perform w o s).0 ≡ err permission_error
  unfolding perform accept_assignment reject_assignment progress_assignment submit_result
      prepare_result
  foreign_worker_refused (accept i v version ms) e =
      bind-err (accept_assignment w i v version ms) (λ _. pure tt) s permission_error
        (raises i v _ e)
  foreign_worker_refused (reject i v) e = raises i v _ e
  foreign_worker_refused (progress i v token version ms) e =
      bind-err (progress_assignment w i v token version ms) (λ _. pure tt) s permission_error
        (raises i v _ e)
  foreign_worker_refused (submit i v token hash output envelope) e =
      bind-err (submit_result w i v token hash output envelope) (λ _. pure tt) s permission_error
        (bind-err (prepare_result w i v token hash output envelope) _ s permission_error
          (raises i v _ e))
  foreign_worker_refused (attempt r) e = cc
  foreign_worker_refused (assignment r) e = cc
  foreign_worker_refused (assign_next i) e = cc
  foreign_worker_refused (heartbeat i status) e = cc
  foreign_worker_refused (retry i) e = cc
  foreign_worker_refused (fallback i) e = cc
