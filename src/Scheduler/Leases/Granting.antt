-- ===== src/Scheduler/Leases/Granting.antt =====
-- A lease is granted at most once for each version, whatever happens between the read and the write
-- of `accept_assignment`.
use mathlib.Core.Path.{subst}
use token_bank.Prelude.{ℕ, String, ◌≡◌, sym, ap, ◌∙◌, List}
use token_bank.Result.{Result, ok, err, lease_conflict}
use token_bank.Exec.{◌>>=◌}
use token_bank.World.{World}
use token_bank.Db.{AssignmentRow}
use token_bank.Session.{Session}
use token_bank.Session.Moves.{Moves}
use token_bank.Session.Runs.{transaction-ok, transaction-err, bind-ok, bind-err}
use token_bank.Scheduler.Lease.{lease_token_prefix, conditional_assignment_update}
use token_bank.Scheduler.Leasing.{accept_write, accept_effects, accept_update}
use token_bank.Scheduler.Calls.{Call, serve}
use token_bank.Scheduler.Effects.Primitives.{conditional_assignment_update-Moves}
use token_bank.Scheduler.Effects.Operations.{accept_effects-Moves, accept_write-Moves}
use token_bank.Scheduler.Invariant.{Inv}
use token_bank.Scheduler.History.{Kept, Kept-Allows, serve-Inv, serve-Grows}
use token_bank.Scheduler.Leases.{
  IsPast, IsPast-Evolves, conditional_assignment_update_lem, past-lease_conflict,
}

module _ (w : World) where
  effects-Moves :
      (a : AssignmentRow) (worker_id prefix now : String) (row : AssignmentRow)
      → Moves Kept (accept_effects w a worker_id prefix now row)
  effects-Moves = accept_effects-Moves Kept-Allows w

  -- After a lease was granted on a version, that version is past.
  pub accept_write-IsPast :
      (s : Session) (a : AssignmentRow) (worker_id : String) (version : ℕ)
      (token expires now : String) (row : AssignmentRow)
      → Inv s.db
      → (accept_write w a worker_id version token expires now s).0 ≡ ok row
      → IsPast a.assignment_id version
          (accept_write w a worker_id version token expires now s).1.db.assignments
  unfolding accept_write
  accept_write-IsPast s a worker_id version token expires now row v e =
      let prefix = lease_token_prefix token in
      let u = accept_update expires (w.lease_digest token) prefix now in
      let update = conditional_assignment_update w a.assignment_id version u in
      let rest = accept_effects w a worker_id prefix now in
      let (returned, state) = transaction-ok (update >>= rest) s row e in
      let (mid, granted, onward) = bind-ok update rest s row returned in
      let t = (update s).1 in
      let renewal = conditional_assignment_update_lem w a.assignment_id version u s mid v granted in
      let v' =
        ((conditional_assignment_update-Moves Kept-Allows w a.assignment_id version u).at s v).0 in
      let (v'', g) = (effects-Moves a worker_id prefix now mid).at t v' in
      subst (λ (x : Session). IsPast a.assignment_id version x.db.assignments)
        (sym (state ∙ ap (λ (p : Result AssignmentRow × Session). p.1) onward))
        (IsPast-Evolves a.assignment_id version t.db.assignments _ g.assignments v''.assignment_ids
          renewal.past)

  past-accept_write :
      (s : Session) (a : AssignmentRow) (worker_id : String) (version : ℕ)
      (token expires now : String)
      → IsPast a.assignment_id version s.db.assignments
      → (accept_write w a worker_id version token expires now s).0 ≡ err lease_conflict
  unfolding accept_write
  past-accept_write s a worker_id version token expires now p =
      let prefix = lease_token_prefix token in
      let u = accept_update expires (w.lease_digest token) prefix now in
      let update = conditional_assignment_update w a.assignment_id version u in
      let rest = accept_effects w a worker_id prefix now in
      transaction-err (update >>= rest) s lease_conflict (
        bind-err update rest s lease_conflict (past-lease_conflict w a.assignment_id version u s p))

  -- Two workers may both have read an assignment while it was offered. If the write of the first
  -- returns, then after any further calls the write of the second for the same lease version raises
  -- LeaseConflictError, whatever row it had read of that assignment, in a database that met the
  -- invariant before the first write.
  pub lease_granted_once :
      (s : Session) (first second : AssignmentRow) (row : AssignmentRow) (version : ℕ)
      (worker_id token expires now worker_id' token' expires' now' : String) (cs : List Call)
      → Inv s.db
      → second.assignment_id ≡ first.assignment_id
      → (accept_write w first worker_id version token expires now s).0 ≡ ok row
      → (accept_write w second worker_id' version token' expires' now'
          (serve w (accept_write w first worker_id version token expires now s).1 cs)).0
        ≡ err lease_conflict
  lease_granted_once s first second row version worker_id token expires now worker_id' token'
        expires' now' cs v same e =
      let t = (accept_write w first worker_id version token expires now s).1 in
      let v' =
        ((accept_write-Moves Kept-Allows w first worker_id version token expires now).at s v).0 in
      let past = accept_write-IsPast s first worker_id version token expires now row v e in
      past-accept_write (serve w t cs) second worker_id' version token' expires' now' (
        subst (λ (id : String). IsPast id version (serve w t cs).db.assignments) (sym same)
          (IsPast-Evolves first.assignment_id version t.db.assignments (serve w t cs).db.assignments
            (serve-Grows w t cs v').assignments (serve-Inv w t cs v').assignment_ids past))
