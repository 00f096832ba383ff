-- ===== src/Scheduler/Leases.antt =====
-- A lease version of an assignment is spent by the update that names it.
pub mod Granting
pub mod Past
use token_bank.Prelude.{
  ℕ, suc, ◌+◌, ◌<◌, String, ◌≡◌, refl, sym, ap, ◌∙◌, Bool, true, false, ◌&&◌, Option, some, none,
  List, [], ◌∷◌, any, arith, Bool-cases, Option-cases, inl, inr,
}
use mathlib.Core.Path.{subst₂}
use token_bank.Result.{Result, ok, err, lease_conflict}
use token_bank.Exec.{◌>>=◌}
use token_bank.World.{World}
use token_bank.Sql.{fetchone, update_where}
use token_bank.Sql.Rows.{fetchone_unique, any-update_where}
use token_bank.Db.{Db, AssignmentRow}
use token_bank.Session.{Session, read}
use token_bank.Scheduler.Tables.{is_assignment}
use token_bank.Scheduler.Lease.{
  LeaseUpdate, holds_version, set_lease, conditional_assignment_update,
}
use token_bank.Scheduler.Invariant.{assignment_key, Inv}
pub use Past.*

-- what a successful update of a lease has done
pub record IsRenewal (id : String) (version : ℕ) (u : LeaseUpdate) (now : String)
    (before after : Db) (row : AssignmentRow) : Type 0 where
  pub past : IsPast id version after.assignments
  pub current : AssignmentRow
  pub found : fetchone (is_assignment id) before.assignments ≡ some current
  pub held : current.lease_version ≡ version
  pub renewed : row ≡ set_lease u (version + 1) now current
  pub stored : fetchone (is_assignment id) after.assignments ≡ some row

set_lease_key :
    (u : LeaseUpdate) (n : ℕ) (now : String) (a : AssignmentRow)
    → (set_lease u n now a).assignment_id ≡ a.assignment_id
unfolding set_lease
set_lease_key u n now a = refl

fetchone-known :
    (id : String) (rows : List AssignmentRow) (r : AssignmentRow)
    → fetchone (is_assignment id) rows ≡ some r
    → any (is_assignment id) rows ≡ true
unfolding fetchone
fetchone-known id [] r e = cc
fetchone-known id (x ∷ rows) r e = ground (arith, fetchone-known id rows r)

fetchone-unknown :
    (id : String) (rows : List AssignmentRow)
    → fetchone (is_assignment id) rows ≡ none
    → any (is_assignment id) rows ≡ false
unfolding fetchone
fetchone-unknown id [] e = refl
fetchone-unknown id (x ∷ rows) e = ground (arith, fetchone-unknown id rows)

module _ (w : World) (id : String) (version : ℕ) (u : LeaseUpdate) where
  -- the session after an update that finds its version
  renewed_session : Session → AssignmentRow → Session
  renewed_session s current = record {
    db = record s.db {
      assignments =
          update_where (holds_version id version)
            (set_lease u (current.lease_version + 1) (w.clock_text s.reads)) s.db.assignments;
    };
    reads = suc s.reads;
  }

  renewal_runs :
      (s : Session) (current : AssignmentRow)
      → fetchone (is_assignment id) s.db.assignments ≡ some current
      → current.lease_version ≡ version
      → any (holds_version id version) s.db.assignments ≡ true
      → conditional_assignment_update w id version u s ≡ (
        ok (set_lease u (current.lease_version + 1) (w.clock_text s.reads) current),
        renewed_session s current,
      )
  unfolding conditional_assignment_update renewed_session ◌>>=◌ read
  renewal_runs s current found at_version held = rw (
    found,
    held,
    found_renewed id version (set_lease u (current.lease_version + 1) (w.clock_text s.reads))
        s.db.assignments current
        (set_lease_key u (current.lease_version + 1) (w.clock_text s.reads)) found at_version,
  )

  IsRenewal-facts :
      (s : Session) (current : AssignmentRow)
      → Inv s.db
      → fetchone (is_assignment id) s.db.assignments ≡ some current
      → current.lease_version ≡ version
      → IsRenewal id version u
          (w.clock_text s.reads)
          s.db
          (renewed_session s current).db
          (set_lease u (current.lease_version + 1) (w.clock_text s.reads) current)
  unfolding renewed_session
  IsRenewal-facts s current v found at_version =
      let now = w.clock_text s.reads in
      let f = set_lease u (current.lease_version + 1) now in
      let only =
        fetchone_unique assignment_key id s.db.assignments current v.assignment_ids found in
      record {
        past = record {
          known =
              any-update_where (holds_version id version) f (is_assignment id) s.db.assignments
                (λ a. ap (is_assignment_key id) (set_lease_key u (current.lease_version + 1) now a))
              ∙ fetchone-known id s.db.assignments current found;
          above = renewed_above id version u now s.db.assignments current at_version only;
        };
        current = current;
        found = found;
        held = at_version;
        renewed = ap (λ (n : ℕ). set_lease u (n + 1) now current) at_version;
        stored =
            found_renewed id version f s.db.assignments current
              (set_lease_key u (current.lease_version + 1) now) found at_version;
      }

  -- A lease update that returns has found the version it names, which is past from then on.
  pub conditional_assignment_update_lem :
      (s : Session) (row : AssignmentRow)
      → Inv s.db
      → (conditional_assignment_update w id version u s).0 ≡ ok row
      → IsRenewal id version u
          (w.clock_text s.reads)
          s.db
          (conditional_assignment_update w id version u s).1.db
          row
  unfolding conditional_assignment_update ◌>>=◌ read
  conditional_assignment_update_lem s row v e =
      elim (Option-cases (fetchone (is_assignment id) s.db.assignments)) [
        | inl missing ↦ cc (rw missing at e)
        | inr (current, found) ↦
            elim (Bool-cases (any (holds_version id version) s.db.assignments)) [
              | inl held ↦
                  let only =
                    fetchone_unique assignment_key id s.db.assignments current v.assignment_ids
                      found in
                  let at_version = holder id version s.db.assignments current only held in
                  let runs = renewal_runs s current found at_version held in
                  let same : set_lease u (current.lease_version + 1) (w.clock_text s.reads) current
                      ≡ row =
                    cc (runs, e) in
                  subst₂ (IsRenewal id version u (w.clock_text s.reads) s.db)
                    (ap (λ (r : Result AssignmentRow × Session). r.1.db) (sym runs)) same
                    (IsRenewal-facts s current v found at_version)
              | inr lost ↦ cc (rw (found, lost) at e)
            ]
      ]

  -- One that names a past version raises LeaseConflictError.
  pub past-lease_conflict :
      (s : Session)
      → IsPast id version s.db.assignments
      → (conditional_assignment_update w id version u s).0 ≡ err lease_conflict
  unfolding conditional_assignment_update ◌>>=◌ read
  past-lease_conflict s p = elim (Option-cases (fetchone (is_assignment id) s.db.assignments)) [
    | inl missing ↦ cc (fetchone-unknown id s.db.assignments missing, p.known)
    | inr (current, found) ↦ rw (found, none_left id version s.db.assignments p.above)
  ]
