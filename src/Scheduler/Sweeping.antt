-- ===== src/Scheduler/Sweeping.antt =====
-- What a sweep that returns has left of the leases that were overdue.
use token_bank.Prelude.{
  ℕ, suc, String, ◌≡◌, refl, sym, true, false, List, [], ◌∷◌, any, keep, length, All, All-map,
  Bool-cases, inl, inr, str_eq, eq_iff, eq_refl, arith, ap, ◌∙◌, Bool, Option, some, ◌&&◌, ◌⊎◌,
}
use mathlib.Core.Path.{subst}
use mathlib.Core.Bool.{false≢true}
use token_bank.Result.{ok}
use token_bank.Exec.{pure, ◌>>=◌}
use token_bank.World.{World}
use token_bank.Sql.{update_where}
use token_bank.Sql.Order.{text_before}
use token_bank.Db.{Db, AssignmentRow, AssignmentStatus}
use token_bank.Session.{Session, read}
use token_bank.Session.Runs.{bind-ok}
use token_bank.Scheduler.Tables.{is_assignment, update_assignments}
use token_bank.Scheduler.Submission.Outcome.{announced}
use token_bank.Scheduler.Sweeper.{
  is_leased, expires_before, is_overdue, set_expired, expired_event, sweep_row, sweep_rows,
  sweep_expired_leases,
}

-- an overdue row is one that is still to be swept
abbrev IsListed : String → List AssignmentRow → AssignmentRow → Type 0
IsListed now xs a =
    is_overdue now a ≡ true
    → any (λ (x : AssignmentRow). str_eq x.assignment_id a.assignment_id) xs ≡ true

weaken :
    (now : String) (x : AssignmentRow) (xs rows : List AssignmentRow)
    → All (IsListed now xs) rows
    → All (IsListed now (x ∷ xs)) rows
weaken now x xs [] h = tt
weaken now x xs (r ∷ rows) h = (λ e. ground (arith, h.0 e), weaken now x xs rows h.1)

IsListed-keep :
    (now : String) (rows : List AssignmentRow)
    → All (IsListed now (keep (is_overdue now) rows)) rows
IsListed-keep now [] = tt
IsListed-keep now (r ∷ rows) = elim (Bool-cases (is_overdue now r)) [
  | inl due ↦
      let kept : keep (is_overdue now) (r ∷ rows) ≡ r ∷ keep (is_overdue now) rows = rw due refl in
      subst (λ (xs : List AssignmentRow). All (IsListed now xs) (r ∷ rows)) (sym kept)
        (
          λ _. ground (arith, eq_refl r.assignment_id),
          weaken now r (keep (is_overdue now) rows) rows (IsListed-keep now rows),
        )
  | inr fine ↦
      let kept : keep (is_overdue now) (r ∷ rows) ≡ keep (is_overdue now) rows = rw fine refl in
      subst (λ (xs : List AssignmentRow). All (IsListed now xs) (r ∷ rows)) (sym kept)
        (λ e. cc, IsListed-keep now rows)
]

swept :
    (now time : String) (x : AssignmentRow) (xs rows : List AssignmentRow)
    → All (IsListed now (x ∷ xs)) rows
    → All (IsListed now xs) (update_where (is_assignment x.assignment_id) (set_expired time) rows)
unfolding update_where set_expired is_overdue is_leased
swept now time x xs [] h = tt
swept now time x xs (r ∷ rows) h = elim (Bool-cases (is_assignment x.assignment_id r)) [
  | inl here ↦ rw here (λ e. cc, swept now time x xs rows h.1)
  | inr other ↦ rw other (
    λ e. ground (
      arith,
      h.0 e,
      eq_iff x.assignment_id r.assignment_id,
      eq_iff r.assignment_id x.assignment_id,
    ),
    swept now time x xs rows h.1,
  )
]

module _ (w : World) (now : String) where
  row_swept :
      (x : AssignmentRow) (xs : List AssignmentRow) (s : Session)
      → All (IsListed now (x ∷ xs)) s.db.assignments
      → All (IsListed now xs) (sweep_row w x s).1.db.assignments
  unfolding sweep_row ◌>>=◌ read update_assignments
  row_swept x xs s h =
      let t : Session = record {
        db = record (s.db) {
          assignments =
              update_where (is_assignment x.assignment_id) (set_expired (w.clock_text s.reads))
                s.db.assignments;
        };
        reads = suc s.reads;
      } in
      let announces = (announced w (expired_event x) tt).at t in
      subst (λ (db : Db). All (IsListed now xs) db.assignments) (sym announces)
        (swept now (w.clock_text s.reads) x xs s.db.assignments h)

  rows_swept :
      (xs : List AssignmentRow) (s : Session) (u : Unit {0})
      → (sweep_rows w xs s).0 ≡ ok u
      → All (IsListed now xs) s.db.assignments
      → All (IsListed now []) (sweep_rows w xs s).1.db.assignments
  unfolding sweep_rows pure
  rows_swept [] s u e h = h
  rows_swept (x ∷ xs) s u e h =
      let (v, done, onward) = bind-ok (sweep_row w x) (λ _. sweep_rows w xs) s u e in
      rw onward (rows_swept xs (sweep_row w x s).1 u (rw (← onward) e) (row_swept x xs s h))

  All-sweep_rows :
      (xs : List AssignmentRow) (s : Session) (n : ℕ)
      → ((sweep_rows w xs >>= λ _. pure (length xs)) s).0 ≡ ok n
      → All (IsListed now xs) s.db.assignments
      → All (IsListed now []) ((sweep_rows w xs >>= λ _. pure (length xs)) s).1.db.assignments
  unfolding pure
  All-sweep_rows xs s n e h =
      let (u, done, onward) = bind-ok (sweep_rows w xs) (λ _. pure (length xs)) s n e in
      rw onward (rows_swept xs s u done h)

not_due : (now : String) (a : AssignmentRow) → IsListed now [] a → is_overdue now a ≡ false
not_due now a h = elim (Bool-cases (is_overdue now a)) [
  | inl due ↦ absurd (false≢true (h due))
  | inr fine ↦ fine
]

-- an assignment that is accepted or running has a lease without an end, or one that ends no earlier
abbrev pub IsCurrent : String → AssignmentRow → Type 0
IsCurrent now a =
    (a.status ≡ AssignmentStatus.accepted) ⊎ (a.status ≡ AssignmentStatus.running)
    → (end : String) → a.lease_expires_at ≡ some end
    → text_before end now ≡ false

leased_status :
    (status : AssignmentStatus)
    → (status ≡ AssignmentStatus.accepted) ⊎ (status ≡ AssignmentStatus.running)
    → is_leased status ≡ true
unfolding is_leased
leased_status status (inl e) = rw e refl
leased_status status (inr e) = rw e refl

second_false : (a b : Bool) → a ≡ true → (a && b) ≡ false → b ≡ false
second_false a b h k = ground arith

not_overdue :
    (now : String) (status : AssignmentStatus) (lease : Option String)
    → (is_leased status && expires_before now lease) ≡ false
    → is_leased status ≡ true
    → (end : String) → lease ≡ some end
    → text_before end now ≡ false
unfolding expires_before
not_overdue now status lease h leased end ends =
    let at : expires_before now lease ≡ false = second_false _ _ leased h in
    sym (ap (expires_before now) ends) ∙ at

overdue-IsCurrent : (now : String) (a : AssignmentRow) → is_overdue now a ≡ false → IsCurrent now a
unfolding is_overdue
overdue-IsCurrent now a h leased end ends =
    not_overdue now a.status a.lease_expires_at h (leased_status a.status leased) end ends

-- Once a sweep has returned, an assignment that is accepted or running has a lease without an end, or
-- one whose end does not come before the time at which the sweep began, in the order of the texts.
pub sweep_expired_leases-swept :
    (w : World) (s : Session) (n : ℕ)
    → (sweep_expired_leases w s).0 ≡ ok n
    → All (IsCurrent (w.clock_text s.reads)) (sweep_expired_leases w s).1.db.assignments
unfolding sweep_expired_leases ◌>>=◌ read
sweep_expired_leases-swept w s n e =
    let now = w.clock_text s.reads in
    let t : Session = record s { reads = suc s.reads } in
    let xs = keep (is_overdue now) s.db.assignments in
    All-map (λ a h. overdue-IsCurrent now a (not_due now a h))
      (sweep_expired_leases w s).1.db.assignments
      (All-sweep_rows w now xs t n e (IsListed-keep now s.db.assignments))
