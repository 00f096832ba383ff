-- ===== src/Scheduler/Leases/Past.antt =====
-- A lease version that an assignment has passed, on the rows of the table.
use token_bank.Prelude.{
  ℕ, ◌+◌, ◌<◌, String, ◌≡◌, refl, sym, ap, ◌∙◌, Bool, true, false, some, List, [], ◌∷◌, any, All,
  arith, str_eq, eq_iff, Bool-cases, inl, inr,
}
use token_bank.Sql.{fetchone, update_where}
use token_bank.Sql.Rows.{Distinct}
use token_bank.Sql.Evolution.{Evolves}
use token_bank.Db.{AssignmentRow}
use token_bank.Scheduler.Tables.{is_assignment}
use token_bank.Scheduler.Lease.{LeaseUpdate, holds_version, set_lease}
use token_bank.Scheduler.Invariant.{assignment_key}
use token_bank.Scheduler.History.{Renewed}

-- The assignment is there, with a lease version above this one.
pub record IsPast (id : String) (version : ℕ) (rows : List AssignmentRow) : Type 0 where
  pub known : any (is_assignment id) rows ≡ true
  pub above : All (λ a. is_assignment id a ≡ true → version < a.lease_version) rows

abbrev pub is_assignment_key : String → String → Bool
is_assignment_key id key = str_eq key id

module _ (id : String) (version : ℕ) where
  pub none_left :
      (rows : List AssignmentRow)
      → All (λ a. is_assignment id a ≡ true → version < a.lease_version) rows
      → any (holds_version id version) rows ≡ false
  unfolding holds_version
  none_left [] h = refl
  none_left (x ∷ rows) h = elim (Bool-cases (is_assignment id x)) [
    | inl here ↦ let above = h.0 here in ground (arith, none_left rows h.1)
    | inr other ↦ ground (arith, none_left rows h.1)
  ]

  -- the rows behind the one with this key have other keys
  pub others_above :
      (y : AssignmentRow) (later : List AssignmentRow)
      → is_assignment id y ≡ true
      → any (λ o. str_eq (assignment_key o) (assignment_key y)) later ≡ false
      → All (λ a. is_assignment id a ≡ true → version < a.lease_version) later
  others_above y [] h d = tt
  others_above y (z ∷ later) h d = (
    (λ same. absurd (
        ground (
          arith,
          eq_iff z.assignment_id id,
          eq_iff y.assignment_id id,
          eq_iff z.assignment_id y.assignment_id,
        ))),
    others_above y later h (ground arith),
  )

  -- A version that is past stays past, since rows keep their keys and versions never fall.
  pub IsPast-Evolves :
      (rows later : List AssignmentRow)
      → Evolves Renewed rows later
      → Distinct assignment_key later
      → IsPast id version rows
      → IsPast id version later
  IsPast-Evolves [] later e d p = cc p.known
  IsPast-Evolves (x ∷ rows) [] e d p = elim e [ ]
  IsPast-Evolves (x ∷ rows) (y ∷ later) e d p = elim (Bool-cases (is_assignment id x)) [
    | inl here ↦
        let here' : is_assignment id y ≡ true =
          ap (is_assignment_key id) (sym e.0.same.assignment_id) ∙ here in
        record {
          known = ground arith;
          above = (
            (λ _. let above = p.above.0 here in omega (arith, e.0.later)),
            others_above y later here' d.0,
          );
        }
    | inr other ↦
        let rest =
          IsPast-Evolves rows later e.1 d.1 (record { known = ground arith; above = p.above.1 }) in
        let other' : is_assignment id y ≡ false =
          ap (is_assignment_key id) (sym e.0.same.assignment_id) ∙ other in
        record { known = ground (arith, rest.known); above = ((λ same. cc), rest.above) }
  ]

  -- the row that a version belongs to
  pub holder :
      (rows : List AssignmentRow) (current : AssignmentRow)
      → All (λ o. is_assignment id o ≡ true → o ≡ current) rows
      → any (holds_version id version) rows ≡ true
      → current.lease_version ≡ version
  unfolding holds_version
  holder [] current only h = cc
  holder (x ∷ rows) current only h = elim (Bool-cases (holds_version id version x)) [
    | inl hit ↦
        ap (λ (r : AssignmentRow). r.lease_version) (sym (only.0 (ground arith))) ∙ ground arith
    | inr miss ↦ holder rows current only.1 (ground arith)
  ]

  pub renewed_above :
      (u : LeaseUpdate) (now : String) (rows : List AssignmentRow) (current : AssignmentRow)
      → current.lease_version ≡ version
      → All (λ o. is_assignment id o ≡ true → o ≡ current) rows
      → All
          (λ a. is_assignment id a ≡ true → version < a.lease_version)
          (update_where
            (holds_version id version)
            (set_lease u (current.lease_version + 1) now)
            rows)
  unfolding update_where holds_version set_lease
  renewed_above u now [] current e only = tt
  renewed_above u now (x ∷ rows) current e only = elim (Bool-cases (holds_version id version x)) [
    | inl hit ↦ rw hit ((λ _. omega (arith, e)), renewed_above u now rows current e only.1)
    | inr miss ↦ rw miss (
      (λ here.
          absurd
            (let same = ap (λ (r : AssignmentRow). r.lease_version) (only.0 here) in ground arith)),
      renewed_above u now rows current e only.1,
    )
  ]

  pub found_renewed :
      (f : AssignmentRow → AssignmentRow) (rows : List AssignmentRow) (current : AssignmentRow)
      → ((a : AssignmentRow) → (f a).assignment_id ≡ a.assignment_id)
      → fetchone (is_assignment id) rows ≡ some current
      → current.lease_version ≡ version
      → fetchone (is_assignment id) (update_where (holds_version id version) f rows)
        ≡ some (f current)
  unfolding fetchone update_where holds_version
  found_renewed f [] current same e v = cc
  found_renewed f (x ∷ rows) current same e v =
      ground (arith, found_renewed f rows current same, same x)
