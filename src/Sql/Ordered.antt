-- ===== src/Sql/Ordered.antt =====
-- What `order_by` puts first, and that it loses and adds no row.
use token_bank.Prelude.{
  ◌≡◌, Bool, true, false, List, [], ◌∷◌, All, All-map, Bool-cases, ◌⊎◌, inl, inr,
}
use token_bank.Sql.Order.{insert_row, order_by}

module _ {R : Type 0} where
  abbrev pub Has : R → List R → Type 0
  Has x [] = ⊥
  Has x (y ∷ ys) = (x ≡ y) ⊎ Has x ys

  pub All-Has : (P : R → Type 0) (x : R) (rows : List R) → All P rows → Has x rows → P x
  All-Has P x [] h m = elim m [ ]
  All-Has P x (y ∷ rows) h (inl e) = rw e h.0
  All-Has P x (y ∷ rows) h (inr m) = All-Has P x rows h.1 m

  -- nothing lies before the first row
  abbrev pub FirstIsLeast : (R → R → Bool) → List R → Type 0
  FirstIsLeast coarse [] = Unit
  FirstIsLeast coarse (h ∷ rows) = All (λ x. coarse x h ≡ false) (h ∷ rows)

module _ {R : Type 0} (before : R → R → Bool) where
  All-insert_row :
      (Q : R → Type 0) (row : R) (rows : List R)
      → Q row
      → All Q rows
      → All Q (insert_row before row rows)
  unfolding insert_row
  All-insert_row Q row [] q h = (q, tt)
  All-insert_row Q row (r ∷ rows) q h = elim (Bool-cases (before r row)) [
    | inl later ↦ rw later (h.0, All-insert_row Q row rows q h.1)
    | inr first ↦ rw first (q, h)
  ]

  pub All-order_by : (Q : R → Type 0) (rows : List R) → All Q rows → All Q (order_by before rows)
  unfolding order_by
  All-order_by Q [] h = tt
  All-order_by Q (r ∷ rows) h =
      All-insert_row Q r (order_by before rows) h.0 (All-order_by Q rows h.1)

  All-from_insert :
      (Q : R → Type 0) (row : R) (rows : List R)
      → All Q (insert_row before row rows)
      → Q row × All Q rows
  unfolding insert_row
  All-from_insert Q row [] h = (h.0, tt)
  All-from_insert Q row (r ∷ rows) h = elim (Bool-cases (before r row)) [
    | inl later ↦
        let h' = rw later at h in
        let (q, rest) = All-from_insert Q row rows h'.1 in (q, (h'.0, rest))
    | inr first ↦ let h' = rw first at h in (h'.0, h'.1)
  ]

  pub All-from_order : (Q : R → Type 0) (rows : List R) → All Q (order_by before rows) → All Q rows
  unfolding order_by
  All-from_order Q [] h = tt
  All-from_order Q (r ∷ rows) h =
      let (q, rest) = All-from_insert Q r (order_by before rows) h in
      (q, All-from_order Q rows rest)

  Has-insert_row :
      (x row : R) (rows : List R) → Has x (insert_row before row rows) → (x ≡ row) ⊎ Has x rows
  unfolding insert_row
  Has-insert_row x row [] m = m
  Has-insert_row x row (r ∷ rows) m = elim (Bool-cases (before r row)) [
    | inl later ↦ behind (rw later at m) (Has-insert_row x row rows)
    | inr first ↦ rw first at m
  ]
    where
      behind :
          Has x (r ∷ insert_row before row rows)
          → (Has x (insert_row before row rows) → (x ≡ row) ⊎ Has x rows)
          → (x ≡ row) ⊎ Has x (r ∷ rows)
      behind (inl e) sift = inr (inl e)
      behind (inr n) sift = elim (sift n) [ inl e ↦ inl e | inr k ↦ inr (inr k) ]

  pub Has-order_by : (x : R) (rows : List R) → Has x (order_by before rows) → Has x rows
  unfolding order_by
  Has-order_by x [] m = m
  Has-order_by x (r ∷ rows) m = elim (Has-insert_row x r (order_by before rows) m) [
    | inl e ↦ inl e
    | inr n ↦ inr (Has-order_by x rows n)
  ]

  -- A coarser order than the one that is sorted by.
  module _ (coarse : R → R → Bool) (opposes : (a b : R) → before a b ≡ true → coarse b a ≡ false)
      (follows : (a b : R) → before a b ≡ false → coarse a b ≡ false)
      (passes_on : (a b c : R) → coarse a b ≡ false → coarse b c ≡ false → coarse a c ≡ false) where
    itself : (a : R) → coarse a a ≡ false
    itself a = elim (Bool-cases (before a a)) [ inl e ↦ opposes a a e | inr e ↦ follows a a e ]

    insert_row-FirstIsLeast :
        (row : R) (rows : List R)
        → FirstIsLeast coarse rows
        → FirstIsLeast coarse (insert_row before row rows)
    unfolding insert_row
    insert_row-FirstIsLeast row [] h = (itself row, tt)
    insert_row-FirstIsLeast row (r ∷ rows) h = elim (Bool-cases (before r row)) [
      | inl later ↦
          rw later
            (h.0, All-insert_row (λ x. coarse x r ≡ false) row rows (opposes r row later) h.1)
      | inr first ↦ rw first (itself row, further first)
    ]
      where
        further : before r row ≡ false → All (λ x. coarse x row ≡ false) (r ∷ rows)
        further first = (
          follows r row first,
          All-map {P = λ x. coarse x r ≡ false} {Q = λ x. coarse x row ≡ false}
              (λ x (e : coarse x r ≡ false). passes_on x r row e (follows r row first)) rows h.1,
        )

    pub order_by-FirstIsLeast : (rows : List R) → FirstIsLeast coarse (order_by before rows)
    unfolding order_by
    order_by-FirstIsLeast [] = tt
    order_by-FirstIsLeast (r ∷ rows) =
        insert_row-FirstIsLeast r (order_by before rows) (order_by-FirstIsLeast rows)
