-- ===== src/Sql.antt =====
-- The SQL statements of the scheduler and the outbox over one table, which is the list of its rows
-- in the order of insertion.
pub mod Evolution
pub mod Rows
pub mod Order
pub mod Lookup
pub mod Ordered
use token_bank.Prelude.{ℕ, Bool, Option, none, some, List, [], ◌∷◌, max, if◌then◌else◌}

module _ {ℓ} {R : Type ℓ} where
  -- SELECT ... WHERE p, and `fetchone()`
  unfoldable pub fetchone : (R → Bool) → List R → Option R
  fetchone p [] = none
  fetchone p (r ∷ rs) = if p r then some r else fetchone p rs

  -- UPDATE ... SET f WHERE p
  unfoldable pub update_where : (R → Bool) → (R → R) → List R → List R
  update_where p f [] = []
  update_where p f (r ∷ rs) = (if p r then f r else r) ∷ update_where p f rs

  -- MAX(column), with COALESCE(..., 0) for no row
  unfoldable pub max_column : (R → ℕ) → List R → ℕ
  max_column f [] = 0
  max_column f (r ∷ rs) = max (f r) (max_column f rs)

  -- ORDER BY ... LIMIT 1: the first of the least rows
  unfoldable pub first_by : (R → R → Bool) → List R → Option R
  first_by before [] = none
  first_by before (r ∷ rs) = elim (first_by before rs) [
    | none ↦ some r
    | some least ↦ some (if before least r then least else r)
  ]
