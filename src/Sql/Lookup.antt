-- ===== src/Sql/Lookup.antt =====
-- Lookups by a key after an insert or an update by a key.
use mathlib.Core.Option
use token_bank.Prelude.{
  String, ◌≡◌, refl, Bool, true, false, none, some, List, [], ◌∷◌, ◌++◌, any, str_eq, eq_iff,
  if◌then◌else◌, arith,
}
use token_bank.Sql.{fetchone, update_where}

module _ {R : Type 0} (key : R → String) where
  abbrev pub with_key : String → R → Bool
  with_key id row = str_eq (key row) id

  pub fetchone-any-true :
      (id : String) (rows : List R) (r : R)
      → fetchone (with_key id) rows ≡ some r
      → any (with_key id) rows ≡ true
  unfolding fetchone
  fetchone-any-true id [] r h = cc
  fetchone-any-true id (x ∷ rows) r h = ground (arith, fetchone-any-true id rows r)

  pub fetchone-none-any :
      (id : String) (rows : List R)
      → fetchone (with_key id) rows ≡ none
      → any (with_key id) rows ≡ false
  unfolding fetchone
  fetchone-none-any id [] h = refl
  fetchone-none-any id (x ∷ rows) h = ground (arith, fetchone-none-any id rows)

  pub fetchone-key :
      (id : String) (rows : List R) (r : R) → fetchone (with_key id) rows ≡ some r → key r ≡ id
  unfolding fetchone
  fetchone-key id [] r h = cc
  fetchone-key id (x ∷ rows) r h = ground (arith, eq_iff (key x) id, fetchone-key id rows r)

  -- an update of the rows with the key `k`, which leaves the keys alone
  pub fetchone-update_key :
      (f : R → R) (k id : String) (rows : List R)
      → ((r : R) → key (f r) ≡ key r)
      → fetchone (with_key id) (update_where (with_key k) f rows) ≡ (
          if str_eq k id
          then Option.map f (fetchone (with_key id) rows)
          else fetchone (with_key id) rows)
  unfolding fetchone update_where
  fetchone-update_key f k id [] h = ground arith
  fetchone-update_key f k id (x ∷ rows) h = ground (
    arith,
    h x,
    eq_iff (key x) k,
    eq_iff (key x) id,
    eq_iff k id,
    fetchone-update_key f k id rows h,
  )

  -- an insert of a key that is not there
  pub fetchone-append_key :
      (row : R) (id : String) (rows : List R)
      → any (with_key (key row)) rows ≡ false
      → fetchone (with_key id) (rows ++ row ∷ [])
        ≡ (if str_eq (key row) id then some row else fetchone (with_key id) rows)
  unfolding fetchone
  fetchone-append_key row id [] h = refl
  fetchone-append_key row id (x ∷ rows) h = ground (
    arith,
    eq_iff (key x) (key row),
    eq_iff (key x) id,
    eq_iff (key row) id,
    fetchone-append_key row id rows,
  )
