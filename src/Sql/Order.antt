-- ===== src/Sql/Order.antt =====
-- How a query orders texts, as ORDER BY and `<` compare them.
use Prim.Native.Nat.{Ordering}
use Prim.Native.String.{compare as compare_text}
use token_bank.Prelude.{
  String, Bool, true, false, ◌||◌, ◌&&◌, Option, none, some, List, [], ◌∷◌, str_eq, if◌then◌else◌,
}

-- The order of SQLite's BINARY collation, which is that of code points; NULL comes first.
unfoldable pub text_before : String → String → Bool
text_before s t = elim (compare_text s t) [ Ordering.lt ↦ true | _ ↦ false ]

unfoldable pub opt_before : Option String → Option String → Bool
unfolding text_before
opt_before none none = false
opt_before none (some t) = true
opt_before (some s) none = false
opt_before (some s) (some t) = text_before s t

-- ORDER BY created_at DESC, id
unfoldable pub newest_first : String → String → String → String → Bool
unfolding text_before
newest_first created_at id other_created_at other_id =
    text_before other_created_at created_at
    || (str_eq created_at other_created_at && text_before id other_id)

module _ {R : Type 0} (before : R → R → Bool) where
  unfoldable pub insert_row : R → List R → List R
  insert_row row [] = row ∷ []
  insert_row row (r ∷ rs) =
      let rest = insert_row row rs in if before r row then r ∷ rest else row ∷ r ∷ rs

  unfoldable pub order_by : List R → List R
  unfolding insert_row
  order_by [] = []
  order_by (r ∷ rs) = insert_row r (order_by rs)
