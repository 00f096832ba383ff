-- ===== src/Json/Equality.antt =====
-- Python's `==` on the values that `json` reads: numbers by value, whatever their types, and a `dict`
-- in any order.
use token_bank.Prelude.{ℕ, suc, ◌^◌, Bool, true, false, ◌&&◌, ◌==◌, Option, none, some, any, str_eq}
use token_bank.Prelude.Int.{ℤ, pos, negsuc, scale}
use token_bank.Json.{
  Json, Items, Fields, null, bool, int, float, str, arr, obj, nil, cons, end, field, get, has_key,
  items,
}

-- the value of a number as m / 2 ^ k
abbrev number : Json → Option (ℤ × ℕ)
number (bool true) = some (pos 1, 0)
number (bool false) = some (pos 0, 0)
number (int n) = some (n, 0)
number (float m k) = some (m, k)
number _ = none

abbrev same_int : ℤ → ℤ → Bool
same_int (pos a) (pos b) = a == b
same_int (negsuc a) (negsuc b) = a == b
same_int _ _ = false

abbrev same_number : Option (ℤ × ℕ) → Option (ℤ × ℕ) → Bool
same_number (some (m, j)) (some (n, k)) = same_int (scale m (2 ^ k)) (scale n (2 ^ j))
same_number _ _ = false

abbrev size : Fields → ℕ
size end = 0
size (field k v rest) = suc (size rest)

unfoldable mutual
  unfolding get has_key

  pub equals : Json → Json → Bool
  equals null null = true
  equals (str s) (str t) = str_eq s t
  equals (arr xs) (arr ys) = equal_items xs ys
  equals (obj fs) (obj gs) = (size fs == size gs) && equal_fields fs gs
  equals v u = same_number (number v) (number u)

  equal_items : Items → Items → Bool
  equal_items nil nil = true
  equal_items (cons x xs) (cons y ys) = equals x y && equal_items xs ys
  equal_items xs ys = false

  equal_fields : Fields → Fields → Bool
  equal_fields end gs = true
  equal_fields (field k v rest) gs = has_key gs k && equals v (get gs k) && equal_fields rest gs

-- `value in list`
unfoldable pub is_element : Json → Items → Bool
unfolding equals
is_element v xs = any (equals v) (items xs)
