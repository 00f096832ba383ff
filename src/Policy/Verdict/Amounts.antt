-- ===== src/Policy/Verdict/Amounts.antt =====
-- A document has no bad amount exactly if each field whose key ends in `_micros` holds an integer.
use token_bank.Prelude.{
  String, ◌≡◌, refl, ◌↔◌, Bool, true, false, ◌||◌, arith, Bool-cases, inl, inr,
}
use token_bank.Prelude.Int.{ℤ}
use token_bank.Json.{
  Json, Items, Fields, null, bool, int, float, str, arr, obj, nil, cons, end, field,
}
use token_bank.Text.{codes, ends_codes}
use token_bank.Policy.Checks.{
  is_int, is_bad_micros, contains_bad_micros, fields_bad_micros, items_bad_micros,
}

abbrev pub IsAmountKey : String → Type 0
IsAmountKey key = ends_codes (codes "_micros") (codes key) ≡ true

mutual
  pub AmountsWhole : Json → Type 0
  AmountsWhole null = Unit
  AmountsWhole (bool b) = Unit
  AmountsWhole (int n) = Unit
  AmountsWhole (float m k) = Unit
  AmountsWhole (str s) = Unit
  AmountsWhole (arr xs) = AllAmountsWhole xs
  AmountsWhole (obj fs) = FieldAmountsWhole fs

  pub AllAmountsWhole : Items → Type 0
  AllAmountsWhole nil = Unit
  AllAmountsWhole (cons x xs) = AmountsWhole x × AllAmountsWhole xs

  pub FieldAmountsWhole : Fields → Type 0
  FieldAmountsWhole end = Unit
  FieldAmountsWhole (field k v rest) =
      (IsAmountKey k → (n : ℤ) × (v ≡ int n)) × AmountsWhole v × FieldAmountsWhole rest

is_int-whole : (v : Json) → is_int v ≡ true → (n : ℤ) × (v ≡ int n)
unfolding is_int
is_int-whole null h = cc
is_int-whole (bool b) h = cc
is_int-whole (int n) h = (n, refl)
is_int-whole (float m k) h = cc
is_int-whole (str s) h = cc
is_int-whole (arr xs) h = cc
is_int-whole (obj fs) h = cc

good_amount :
    (k : String) (v : Json) → is_bad_micros k v ≡ false ↔ (IsAmountKey k → (n : ℤ) × (v ≡ int n))
unfolding is_bad_micros is_int
good_amount k v = (
  λ h e. is_int-whole v (ground arith),
  λ f. elim (Bool-cases (ends_codes (codes "_micros") (codes k))) [
    | inl amount ↦ let (n, e) = f amount in rw (amount, e) refl
    | inr other ↦ rw other refl
  ],
)

or-false : (a b : Bool) → a || b ≡ false → (a ≡ false) × (b ≡ false)
or-false false b h = (refl, h)
or-false true b h = cc

mutual
  unfolding contains_bad_micros AmountsWhole

  value_amounts : (v : Json) → contains_bad_micros v ≡ false ↔ AmountsWhole v
  value_amounts null = (λ h. tt, λ h. refl)
  value_amounts (bool b) = (λ h. tt, λ h. refl)
  value_amounts (int n) = (λ h. tt, λ h. refl)
  value_amounts (float m k) = (λ h. tt, λ h. refl)
  value_amounts (str s) = (λ h. tt, λ h. refl)
  value_amounts (arr xs) = item_amounts xs
  value_amounts (obj fs) = field_amounts fs

  item_amounts : (xs : Items) → items_bad_micros xs ≡ false ↔ AllAmountsWhole xs
  item_amounts nil = (λ h. tt, λ h. refl)
  item_amounts (cons x xs) = (
    λ h. let (a, b) = or-false _ _ h in ((value_amounts x).0 a, (item_amounts xs).0 b),
    λ (a, b). rw ((value_amounts x).1 a, (item_amounts xs).1 b) refl,
  )

  field_amounts : (fs : Fields) → fields_bad_micros fs ≡ false ↔ FieldAmountsWhole fs
  field_amounts end = (λ h. tt, λ h. refl)
  field_amounts (field k v rest) = (
    λ h.
        let (more, c) = or-false _ _ h in
        let (a, b) = or-false _ _ more in
        ((good_amount k v).0 a, (value_amounts v).0 b, (field_amounts rest).0 c),
    λ (a, b, c). rw ((good_amount k v).1 a, (value_amounts v).1 b, (field_amounts rest).1 c) refl,
  )

pub contains_bad_micros_lem : (v : Json) → contains_bad_micros v ≡ false ↔ AmountsWhole v
contains_bad_micros_lem v = value_amounts v
