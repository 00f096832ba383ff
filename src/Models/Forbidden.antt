-- ===== src/Models/Forbidden.antt =====
-- `_reject_forbidden_keys` of models/base.py, and what it is for.
use token_bank.Prelude.{
  String, ℕ, ◌≡◌, ◌↔◌, refl, Bool, true, false, ◌||◌, List, [], ◌∷◌, any, map, ◌==◌, if◌then◌else◌,
  arith,
}
use token_bank.Json.{
  Json, Items, Fields, null, bool, int, float, str, arr, obj, nil, cons, end, field,
}
use token_bank.Json.Nested.{
  Within, WithinItems, WithinFields, here, in_arr, in_obj, item, later_item, value, later_value,
  HasEntry, first, next,
}
use token_bank.Text.{codes, key_codes, contains_codes, same_codes}

-- _normalized_key: key.lower().replace("-", "_").replace(" ", "_")
unfoldable pub normalized_key : String → List ℕ
unfolding key_codes
normalized_key key = map (λ c. if c == b' ' then b'_' else c) (key_codes key)

-- FORBIDDEN_FIELD_KEY_FRAGMENTS
abbrev forbidden_fragments : List String
forbidden_fragments =
    "seller" ∷ "buyer" ∷ "marketplace" ∷ "payment" ∷ "payout" ∷ "settlement" ∷ "yield"
    ∷ "credit_trading" ∷ "account_pool" ∷ "oauth" ∷ "cookie" ∷ "api_key" ∷ "api_key_sharing" ∷ []

-- the test of one key, which may not be "apr" either
unfoldable pub is_forbidden_key : String → Bool
unfolding normalized_key codes contains_codes same_codes
is_forbidden_key key =
    same_codes (normalized_key key) (codes "apr")
    || any (λ fragment. contains_codes (codes fragment) (normalized_key key)) forbidden_fragments

-- whether the ValueError is raised
unfoldable mutual
  unfolding is_forbidden_key

  pub rejects : Json → Bool
  rejects null = false
  rejects (bool b) = false
  rejects (int n) = false
  rejects (float m k) = false
  rejects (str s) = false
  rejects (arr xs) = rejects_items xs
  rejects (obj fs) = rejects_fields fs

  pub rejects_items : Items → Bool
  rejects_items nil = false
  rejects_items (cons v xs) = rejects v || rejects_items xs

  pub rejects_fields : Fields → Bool
  rejects_fields end = false
  rejects_fields (field k v fs) = is_forbidden_key k || (rejects v || rejects_fields fs)

or-false : (a b : Bool) → (a || b) ≡ false → (a ≡ false) × (b ≡ false)
or-false false b h = (refl, h)
or-false true b h = cc

mutual
  unfolding rejects

  clean-Within : (x v : Json) → rejects v ≡ false → Within x v → rejects x ≡ false
  clean-Within x v h here = h
  clean-Within x (arr xs) h (in_arr m) = clean_items-Within x xs h m
  clean-Within x (obj fs) h (in_obj m) = clean_fields-Within x fs h m

  clean_items-Within :
      (x : Json) (xs : Items) → rejects_items xs ≡ false → WithinItems x xs → rejects x ≡ false
  clean_items-Within x nil h m = elim m [ ]
  clean_items-Within x (cons v xs) h (item m) =
      clean-Within x v (or-false (rejects v) (rejects_items xs) h).0 m
  clean_items-Within x (cons v xs) h (later_item m) =
      clean_items-Within x xs (or-false (rejects v) (rejects_items xs) h).1 m

  clean_fields-Within :
      (x : Json) (fs : Fields) → rejects_fields fs ≡ false → WithinFields x fs → rejects x ≡ false
  clean_fields-Within x end h m = elim m [ ]
  clean_fields-Within x (field k v fs) h (value m) =
      clean-Within x v
        (or-false (rejects v) (rejects_fields fs)
          (or-false (is_forbidden_key k) (rejects v || rejects_fields fs) h).1).0
        m
  clean_fields-Within x (field k v fs) h (later_value m) =
      clean_fields-Within x fs
        (or-false (rejects v) (rejects_fields fs)
          (or-false (is_forbidden_key k) (rejects v || rejects_fields fs) h).1).1
        m

clean_entry :
    (k : String) (u : Json) (fs : Fields)
    → rejects_fields fs ≡ false
    → HasEntry k u fs
    → is_forbidden_key k ≡ false
unfolding rejects
clean_entry k u end h m = elim m [ ]
clean_entry k u (field _ v fs) h first =
    (or-false (is_forbidden_key k) (rejects v || rejects_fields fs) h).0
clean_entry k u (field j v fs) h (next m) =
    clean_entry k u fs
      (or-false (rejects v) (rejects_fields fs)
        (or-false (is_forbidden_key j) (rejects v || rejects_fields fs) h).1).1
      m

-- No key of a `dict` inside the value is forbidden.
abbrev pub IsClean : Json → Type 0
IsClean v =
    (fs : Fields) (k : String) (u : Json)
    → Within (obj fs) v
    → HasEntry k u fs
    → is_forbidden_key k ≡ false

both_false : (a b : Bool) → a ≡ false → b ≡ false → (a || b) ≡ false
both_false a b h k = ground arith

mutual
  unfolding rejects

  accepts_clean : (v : Json) → IsClean v → rejects v ≡ false
  accepts_clean null h = refl
  accepts_clean (bool b) h = refl
  accepts_clean (int n) h = refl
  accepts_clean (float m k) h = refl
  accepts_clean (str s) h = refl
  accepts_clean (arr xs) h = accepts_items xs (λ fs k u m. h fs k u (in_arr m))
  accepts_clean (obj gs) h =
      accepts_fields gs (λ k u. h gs k u here) (λ fs k u m. h fs k u (in_obj m))

  accepts_items :
      (xs : Items)
      → ((fs : Fields) (k : String) (u : Json)
          → WithinItems (obj fs) xs
          → HasEntry k u fs
          → is_forbidden_key k ≡ false)
      → rejects_items xs ≡ false
  accepts_items nil h = refl
  accepts_items (cons v xs) h =
      both_false (rejects v) (rejects_items xs) (accepts_clean v (λ fs k u m. h fs k u (item m)))
        (accepts_items xs (λ fs k u m. h fs k u (later_item m)))

  accepts_fields :
      (gs : Fields)
      → ((k : String) (u : Json) → HasEntry k u gs → is_forbidden_key k ≡ false)
      → ((fs : Fields) (k : String) (u : Json)
          → WithinFields (obj fs) gs
          → HasEntry k u fs
          → is_forbidden_key k ≡ false)
      → rejects_fields gs ≡ false
  accepts_fields end own h = refl
  accepts_fields (field j v gs) own h =
      both_false (is_forbidden_key j) (rejects v || rejects_fields gs) (own j v first) (
        both_false (rejects v) (rejects_fields gs)
          (accepts_clean v (λ fs k u m. h fs k u (value m)))
          (accepts_fields gs (λ k u e. own k u (next e)) (λ fs k u m. h fs k u (later_value m))))

-- The check before a model accepts a value exactly if no key of a `dict` inside it, at any depth, is
-- forbidden.
pub rejects-IsClean : (v : Json) → rejects v ≡ false ↔ IsClean v
unfolding rejects
rejects-IsClean v =
    (λ h fs k u m e. clean_entry k u fs (clean-Within (obj fs) v h m) e, accepts_clean v)
