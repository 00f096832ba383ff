-- ===== src/Policy/Verdict/Keys.antt =====
-- A value is linted without an issue exactly if no key at any depth has a forbidden fragment.
use Prim.Native.String.{◌++◌ as append}
use token_bank.Prelude.{
  ℕ, suc, String, ◌≡◌, refl, ◌↔◌, Bool, true, false, ◌&&◌, List, [], ◌∷◌, ◌++◌, any, Bool-cases,
  inl, inr,
}
use token_bank.Json.{
  Json, Items, Fields, null, bool, int, float, str, arr, obj, nil, cons, end, field,
}
use token_bank.Text.{codes, contains_codes}
use token_bank.Text.Decimal.{decimal}
use token_bank.Policy.Extensions.{
  ExtensionLintIssue, forbidden_extension_key_fragments, normalize_key, lint_key,
  lint_extension_keys, lint_fields, lint_items,
}
use token_bank.Policy.Evaluation.{no_issues}

abbrev pub has_fragment : String → String → Bool
has_fragment key fragment = contains_codes (codes fragment) (normalize_key key)

abbrev pub IsFreeKey : String → Type 0
IsFreeKey key = any (has_fragment key) forbidden_extension_key_fragments ≡ false

mutual
  pub KeysFree : Json → Type 0
  KeysFree null = Unit
  KeysFree (bool b) = Unit
  KeysFree (int n) = Unit
  KeysFree (float m k) = Unit
  KeysFree (str s) = Unit
  KeysFree (arr xs) = AllKeysFree xs
  KeysFree (obj fs) = FieldKeysFree fs

  pub AllKeysFree : Items → Type 0
  AllKeysFree nil = Unit
  AllKeysFree (cons x xs) = KeysFree x × AllKeysFree xs

  pub FieldKeysFree : Fields → Type 0
  FieldKeysFree end = Unit
  FieldKeysFree (field k v rest) = (IsFreeKey k × KeysFree v) × FieldKeysFree rest

pub no_issues-append :
    (xs ys : List ExtensionLintIssue) → no_issues (xs ++ ys) ≡ no_issues xs && no_issues ys
no_issues-append [] ys = refl
no_issues-append (x ∷ xs) ys = refl

pub and-true : (a b : Bool) → a && b ≡ true → (a ≡ true) × (b ≡ true)
and-true true b h = (refl, h)
and-true false b h = cc

lint_key-free :
    (path key : String) (fragments : List String)
    → no_issues (lint_key path key fragments) ≡ true ↔ any (has_fragment key) fragments ≡ false
unfolding lint_key
lint_key-free path key [] = (λ h. refl, λ h. refl)
lint_key-free path key (f ∷ fs) = elim (Bool-cases (has_fragment key f)) [
  | inl found ↦ rw found (λ h. cc, λ h. cc)
  | inr absent ↦ rw absent (lint_key-free path key fs)
]

-- two lints one after the other
pub both :
    {A B : Type 0} (xs ys : List ExtensionLintIssue)
    → no_issues xs ≡ true ↔ A
    → no_issues ys ≡ true ↔ B
    → no_issues (xs ++ ys) ≡ true ↔ (A × B)
both xs ys f g = (
  λ h. let (a, b) = and-true _ _ (rw no_issues-append at h) in (f.0 a, g.0 b),
  λ (a, b). rw (no_issues-append, f.1 a, g.1 b) refl,
)

mutual
  unfolding lint_extension_keys KeysFree

  value_keys :
      (v : Json) (path : String) → no_issues (lint_extension_keys v path) ≡ true ↔ KeysFree v
  value_keys null path = (λ h. tt, λ h. refl)
  value_keys (bool b) path = (λ h. tt, λ h. refl)
  value_keys (int n) path = (λ h. tt, λ h. refl)
  value_keys (float m k) path = (λ h. tt, λ h. refl)
  value_keys (str s) path = (λ h. tt, λ h. refl)
  value_keys (arr xs) path = item_keys xs path 0
  value_keys (obj fs) path = field_keys fs path

  item_keys :
      (xs : Items) (path : String) (i : ℕ)
      → no_issues (lint_items xs path i) ≡ true ↔ AllKeysFree xs
  item_keys nil path i = (λ h. tt, λ h. refl)
  item_keys (cons x xs) path i =
      let inner = append path (append "[" (append (decimal i) "]")) in
      both (lint_extension_keys x inner) (lint_items xs path (suc i)) (value_keys x inner)
        (item_keys xs path (suc i))

  field_keys :
      (fs : Fields) (path : String) → no_issues (lint_fields fs path) ≡ true ↔ FieldKeysFree fs
  field_keys end path = (λ h. tt, λ h. refl)
  field_keys (field k v rest) path =
      let inner = append path (append "." k) in
      let of_key = lint_key path k forbidden_extension_key_fragments in
      both (of_key ++ lint_extension_keys v inner) (lint_fields rest path)
        (both of_key (lint_extension_keys v inner)
          (lint_key-free path k forbidden_extension_key_fragments) (value_keys v inner))
        (field_keys rest path)

pub lint_extension_keys_lem :
    (v : Json) (path : String) → no_issues (lint_extension_keys v path) ≡ true ↔ KeysFree v
lint_extension_keys_lem v path = value_keys v path
