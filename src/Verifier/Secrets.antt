-- ===== src/Verifier/Secrets.antt =====
-- A value has no secret path exactly if no text in it, at any depth, matches a secret pattern.
use Prim.Native.String.{◌++◌ as append}
use token_bank.Prelude.{
  ℕ, suc, String, ◌≡◌, refl, ◌↔◌, Bool, true, false, List, [], ◌∷◌, ◌++◌, if◌then◌else◌,
}
use token_bank.Json.{
  Json, Items, Fields, null, bool, int, float, str, arr, obj, nil, cons, end, field,
}
use token_bank.Text.Decimal.{decimal}
use token_bank.Verifier.Common.{is_leak, secret_paths, field_secret_paths, item_secret_paths}

unfoldable mutual
  pub SecretFree : Json → Type 0
  SecretFree null = Unit
  SecretFree (bool b) = Unit
  SecretFree (int n) = Unit
  SecretFree (float m k) = Unit
  SecretFree (str s) = is_leak s ≡ false
  SecretFree (arr xs) = AllSecretFree xs
  SecretFree (obj fs) = FieldsSecretFree fs

  pub AllSecretFree : Items → Type 0
  AllSecretFree nil = Unit
  AllSecretFree (cons x xs) = SecretFree x × AllSecretFree xs

  pub FieldsSecretFree : Fields → Type 0
  FieldsSecretFree end = Unit
  FieldsSecretFree (field k v rest) = SecretFree v × FieldsSecretFree rest

no_text : (b : Bool) (path : String) → (if b then path ∷ [] else []) ≡ [] ↔ b ≡ false
no_text true path = (λ h. cc, λ h. cc)
no_text false path = (λ h. refl, λ h. refl)

none_in_both :
    {A B : Type 0} (xs ys : List String) → xs ≡ [] ↔ A → ys ≡ [] ↔ B → xs ++ ys ≡ [] ↔ (A × B)
none_in_both [] ys f g = (λ h. (f.0 refl, g.0 h), λ (a, b). g.1 b)
none_in_both (x ∷ xs) ys f g = (λ h. cc, λ (a, b). cc (f.1 a))

mutual
  unfolding secret_paths SecretFree

  value_secrets : (v : Json) (path : String) → secret_paths v path ≡ [] ↔ SecretFree v
  value_secrets null path = (λ h. tt, λ h. refl)
  value_secrets (bool b) path = (λ h. tt, λ h. refl)
  value_secrets (int n) path = (λ h. tt, λ h. refl)
  value_secrets (float m k) path = (λ h. tt, λ h. refl)
  value_secrets (str s) path = no_text (is_leak s) path
  value_secrets (arr xs) path = item_secrets xs path 0
  value_secrets (obj fs) path = field_secrets fs path

  item_secrets :
      (xs : Items) (path : String) (i : ℕ) → item_secret_paths xs path i ≡ [] ↔ AllSecretFree xs
  item_secrets nil path i = (λ h. tt, λ h. refl)
  item_secrets (cons x xs) path i =
      none_in_both _ _ (value_secrets x (append path (append "[" (append (decimal i) "]"))))
        (item_secrets xs path (suc i))

  field_secrets :
      (fs : Fields) (path : String) → field_secret_paths fs path ≡ [] ↔ FieldsSecretFree fs
  field_secrets end path = (λ h. tt, λ h. refl)
  field_secrets (field k v rest) path =
      none_in_both _ _ (value_secrets v (append path (append "." k))) (field_secrets rest path)

pub secret_paths_lem : (v : Json) (path : String) → secret_paths v path ≡ [] ↔ SecretFree v
secret_paths_lem v path = value_secrets v path
