-- ===== src/Redaction/Laws.antt =====
-- What `redact_sensitive_value` takes out, at every depth.
use token_bank.Prelude.{◌≡◌, refl, true, Bool-cases, inl, inr}
use token_bank.Json.{
  Json, Items, Fields, null, bool, int, float, str, arr, obj, nil, cons, end, field,
}
use token_bank.Redaction.{
  redacted_secret, is_secret_key, redact_sensitive_value, redact_items, redact_fields,
}

mutual
  -- Each field at any depth whose key names a secret holds nothing but the replacement.
  pub HidesSecrets : Json → Type 0
  HidesSecrets null = Unit
  HidesSecrets (bool b) = Unit
  HidesSecrets (int n) = Unit
  HidesSecrets (float m k) = Unit
  HidesSecrets (str s) = Unit
  HidesSecrets (arr xs) = AllHideSecrets xs
  HidesSecrets (obj fs) = FieldsHideSecrets fs

  pub AllHideSecrets : Items → Type 0
  AllHideSecrets nil = Unit
  AllHideSecrets (cons x xs) = HidesSecrets x × AllHideSecrets xs

  pub FieldsHideSecrets : Fields → Type 0
  FieldsHideSecrets end = Unit
  FieldsHideSecrets (field k v rest) =
      (is_secret_key k ≡ true → v ≡ str redacted_secret) × HidesSecrets v × FieldsHideSecrets rest

mutual
  unfolding redact_sensitive_value HidesSecrets

  hides_value : (v : Json) → HidesSecrets (redact_sensitive_value v)
  hides_value null = tt
  hides_value (bool b) = tt
  hides_value (int n) = tt
  hides_value (float m k) = tt
  hides_value (str s) = tt
  hides_value (arr xs) = hides_items xs
  hides_value (obj fs) = hides_fields fs

  hides_items : (xs : Items) → AllHideSecrets (redact_items xs)
  hides_items nil = tt
  hides_items (cons x xs) = (hides_value x, hides_items xs)

  hides_fields : (fs : Fields) → FieldsHideSecrets (redact_fields fs)
  hides_fields end = tt
  hides_fields (field k v rest) = elim (Bool-cases (is_secret_key k)) [
    | inl secret ↦ rw secret (λ _. refl, tt, hides_fields rest)
    | inr plain ↦ rw plain (λ e. cc, hides_value v, hides_fields rest)
  ]

-- In a redacted value each field whose key names a secret, at any depth, in objects and in lists,
-- holds nothing but the replacement text.
pub redact_sensitive_value-HidesSecrets : (v : Json) → HidesSecrets (redact_sensitive_value v)
redact_sensitive_value-HidesSecrets v = hides_value v
