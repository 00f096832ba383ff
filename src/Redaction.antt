-- ===== src/Redaction.antt =====
-- core/redaction.py
pub mod Laws
use token_bank.Prelude.{ℕ, String, Bool, ◌||◌, List, [], ◌∷◌, any, ◌==◌, if◌then◌else◌}
use token_bank.Json.{
  Json, Items, Fields, null, bool, int, float, str, arr, obj, nil, cons, end, field,
}
use token_bank.Text.{
  Pattern, many1, sub, codes, key_codes, contains_codes, is_space, is_word, is_token, literal,
  literal_any_case,
}

abbrev pub secret_key_fragments : List String
secret_key_fragments =
    "api_key" ∷ "apikey" ∷ "bearer" ∷ "cookie" ∷ "credential" ∷ "oauth" ∷ "provider_secret"
    ∷ "provider_token" ∷ "refresh_token" ∷ "secret" ∷ "token" ∷ []

-- [A-Za-z0-9._~+/=-]
is_bearer_char : ℕ → Bool
unfolding is_word
is_bearer_char c =
    is_word c || c == b'.' || c == b'~' || c == b'+' || c == b'/' || c == b'=' || c == b'-'

secret_value_patterns : List Pattern
unfolding literal literal_any_case is_word is_token is_space is_bearer_char
secret_value_patterns =
    literal "sk-" (many1 is_token ∷ [])
    ∷ literal_any_case "bearer" (many1 is_space ∷ many1 is_bearer_char ∷ [])
    ∷ literal "tbk_h_" (many1 is_word ∷ [])
    ∷ literal "tbk_w_" (many1 is_word ∷ [])
    ∷ literal "tbk_i_" (many1 is_word ∷ [])
    ∷ literal "tbk_l_" (many1 is_token ∷ [])
    ∷ []

abbrev pub redacted_secret : String
redacted_secret = "[REDACTED_SECRET]"

-- `for pattern in patterns: redacted = re.sub(pattern, replacement, redacted)`
unfoldable pub sub_all : List Pattern → String → String → String
unfolding sub
sub_all [] replacement text = text
sub_all (p ∷ ps) replacement text = sub_all ps replacement (sub p replacement text)

abbrev pub default_token_prefix_patterns : List Pattern
unfolding literal is_word
default_token_prefix_patterns =
    literal "tbk_h_" (many1 is_word ∷ [])
    ∷ literal "tbk_w_" (many1 is_word ∷ [])
    ∷ literal "tbk_i_" (many1 is_word ∷ [])
    ∷ []

unfoldable pub redact_token_prefixes : String → List Pattern → String → String
unfolding sub_all
redact_token_prefixes text patterns replacement = sub_all patterns replacement text

unfoldable pub is_secret_key : String → Bool
unfolding key_codes contains_codes codes
is_secret_key key =
    any (λ fragment. contains_codes (codes fragment) (key_codes key)) secret_key_fragments

unfoldable mutual
  unfolding is_secret_key sub_all secret_value_patterns

  pub redact_sensitive_value : Json → Json
  redact_sensitive_value null = null
  redact_sensitive_value (bool b) = bool b
  redact_sensitive_value (int n) = int n
  redact_sensitive_value (float m k) = float m k
  redact_sensitive_value (str s) = str (sub_all secret_value_patterns redacted_secret s)
  redact_sensitive_value (arr xs) = arr (redact_items xs)
  redact_sensitive_value (obj fs) = obj (redact_fields fs)

  pub redact_items : Items → Items
  redact_items nil = nil
  redact_items (cons x xs) = cons (redact_sensitive_value x) (redact_items xs)

  pub redact_fields : Fields → Fields
  redact_fields end = end
  redact_fields (field k v rest) =
      field k (if is_secret_key k then str redacted_secret else redact_sensitive_value v)
        (redact_fields rest)
