-- ===== src/Router/Privacy.antt =====
-- router/privacy_preflight.py. `word` and `digit` are `re`'s \w and \d on `str`.
pub mod Laws
pub mod Patterns
use token_bank.Prelude.{
  ℕ, suc, ◌+◌, String, Bool, false, not, ◌||◌, ◌&&◌, List, [], ◌∷◌, ◌++◌, any, keep, ltb, leb, ◌==◌,
  if◌then◌else◌, none,
}
use token_bank.Json.{
  Json, Items, Fields, null, bool, int, float, str, arr, obj, nil, cons, end, field,
}
use token_bank.Text.{codes, key_codes, contains_codes, is_alnum}
use token_bank.Text.Backtrack.{one, Expression, count_from}
unfoldable pub use Patterns.*

-- _POSSIBLE_SECRET_KEYWORDS
abbrev possible_secret_keywords : List String
possible_secret_keywords = "secret" ∷ "token" ∷ "password" ∷ "bearer" ∷ "credential" ∷ []

abbrev is_opaque : ℕ → Bool
is_opaque c = is_alnum c || one_of "_./+=-" c

-- _LONG_OPAQUE_VALUE behind n characters of its class; `$` lets one newline follow
unfoldable pub is_long_opaque : ℕ → List ℕ → Bool
unfolding is_alnum codes
is_long_opaque n [] = leb 32 n
is_long_opaque n (c ∷ []) = if is_opaque c then leb 31 n else ((c == 10) && leb 32 n)
is_long_opaque n (c ∷ d ∷ s) = is_opaque c && is_long_opaque (suc n) (d ∷ s)

-- a text under a key with a keyword
unfoldable pub is_keyed_text : String → Json → Bool
unfolding codes key_codes contains_codes
is_keyed_text key (str s) =
    any (λ keyword. contains_codes (codes keyword) (key_codes key)) possible_secret_keywords
is_keyed_text key _ = false

abbrev count_if : Bool → ℕ
count_if b = if b then 1 else 0

unfoldable mutual
  unfolding is_long_opaque is_keyed_text codes

  pub possible_secret_count : Json → ℕ
  possible_secret_count null = 0
  possible_secret_count (bool b) = 0
  possible_secret_count (int n) = 0
  possible_secret_count (float m k) = 0
  possible_secret_count (str s) = count_if (is_long_opaque 0 (codes s))
  possible_secret_count (arr xs) = possible_secret_count_items xs
  possible_secret_count (obj fs) = possible_secret_count_fields fs

  pub possible_secret_count_items : Items → ℕ
  possible_secret_count_items nil = 0
  possible_secret_count_items (cons v xs) = possible_secret_count v + possible_secret_count_items xs

  pub possible_secret_count_fields : Fields → ℕ
  possible_secret_count_fields end = 0
  possible_secret_count_fields (field k v fs) =
      count_if (is_keyed_text k v) + possible_secret_count v + possible_secret_count_fields fs

unfoldable mutual
  pub string_values : Json → List String
  string_values null = []
  string_values (bool b) = []
  string_values (int n) = []
  string_values (float m k) = []
  string_values (str s) = s ∷ []
  string_values (arr xs) = string_values_items xs
  string_values (obj fs) = string_values_fields fs

  pub string_values_items : Items → List String
  string_values_items nil = []
  string_values_items (cons v xs) = string_values v ++ string_values_items xs

  pub string_values_fields : Fields → List String
  string_values_fields end = []
  string_values_fields (field k v fs) = string_values v ++ string_values_fields fs

pub record PrivacyScan : Type 0 where
  pub raw_secret_detected : Bool
  pub possible_secret_detected : Bool
  pub private_data_detected : Bool
  pub remote_eligible : Bool
  pub matched_signal_counts : List (String × ℕ)
  pub reason_codes : List String

abbrev pub any_counted : List (String × ℕ) → Bool
any_counted counts = any (λ (c : String × ℕ). ltb 0 c.1) counts

abbrev or_no_signal : List String → List String
or_no_signal [] = "no_privacy_signal_detected" ∷ []
or_no_signal (r ∷ rs) = r ∷ rs

abbrev reason_if : Bool → String → List String
reason_if b r = if b then r ∷ [] else []

module _ (word : ℕ → Bool) where
  -- the matches of one expression in all texts
  unfoldable pub total_count : Expression → List String → ℕ
  unfolding count_from codes
  total_count e [] = 0
  total_count e (t ∷ ts) = count_from word e 0 none (codes t) + total_count e ts

  unfoldable pub pattern_counts : List String → List (String × Expression) → List (String × ℕ)
  unfolding total_count
  pattern_counts texts [] = []
  pattern_counts texts (p ∷ ps) = (p.0, total_count p.1 texts) ∷ pattern_counts texts ps

  unfoldable pub scan_privacy : (ℕ → Bool) → Json → PrivacyScan
  unfolding pattern_counts raw_secret_patterns private_data_patterns possible_secret_count
      string_values
  scan_privacy digit value =
      let texts = string_values value in
      let raw_counts = pattern_counts texts raw_secret_patterns in
      let private_counts = pattern_counts texts (private_data_patterns digit) in
      let possible = possible_secret_count value in
      let raw = any_counted raw_counts in
      let private = any_counted private_counts in
      record {
        raw_secret_detected = raw;
        possible_secret_detected = raw || ltb 0 possible;
        private_data_detected = private;
        remote_eligible = not raw && not private;
        matched_signal_counts =
            keep (λ (c : String × ℕ). ltb 0 c.1)
              (raw_counts ++ private_counts ++ ("possible_secret_shape", possible) ∷ []);
        reason_codes = or_no_signal (
            reason_if raw "raw_secret_shape_detected"
            ++ reason_if (raw || ltb 0 possible) "possible_secret_detected"
            ++ reason_if private "private_data_detected");
      }
