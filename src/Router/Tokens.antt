-- ===== src/Router/Tokens.antt =====
-- router/token_estimator.py. `dumps` is `canonical_json_dumps`, and a quotient by a small number is
-- rounded up without an error of floats, as it is for every text below 2 ^ 53 characters.
use token_bank.Prelude.{
  String, ℕ, suc, ◌+◌, ◌*◌, ◌/◌, ◌≤◌, ◌≡◌, refl, length, max, min, ◌==◌, str_eq, if◌then◌else◌,
  arith, Bool-cases, inl, inr,
}
use token_bank.Json.{Json, Items, Fields, str, arr, obj, nil, cons, get, truthy}
use token_bank.Text.{codes}

-- len(text)
abbrev pub text_length : String → ℕ
text_length s = length (codes s)

abbrev pub items_length : Items → ℕ
items_length nil = 0
items_length (cons x xs) = suc (items_length xs)

-- ceil(n / d) for a numeral d
abbrev pub quarter_up : ℕ → ℕ
quarter_up n = (n + 3) / 4

abbrev pub twelfth_up : ℕ → ℕ
twelfth_up n = (n + 11) / 12

abbrev pub sixteenth_up : ℕ → ℕ
sixteenth_up n = (n + 15) / 16

-- _estimate_text_tokens
unfoldable pub estimate_text_tokens : String → ℕ
unfolding codes
estimate_text_tokens text =
    if text_length text == 0 then 0 else max 1 (quarter_up (text_length text))

-- _DEFAULT_OUTPUT_TOKENS_BY_TASK_TYPE.get(task_type, 256)
unfoldable pub default_output : String → ℕ
default_output t =
    if str_eq t "url_check"
    then 64
    else if str_eq t "dedup"
    then 128
    else if str_eq t "webpage_extraction"
    then 512
    else if str_eq t "topic_classification"
    then 96
    else if str_eq t "claim_extraction"
    then 512
    else 256

-- value.get("text") or value.get("html")
abbrev or_html : Fields → Json
or_html input = let text = get input "text" in if truthy text then text else get input "html"

abbrev dedup_output : ℕ → Json → ℕ
dedup_output default (arr xs) = max default (items_length xs * 12)
dedup_output default _ = default

abbrev claim_output : ℕ → Json → ℕ
claim_output default (str s) = max default (min 2048 (twelfth_up (text_length s)))
claim_output default _ = default

abbrev page_output : ℕ → Json → ℕ
page_output default (str s) = max default (min 2048 (sixteenth_up (text_length s)))
page_output default _ = default

-- _estimated_output_tokens
unfoldable pub estimated_output_tokens : String → Fields → ℕ
unfolding get truthy codes
estimated_output_tokens task_type input =
    let default = default_output task_type in
    if str_eq task_type "dedup"
    then dedup_output default (get input "items")
    else if str_eq task_type "claim_extraction"
    then claim_output default (get input "text")
    else if str_eq task_type "webpage_extraction"
    then page_output default (or_html input)
    else default

pub record TokenEstimate : Type 0 where
  pub input_tokens : ℕ
  pub output_tokens : ℕ
  pub total_tokens : ℕ

unfoldable pub estimate_tokens : (Json → String) → String → Fields → TokenEstimate
estimate_tokens dumps task_type input =
    let input_tokens = estimate_text_tokens (dumps (obj input)) in
    let output_tokens = estimated_output_tokens task_type input in
    record {
      input_tokens = input_tokens;
      output_tokens = output_tokens;
      total_tokens = input_tokens + output_tokens;
    }

-- the number of items that are given, if there is a list of them
abbrev pub item_count : Json → ℕ
item_count (arr xs) = items_length xs
item_count _ = 0

dedup_bounds :
    (d : ℕ) (v : Json) → (d ≤ dedup_output d v) × (dedup_output d v ≤ max d (12 * item_count v))
dedup_bounds d (arr xs) = omega arith
dedup_bounds d _ = omega arith

claim_bounds : (d : ℕ) (v : Json) → (d ≤ claim_output d v) × (claim_output d v ≤ max d 2048)
claim_bounds d (str s) = omega arith
claim_bounds d _ = omega arith

page_bounds : (d : ℕ) (v : Json) → (d ≤ page_output d v) × (page_output d v ≤ max d 2048)
page_bounds d (str s) = omega arith
page_bounds d _ = omega arith

default-le : (t : String) → default_output t ≤ 512
unfolding default_output
default-le t = ground arith

output_bounds :
    (t : String) (input : Fields)
    → (default_output t ≤ estimated_output_tokens t input)
      × (estimated_output_tokens t input ≤ max 2048 (12 * item_count (get input "items")))
unfolding estimated_output_tokens
output_bounds t input =
    let small = default-le t in
    elim (Bool-cases (str_eq t "dedup")) [
      | inl dedup ↦ rw dedup (omega (arith, dedup_bounds (default_output t) (get input "items")))
      | inr _ ↦ elim (Bool-cases (str_eq t "claim_extraction")) [
        | inl claim ↦ ground (arith, claim_bounds (default_output t) (get input "text"))
        | inr _ ↦ elim (Bool-cases (str_eq t "webpage_extraction")) [
          | inl page ↦ ground (arith, page_bounds (default_output t) (or_html input))
          | inr _ ↦ ground arith
        ]
      ]
    ]

text_bounds :
    (s : String)
    → (text_length s ≤ 4 * estimate_text_tokens s)
      × (4 * estimate_text_tokens s ≤ text_length s + 3)
unfolding estimate_text_tokens
text_bounds s = ground arith

-- An estimate counts one input token for each four characters of the canonical text, rounded up; its
-- output lies between the default of the task type and the larger of 2048 and twelve for each item
-- that is given; and the total is their sum.
pub estimate_tokens_bounds :
    (dumps : Json → String) (task_type : String) (input : Fields)
    → (text_length (dumps (obj input)) ≤ 4 * (estimate_tokens dumps task_type input).input_tokens)
      × (4 * (estimate_tokens dumps task_type input).input_tokens
          ≤ text_length (dumps (obj input)) + 3)
      × (default_output task_type ≤ (estimate_tokens dumps task_type input).output_tokens)
      × ((estimate_tokens dumps task_type input).output_tokens
          ≤ max 2048 (12 * item_count (get input "items")))
      × ((estimate_tokens dumps task_type input).total_tokens
          ≡ (estimate_tokens dumps task_type input).input_tokens
            + (estimate_tokens dumps task_type input).output_tokens)
unfolding estimate_tokens
estimate_tokens_bounds dumps task_type input =
    let (covers, tight) = text_bounds (dumps (obj input)) in
    let (least, most) = output_bounds task_type input in (covers, tight, least, most, refl)
