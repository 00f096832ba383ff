-- ===== src/Router/Privacy/Patterns.antt =====
-- The regular expressions of router/privacy_preflight.py.
use token_bank.Prelude.{ℕ, zero, suc, String, Bool, ◌||◌, ◌&&◌, List, [], ◌∷◌, any, leb, ◌==◌}
use token_bank.Text.{codes, is_alnum, is_token}
use token_bank.Text.Backtrack.{one, maybe, many, boundary, Expression}

-- a literal text, and `[class]{n}`, in front of an expression
abbrev spell : List ℕ → Expression → Expression
spell [] rest = rest
spell (c ∷ s) rest = one (λ d. c == d) ∷ spell s rest

abbrev times : ℕ → (ℕ → Bool) → Expression → Expression
times zero p rest = rest
times (suc n) p rest = one p ∷ times n p rest

abbrev pub one_of : String → ℕ → Bool
unfolding codes
one_of s c = any (λ d. d == c) (codes s)

abbrev is_upper : ℕ → Bool
is_upper c = leb b'A' c && leb c b'Z'

abbrev is_letter : ℕ → Bool
is_letter c = is_upper c || (leb b'a' c && leb c b'z')

abbrev is_ascii_digit : ℕ → Bool
is_ascii_digit c = leb b'0' c && leb c b'9'

-- _RAW_SECRET_PATTERNS
unfoldable pub raw_secret_patterns : List (String × Expression)
unfolding codes is_alnum is_token
raw_secret_patterns =
    (
      "openai_key_shape",
      boundary ∷ spell (codes "sk-") (times 12 is_token (many is_token ∷ boundary ∷ [])),
    )
    ∷ (
      "github_token_shape",
      boundary
          ∷ spell (codes "gh") (
              one (one_of "pousr")
              ∷ one (one_of "_")
              ∷ times 20 (λ c. is_alnum c || c == b'_')
                  (many (λ c. is_alnum c || c == b'_') ∷ boundary ∷ [])),
    )
    ∷ (
      "aws_access_key_shape",
      boundary
          ∷ spell (codes "AKIA") (times 16 (λ c. is_ascii_digit c || is_upper c) (boundary ∷ [])),
    )
    ∷ (
      "slack_token_shape",
      boundary
          ∷ spell (codes "xox") (
              one (one_of "baprs")
              ∷ one (one_of "-")
              ∷ times 20 (λ c. is_alnum c || c == b'-')
                  (many (λ c. is_alnum c || c == b'-') ∷ boundary ∷ [])),
    )
    ∷ (
      "private_key_block",
      spell (codes "-----BEGIN ")
          (many (λ c. is_upper c || c == b' ') ∷ spell (codes "PRIVATE KEY-----") []),
    )
    ∷ []

-- [A-Za-z0-9._%+-] and [A-Za-z0-9.-]
abbrev is_mailbox : ℕ → Bool
is_mailbox c = is_alnum c || one_of "._%+-" c

abbrev is_domain : ℕ → Bool
is_domain c = is_alnum c || one_of ".-" c

module _ (digit : ℕ → Bool) where
  -- [\d .()-]
  abbrev is_phone : ℕ → Bool
  is_phone c = digit c || one_of " .()-" c

  -- _PRIVATE_DATA_PATTERNS
  unfoldable pub private_data_patterns : List (String × Expression)
  unfolding codes is_alnum
  private_data_patterns =
      (
        "email_address",
        boundary
            ∷ one is_mailbox
            ∷ many is_mailbox
            ∷ one (one_of "@")
            ∷ one is_domain
            ∷ many is_domain
            ∷ one (one_of ".")
            ∷ times 2 is_letter (many is_letter ∷ boundary ∷ []),
      )
      ∷ (
        "us_ssn_shape",
        boundary
            ∷ times 3 digit (
                one (one_of "-")
                ∷ times 2 digit (one (one_of "-") ∷ times 4 digit (boundary ∷ []))),
      )
      ∷ (
        "phone_number_shape",
        boundary
            ∷ maybe (one_of "+")
            ∷ one digit
            ∷ times 8 is_phone (many is_phone ∷ one digit ∷ boundary ∷ []),
      )
      ∷ []
