-- ===== src/Text.antt =====
-- What the program uses of `str` and `re`: whole-text operations, and the regular expressions that
-- are a row of character classes, each taken once or greedily many times. In each expression of the
-- program a repeated class and the class behind it have no character in common, so that `re` never
-- has to backtrack into a repetition.
pub mod Decimal
pub mod Backtrack
pub mod Matching
use Prim.Native.Char.{code}
use Prim.Native.String.{[], ◌∷◌, ◌++◌ as append}
use token_bank.Prelude.{
  ℕ, zero, suc, ◌+◌, ◌-◌, String, Bool, true, false, ◌&&◌, ◌||◌, Option, none, some, List, leb,
  ◌==◌, if◌then◌else◌,
}
use token_bank.Prelude

pub data Item : Type 0 where
  one : (ℕ → Bool) → Item  -- [class]
  many1 : (ℕ → Bool) → Item  -- [class]+
  many0 : (ℕ → Bool) → Item  -- [class]*

abbrev pub Pattern : Type 0
Pattern = List Item

-- How many characters at the start of the text lie in the class.
unfoldable pub run_length : (ℕ → Bool) → String → ℕ
run_length p [] = 0
run_length p (c ∷ s) = let rest = run_length p s in if p (code c) then suc rest else 0

unfoldable pub drop_chars : ℕ → String → String
drop_chars zero s = s
drop_chars (suc n) [] = []
drop_chars (suc n) (c ∷ s) = drop_chars n s

-- s[:n]
unfoldable pub take_chars : ℕ → String → String
take_chars zero s = []
take_chars (suc n) [] = []
take_chars (suc n) (c ∷ s) = c ∷ take_chars n s

abbrev add_to : ℕ → Option ℕ → Option ℕ
add_to n none = none
add_to n (some m) = some (n + m)

abbrev take_one : (ℕ → Bool) → String → Bool
take_one p [] = false
take_one p (c ∷ s) = p (code c)

-- `re.match`: the number of characters that the expression takes at the start of the text
unfoldable pub match_length : Pattern → String → Option ℕ
unfolding run_length drop_chars
match_length Prelude.[] s = some 0
match_length (Prelude.◌∷◌ (one p) rest) s =
    let tail = add_to 1 (match_length rest (drop_chars 1 s)) in if take_one p s then tail else none
match_length (Prelude.◌∷◌ (many1 p) rest) s =
    let n = run_length p s in
    let tail = add_to n (match_length rest (drop_chars n s)) in if n == 0 then none else tail
match_length (Prelude.◌∷◌ (many0 p) rest) s =
    let n = run_length p s in add_to n (match_length rest (drop_chars n s))

-- `re.search(...) is not None`
unfoldable pub found_in : Pattern → String → Bool
unfolding match_length
found_in p [] = elim (match_length p []) [ none ↦ false | some n ↦ true ]
found_in p (c ∷ s) = elim (match_length p (c ∷ s)) [ none ↦ found_in p s | some n ↦ true ]

-- `re.sub` from left to right; `skip` characters of the last match are still to be passed over
unfoldable pub sub_from : Pattern → String → ℕ → String → String
unfolding match_length
sub_from p replacement skip [] = []
sub_from p replacement (suc skip) (c ∷ s) = sub_from p replacement skip s
sub_from p replacement zero (c ∷ s) = elim (match_length p (c ∷ s)) [
  | none ↦ c ∷ sub_from p replacement 0 s
  | some n ↦ append replacement (sub_from p replacement (n - 1) s)
]

unfoldable pub sub : Pattern → String → String → String
unfolding sub_from
sub p replacement s = sub_from p replacement 0 s

-- `str.lower()`, and `_` for each `-`, as in `str(key).lower().replace("-", "_")`. Beside A-Z, only
-- the Kelvin sign has an ASCII letter as its lower case. The dotted capital I becomes an i with a
-- combining dot behind it, and no text that is looked for ends in an i. Other letters stay as they
-- are here, since the texts that are looked for are ASCII.
unfoldable pub key_code : ℕ → ℕ
key_code c =
    if leb b'A' c && leb c b'Z'
    then c + 32
    else if c == 0x212a
    then b'k'
    else if c == b'-'
    then b'_'
    else c

unfoldable pub codes : String → List ℕ
codes [] = Prelude.[]
codes (c ∷ s) = Prelude.◌∷◌ (code c) (codes s)

unfoldable pub key_codes : String → List ℕ
unfolding key_code
key_codes [] = Prelude.[]
key_codes (c ∷ s) = Prelude.◌∷◌ (key_code (code c)) (key_codes s)

-- list equality at the front, and `fragment in text`
unfoldable pub starts_codes : List ℕ → List ℕ → Bool
starts_codes Prelude.[] t = true
starts_codes (Prelude.◌∷◌ a f) Prelude.[] = false
starts_codes (Prelude.◌∷◌ a f) (Prelude.◌∷◌ b t) = (a == b) && starts_codes f t

unfoldable pub contains_codes : List ℕ → List ℕ → Bool
unfolding starts_codes
contains_codes f Prelude.[] = starts_codes f Prelude.[]
contains_codes f (Prelude.◌∷◌ b t) = starts_codes f (Prelude.◌∷◌ b t) || contains_codes f t

-- `text.endswith(suffix)`
unfoldable pub same_codes : List ℕ → List ℕ → Bool
same_codes Prelude.[] Prelude.[] = true
same_codes Prelude.[] (Prelude.◌∷◌ b t) = false
same_codes (Prelude.◌∷◌ a f) Prelude.[] = false
same_codes (Prelude.◌∷◌ a f) (Prelude.◌∷◌ b t) = (a == b) && same_codes f t

unfoldable pub ends_codes : List ℕ → List ℕ → Bool
unfolding same_codes
ends_codes f Prelude.[] = same_codes f Prelude.[]
ends_codes f (Prelude.◌∷◌ b t) = same_codes f (Prelude.◌∷◌ b t) || ends_codes f t

-- `re`'s \s on `str`, and the classes that the expressions share
unfoldable pub is_space : ℕ → Bool
is_space c =
    (leb 9 c && leb c 13)
    || (leb 28 c && leb c 32)
    || c == 0x85
    || c == 0xa0
    || c == 0x1680
    || (leb 0x2000 c && leb c 0x200a)
    || c == 0x2028
    || c == 0x2029
    || c == 0x202f
    || c == 0x205f
    || c == 0x3000

unfoldable pub is_alnum : ℕ → Bool
is_alnum c = (leb b'A' c && leb c b'Z') || (leb b'a' c && leb c b'z') || (leb b'0' c && leb c b'9')

-- [A-Za-z0-9_] and [A-Za-z0-9_-]
unfoldable pub is_word : ℕ → Bool
unfolding is_alnum
is_word c = is_alnum c || c == b'_'

unfoldable pub is_token : ℕ → Bool
unfolding is_word
is_token c = is_word c || c == b'-'

-- one letter of a text under (?i): for `re`, the dotted and the dotless i are an i too
unfoldable pub same_letter : ℕ → ℕ → Bool
unfolding key_code
same_letter c d = key_code c == key_code d || (c == b'i' && (d == 0x130 || d == 0x131))

-- The literal text in front of an expression, and the same under (?i).
unfoldable pub literal : String → Pattern → Pattern
literal [] rest = rest
literal (c ∷ s) rest = Prelude.◌∷◌ (one (λ d. code c == d)) (literal s rest)

unfoldable pub literal_any_case : String → Pattern → Pattern
unfolding same_letter
literal_any_case [] rest = rest
literal_any_case (c ∷ s) rest =
    Prelude.◌∷◌ (one (λ d. same_letter (code c) d)) (literal_any_case s rest)
