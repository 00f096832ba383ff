-- ===== src/Text/Backtrack.antt =====
-- The regular expressions of router/privacy_preflight.py, as `re` matches them: greedy, with
-- backtracking. A repetition `X{n,}` is `X` n times and then `X*`. `is_word` is `re`'s \w on `str`.
use token_bank.Prelude.{
  ℕ, zero, suc, ◌-◌, Bool, true, false, not, Option, none, some, List, [], ◌∷◌,
}

pub data Part : Type 0 where
  one : (ℕ → Bool) → Part  -- [class]
  maybe : (ℕ → Bool) → Part  -- [class]?
  many : (ℕ → Bool) → Part  -- [class]*
  boundary : Part  -- \b

abbrev pub Expression : Type 0
Expression = List Part

-- the character before, and the one behind
abbrev is_word_at : (ℕ → Bool) → Option ℕ → Bool
is_word_at is_word none = false
is_word_at is_word (some c) = is_word c

abbrev head_of : List ℕ → Option ℕ
head_of [] = none
head_of (c ∷ s) = some c

abbrev differ : Bool → Bool → Bool
differ true b = not b
differ false b = b

abbrev pub or_try : Option ℕ → Option ℕ → Option ℕ
or_try (some n) other = some n
or_try none other = other

abbrev pub one_more : Option ℕ → Option ℕ
one_more none = none
one_more (some n) = some (suc n)

abbrev pub when : Bool → Option ℕ → Option ℕ
when true n = n
when false n = none

module _ (is_word : ℕ → Bool) where
  abbrev pub is_boundary : Option ℕ → List ℕ → Bool
  is_boundary before s = differ (is_word_at is_word before) (is_word_at is_word (head_of s))

  -- how many characters the first match at this place takes
  unfoldable pub match_at : Expression → Option ℕ → List ℕ → Option ℕ
  match_at [] before s = some 0
  match_at (one p ∷ r) before [] = none
  match_at (one p ∷ r) before (c ∷ s) = when (p c) (one_more (match_at r (some c) s))
  match_at (maybe p ∷ r) before [] = match_at r before []
  match_at (maybe p ∷ r) before (c ∷ s) =
      or_try (when (p c) (one_more (match_at r (some c) s))) (match_at r before (c ∷ s))
  match_at (many p ∷ r) before [] = match_at r before []
  match_at (many p ∷ r) before (c ∷ s) =
      or_try (when (p c) (one_more (match_at (many p ∷ r) (some c) s))) (match_at r before (c ∷ s))
  match_at (boundary ∷ r) before s = when (is_boundary before s) (match_at r before s)

  -- len(pattern.findall(text)); `skip` characters of the last match are still to be passed over. No
  -- expression of the program matches the empty text.
  unfoldable pub count_from : Expression → ℕ → Option ℕ → List ℕ → ℕ
  unfolding match_at
  count_from e skip before [] = 0
  count_from e (suc skip) before (c ∷ s) = count_from e skip (some c) s
  count_from e zero before (c ∷ s) = elim (match_at e before (c ∷ s)) [
    | none ↦ count_from e 0 (some c) s
    | some n ↦ suc (count_from e (n - 1) (some c) s)
  ]
