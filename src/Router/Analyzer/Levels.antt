-- ===== src/Router/Analyzer/Levels.antt =====
-- The levels and the difficulty that router/task_analyzer.py raises.
use token_bank.Prelude.{
  ℕ, String, Bool, ◌||◌, ◌&&◌, Option, none, some, ltb, leb, str_eq, if◌then◌else◌,
}
use token_bank.Router.Model.{TaskLevel, level_order}
use token_bank.Router.Scorer.Fits.{difficulty_order}

-- _PRIVACY_ORDER, of "private", "internal" and "sensitive"
unfoldable pub privacy_order : String → ℕ
privacy_order p = if str_eq p "private" then 0 else if str_eq p "internal" then 1 else 2

-- _max_by_order
unfoldable pub max_by_order {ℓ} : {A : Type ℓ} → A → A → (A → ℕ) → A
max_by_order current target order = if ltb (order current) (order target) then target else current

-- _raised_privacy_level
unfoldable pub raised_privacy_level : String → Bool → Bool → String
unfolding max_by_order privacy_order
raised_privacy_level current raw private =
    max_by_order current (if raw || private then "sensitive" else current) privacy_order

-- difficulty in {"high", "expert"}
abbrev pub is_hard : String → Bool
is_hard difficulty = str_eq difficulty "high" || str_eq difficulty "expert"

-- the target level of `_raised_task_level`, as its tests overwrite it one after the other
unfoldable pub target_level : TaskLevel → String → Bool → Bool → TaskLevel
target_level current difficulty raw private =
    if raw
    then TaskLevel.l2
    else if private
    then TaskLevel.l1
    else if is_hard difficulty
    then TaskLevel.l2
    else current

-- _raised_task_level
unfoldable pub raised_task_level : TaskLevel → String → Bool → Bool → TaskLevel
unfolding max_by_order level_order target_level
raised_task_level current difficulty raw private =
    max_by_order current (target_level current difficulty raw private) level_order

abbrev is_difficulty : String → Bool
is_difficulty d =
    str_eq d "trivial"
    || str_eq d "easy"
    || str_eq d "medium"
    || str_eq d "high"
    || str_eq d "expert"

unfoldable pub target_difficulty : String → ℕ → ℕ → String
target_difficulty base token_total json_depth =
    if leb 32000 token_total
    then "expert"
    else if leb 16000 token_total
    then "high"
    else if leb 6 json_depth
    then "medium"
    else base

-- _raise_difficulty, and the check of the model that holds it
unfoldable pub raise_difficulty : String → ℕ → ℕ → Option String
unfolding target_difficulty difficulty_order
raise_difficulty base token_total json_depth =
    let target = target_difficulty base token_total json_depth in
    let raised = if ltb (difficulty_order base) (difficulty_order target) then target else base in
    if is_difficulty target && is_difficulty raised then some raised else none
