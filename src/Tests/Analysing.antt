-- ===== src/Tests/Analysing.antt =====
-- The privacy preflight and the analyzer at an input with a key of a provider.
use token_bank.Prelude.{
  ℕ, ◌≤◌, String, ◌≡◌, ◌↔◌, ap, refl, Bool, true, false, ◌&&◌, Option, some, List, [], ◌∷◌, leb,
  ◌⊎◌,
}
use token_bank.Json.{Json, Fields, str, obj, end, field}
use token_bank.Router.Model.{TaskLevel, level_order, get_backend}
use token_bank.Router.Privacy.{
  raw_secret_patterns, private_data_patterns, total_count, pattern_counts, string_values,
  scan_privacy,
}
use token_bank.Text.{codes, is_alnum, is_token, is_word}
use token_bank.Text.Backtrack.{match_at, count_from}
use token_bank.Router.Privacy.Laws.{Carries, scan_privacy-Carries}
use token_bank.Router.Scorer.Ranking.{
  Trace, RouteScoringReport, last_with, report_if, ranked_scores, report_of, score_candidates,
  score,
}
use token_bank.Router.Scorer.Scores.{score_weights, candidate_trace}
use token_bank.Router.Analyzer.Scans.{AsksScan}
use token_bank.Router.Analyzer.{
  WorkUnit, BackendPrice, privacy_order, raise_difficulty, Analysis, analysis_of, analyze,
  report_view,
}
use token_bank.Router.Tokens.{estimate_text_tokens, estimated_output_tokens, default_output}
use token_bank.Router.Analyzer.Laws.{analyze-raises, analyze-denies, secret_keeps_selection}
use token_bank.Tests.Routing.{numbers, numbers-IsOrdered, plan, registry, profiles, task, or_empty}

abbrev is_digit : ℕ → Bool
is_digit c = leb b'0' c && leb c b'9'

abbrev word : ℕ → Bool
unfolding is_word
word = is_word

abbrev input : Fields
input = field "text" (str "my key is sk-abcdefghijklmnop") end

scan_privacy-Carries_example :
    ((scan_privacy word is_digit (obj input)).raw_secret_detected ≡ true
      ↔ Carries word raw_secret_patterns (obj input))
    × ((scan_privacy word is_digit (obj input)).private_data_detected ≡ true
        ↔ Carries word (private_data_patterns is_digit) (obj input))
    × ((scan_privacy word is_digit (obj input)).remote_eligible ≡ true ↔ (
        ¬ Carries word raw_secret_patterns (obj input)
        × ¬ Carries word (private_data_patterns is_digit) (obj input)))
scan_privacy-Carries_example = scan_privacy-Carries word is_digit (obj input)

detected : (scan_privacy word is_digit (obj input)).raw_secret_detected ≡ true
unfolding scan_privacy pattern_counts total_count count_from match_at raw_secret_patterns
    string_values codes is_alnum is_token is_word
detected = refl

not_private : (scan_privacy word is_digit (obj input)).private_data_detected ≡ false
unfolding scan_privacy pattern_counts total_count count_from match_at private_data_patterns
    string_values codes is_alnum is_word
not_private = refl

carries : Carries word raw_secret_patterns (obj input)
carries = (scan_privacy-Carries word is_digit (obj input)).0.0 detected

abbrev unit : WorkUnit
unit = record {
  work_unit_id = "wu_1";
  task_type = "dedup";
  task_level = TaskLevel.l0;
  privacy_level = "private";
  input_refs_count = 0;
  inline_input = input;
}

abbrev dumps : Json → String
dumps v = "{\"text\":\"my key is sk-abcdefghijklmnop\"}"

abbrev prices : List BackendPrice
prices = record { backend_id = "be_1"; input_unit_micros = 2; output_unit_micros = 3 } ∷ []

abbrev analysis : Analysis ℕ
analysis = analysis_of numbers word is_digit dumps prices unit (some plan) "easy" "dedup" "easy"

analysed :
    analyze numbers word is_digit dumps prices unit (some plan) "easy" "dedup" ≡ some analysis
unfolding analyze raise_difficulty estimate_text_tokens estimated_output_tokens default_output
analysed = refl

analyze-raises_example :
    (level_order unit.task_level ≤ level_order analysis.effective_task_level)
    × (privacy_order unit.privacy_level ≤ privacy_order analysis.effective_privacy_level)
    × (analysis.cost_estimate.min_cost_micros ≤ analysis.cost_estimate.expected_cost_micros)
    × (analysis.cost_estimate.expected_cost_micros ≤ analysis.cost_estimate.max_cost_micros)
analyze-raises_example =
    analyze-raises numbers word is_digit dumps prices unit (some plan) "easy" "dedup" analysis
      analysed

analyze-denies_example :
    analysis.preflight_decision ≡ "deny"
    ↔ (Carries word raw_secret_patterns (obj input) ⊎ AsksScan (obj input))
analyze-denies_example =
    analyze-denies numbers word is_digit dumps prices unit (some plan) "easy" "dedup" analysis
      analysed

abbrev scored : Option (List (Trace numbers))
scored =
    score_candidates numbers registry profiles
      (candidate_trace numbers "dedup" [] plan task (report_view analysis)
        (score_weights numbers []))
      plan.candidates

all_scored : scored ≡ some (or_empty scored)
unfolding score_candidates get_backend last_with
all_scored = refl

abbrev scoring : RouteScoringReport numbers
scoring =
    report_of numbers plan (score_weights numbers [])
      (ranked_scores numbers plan.candidates (or_empty scored)) (or_empty scored)

plan_scored :
    score numbers [] [] registry "dedup" plan task profiles (report_view analysis) ≡ some scoring
unfolding score
plan_scored = ap (report_if numbers plan (score_weights numbers [])) all_scored

secret_keeps_selection_example : scoring.selected_candidate_id ≡ plan.selected_candidate_id
secret_keeps_selection_example =
    secret_keeps_selection numbers word is_digit dumps prices unit (some plan) "easy" "dedup"
      analysis numbers-IsOrdered [] [] registry plan task profiles scoring analysed carries
      plan_scored
