-- ===== src/Ledger/Amounts.antt =====
-- The amounts of a usage entry: the first half of `_build_usage_entry` of ledger/usage.py.
use token_bank.Prelude.{
  ℕ, ◌+◌, String, Bool, false, ◌||◌, List, [], ◌∷◌, any, max, ltb, str_eq, if◌then◌else◌,
}
use token_bank.Prelude.Int.{pos}
use token_bank.Json.{Json, Fields, int, str, get}

unfoldable pub non_negative_int : Json → ℕ
non_negative_int (int (pos n)) = n
non_negative_int _ = 0

-- `sum(_non_negative_int(item.get(key)) for item in items)`
unfoldable pub sum_of : String → List Fields → ℕ
unfolding non_negative_int get
sum_of key [] = 0
sum_of key (item ∷ items) = non_negative_int (get item key) + sum_of key items

abbrev is_measured : Json → Bool
is_measured (str s) = str_eq s "measured"
is_measured _ = false

pub record UsageAmounts : Type 0 where
  pub input_units : ℕ
  pub output_units : ℕ
  pub estimated_cost : ℕ
  pub actual_cost : ℕ
  pub provider_reported : Bool

-- the amounts in a result's body and its `usage_records`
unfoldable pub usage_amounts : Fields → List Fields → UsageAmounts
unfolding sum_of non_negative_int get
usage_amounts result_body records =
    let actual =
      max (non_negative_int (get result_body "actual_cost_micros"))
        (sum_of "actual_cost_micros" records) in
    record {
      input_units = sum_of "input_units" records;
      output_units = sum_of "output_units" records;
      estimated_cost =
          max (non_negative_int (get result_body "cost_estimate_micros"))
            (sum_of "estimated_cost_micros" records);
      actual_cost = actual;
      provider_reported =
          ltb 0 actual || any (λ item. is_measured (get item "cost_source")) records;
    }

unfoldable pub usage_source_of : UsageAmounts → String
usage_source_of a = if a.provider_reported then "provider_response" else "estimate"

unfoldable pub cost_source_of : UsageAmounts → String
cost_source_of a =
    if a.provider_reported
    then "provider_reported"
    else if ltb 0 a.estimated_cost
    then "estimated"
    else "not_applicable"

unfoldable pub billable_cost : UsageAmounts → ℕ
billable_cost a = if a.provider_reported then a.actual_cost else a.estimated_cost
