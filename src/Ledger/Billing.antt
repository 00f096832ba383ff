-- ===== src/Ledger/Billing.antt =====
-- What the bill of a usage entry has to do with the costs that were reported.
use token_bank.Prelude.{ℕ, ◌+◌, ◌≤◌, String, List, [], ◌∷◌, All, All-map, max, arith}
use token_bank.Json.{Fields, get}
use token_bank.Ledger.Amounts.{non_negative_int, sum_of, usage_amounts, billable_cost}

-- an amount in one `dict`
abbrev pub amount : String → Fields → ℕ
amount key item = non_negative_int (get item key)

le-sum_of :
    (key : String) (items : List Fields) → All (λ item. amount key item ≤ sum_of key items) items
unfolding sum_of
le-sum_of key [] = tt
le-sum_of key (item ∷ items) = (
  omega arith,
  All-map {P = λ x. amount key x ≤ sum_of key items}
      {Q = λ x. amount key x ≤ amount key item + sum_of key items}
      (λ x (h : amount key x ≤ sum_of key items). omega arith) items (le-sum_of key items),
)

-- the costs of a result in one place: its own and the sum over its usage records
abbrev pub cost : String → String → Fields → List Fields → ℕ
cost own each result_body records = max (amount own result_body) (sum_of each records)

billed :
    (result_body : Fields) (records : List Fields)
    → (cost "actual_cost_micros" "actual_cost_micros" result_body records
        ≤ billable_cost (usage_amounts result_body records))
      × (billable_cost (usage_amounts result_body records)
          ≤ max
              (cost "actual_cost_micros" "actual_cost_micros" result_body records)
              (cost "cost_estimate_micros" "estimated_cost_micros" result_body records))
unfolding usage_amounts billable_cost
billed result_body records = ground arith

-- The billable cost of a result and its usage records covers the actual cost of the result and that of
-- each record. It is never above the larger of the actual and the estimated cost, each of which is
-- the larger of the result's own amount and the sum over its records.
pub billable_cost_bounds :
    (result_body : Fields) (records : List Fields)
    → (amount "actual_cost_micros" result_body ≤ billable_cost (usage_amounts result_body records))
      × All
          (λ item.
            amount "actual_cost_micros" item ≤ billable_cost (usage_amounts result_body records))
          records
      × (billable_cost (usage_amounts result_body records)
          ≤ max
              (cost "actual_cost_micros" "actual_cost_micros" result_body records)
              (cost "cost_estimate_micros" "estimated_cost_micros" result_body records))
billable_cost_bounds result_body records =
    let (covers, bounded) = billed result_body records in
    let bill : ℕ = billable_cost (usage_amounts result_body records) in
    (
      omega arith,
      All-map {P = λ item. amount "actual_cost_micros" item ≤ sum_of "actual_cost_micros" records}
          {Q = λ item. amount "actual_cost_micros" item ≤ bill}
          (λ item (h : amount "actual_cost_micros" item ≤ sum_of "actual_cost_micros" records).
            omega arith)
          records (le-sum_of "actual_cost_micros" records),
      bounded,
    )
