-- ===== src/Books/Reads.antt =====
-- What the usage ledger and the audit receipts do before they write: no table changes.
use token_bank.Prelude.{String, Option, Bool-cases, inl, inr}
use token_bank.Exec.Keeps.{IsPreorder}
use token_bank.Json.{Json, Fields, null, str, get}
use token_bank.World.{World}
use token_bank.Db.{Db}
use token_bank.Session.Moves.{Moves, moves_rules}
use token_bank.Ledger.Amounts.{UsageAmounts}
use token_bank.Ledger.Bodies.{need, dicts_at, is_filled, non_empty, opt_non_empty, opt_text}
use token_bank.Ledger.Entry.{
  UsageContext, Identifiers, profile_node, check_recommendation, capacity_profile_id,
  validate_entry, build_usage_entry,
}
use token_bank.Ledger.Repository.{completed_context}
use token_bank.Audit.Receipt.{AcceptedContext, Payload, validate_receipt, build_receipt}
use token_bank.Audit.Repository.{require_accepted, accepted_context}

module _ {R : Db → Db → Type 0} (p : IsPreorder R) where
  pub need-Moves : (body : Fields) (key : String) → Moves R (need body key)
  unfolding need
  need-Moves body key = search (moves_rules, p)

  dicts_at-Moves : (body : Fields) (key : String) → Moves R (dicts_at body key)
  unfolding dicts_at
  dicts_at-Moves body key = search (moves_rules, p)

  non_empty-Moves : (w : World) (v : Json) → Moves R (non_empty w v)
  unfolding non_empty
  non_empty-Moves w (str s) = search (moves_rules, p)
  non_empty-Moves w _ = search (moves_rules, p)

  opt_non_empty-Moves : (w : World) (v : Json) → Moves R (opt_non_empty w v)
  unfolding opt_non_empty
  opt_non_empty-Moves w null = search (moves_rules, p)
  opt_non_empty-Moves w v = search (moves_rules, p)

  opt_text-Moves : (w : World) (v : Json) → Moves R (opt_text w v)
  unfolding opt_text
  opt_text-Moves w null = search (moves_rules, p)
  opt_text-Moves w _ = search (moves_rules, p)

  check_recommendation-Moves : (v : Json) → Moves R (check_recommendation v)
  unfolding check_recommendation
  check_recommendation-Moves null = search (moves_rules, p)
  check_recommendation-Moves _ = search (moves_rules, p)

  profile_node-Moves :
      (result_body route_body : Fields) → Moves R (profile_node result_body route_body)
  unfolding profile_node
  profile_node-Moves result_body route_body =
      elim (Bool-cases (is_filled (get result_body "capacity_node_id"))) [
        | inl own ↦ rw own (search (moves_rules, p))
        | inr other ↦ rw other (search (moves_rules, p, dicts_at-Moves))
      ]

  validate_entry-Moves :
      (w : World) (i : Identifiers) (m : UsageAmounts) (v : Json) → Moves R (validate_entry w i m v)
  unfolding validate_entry
  validate_entry-Moves w i m v =
      search
        (
          moves_rules, p, non_empty-Moves, opt_non_empty-Moves, opt_text-Moves,
          check_recommendation-Moves,
        )
        depth 22

  pub build_usage_entry-Moves :
      (w : World) (c : UsageContext) (account : Option String) (id version : String)
      → Moves R (build_usage_entry w c account id version)
  unfolding build_usage_entry capacity_profile_id
  build_usage_entry-Moves w c account id version =
      search (moves_rules, p, need-Moves, dicts_at-Moves, profile_node-Moves, validate_entry-Moves)
        depth 12

  pub completed_context-Moves : (id : String) → Moves R (completed_context id)
  unfolding completed_context
  completed_context-Moves id = search (moves_rules, p) depth 14

  require_accepted-Moves : (v : Json) → Moves R (require_accepted v)
  unfolding require_accepted
  require_accepted-Moves (str s) = search (moves_rules, p)
  require_accepted-Moves _ = search (moves_rules, p)

  pub accepted_context-Moves : (id : String) → Moves R (accepted_context id)
  unfolding accepted_context
  accepted_context-Moves id = search (moves_rules, p, require_accepted-Moves) depth 16

  validate_receipt-Moves : (w : World) (payload : Payload) → Moves R (validate_receipt w payload)
  unfolding validate_receipt
  validate_receipt-Moves w payload =
      search (moves_rules, p, non_empty-Moves, opt_non_empty-Moves) depth 26

  pub build_receipt-Moves :
      (w : World) (c : AcceptedContext) (usage : Json) (previous : Option String)
      (id version : String)
      → Moves R (build_receipt w c usage previous id version)
  unfolding build_receipt
  build_receipt-Moves w c usage previous id version =
      search (moves_rules, p, need-Moves, validate_receipt-Moves) depth 16
