-- ===== src/Scheduler/Effects/Submission.antt =====
-- So have the submission of a result and the sweep.
use token_bank.Prelude.{Bool, true, false, String, Option, some, none, List, [], ◌∷◌}
use token_bank.Json.{Json}
use token_bank.World.{World}
use token_bank.Db.{Db, AssignmentRow}
use token_bank.Session.Moves.{Moves, Moves-pure, Moves-bind, moves_rules}
use token_bank.Scheduler.Results.{
  ResultEnvelope, StoredResult, validate_envelope, stored_result, quarantine_late_result,
  complete_result, settle_result, result_write, verify_lease, prepare_result, submit_result,
}
use token_bank.Scheduler.Sweeper.{sweep_row, sweep_rows, sweep_expired_leases}
use token_bank.Scheduler.Effects.{Allows}
use token_bank.Scheduler.Effects.Operations.{
  effect_rules, verify_lease_token-Moves, verify_lease_token_hash-Moves,
}

module _ {R : Db → Db → Type 0} (a : Allows R) (w : World) where
  verify_lease-Moves :
      (x : AssignmentRow) (token hash : Option String) → Moves R (verify_lease w x token hash)
  unfolding verify_lease
  verify_lease-Moves x token none = verify_lease_token-Moves a w _ token
  verify_lease-Moves x token (some hash) = verify_lease_token_hash-Moves a w _ (some hash)

  validate_envelope-Moves :
      (e : Option ResultEnvelope) (x : AssignmentRow) → Moves R (validate_envelope e x)
  unfolding validate_envelope
  validate_envelope-Moves none x = search (moves_rules, a.preorder)
  validate_envelope-Moves (some e) x = search (moves_rules, a.preorder)

  stored_result-Moves :
      (late : Bool) (x : AssignmentRow) (output : Json) (e : Option ResultEnvelope)
      → Moves R (stored_result w late x output e)
  unfolding stored_result
  stored_result-Moves late x output none = search (moves_rules, a.preorder)
  stored_result-Moves late x output (some e) = search (moves_rules, a.preorder)

  quarantine_late_result-Moves :
      (x : AssignmentRow) (r : StoredResult) → Moves R (quarantine_late_result w x r)
  unfolding quarantine_late_result
  quarantine_late_result-Moves x r = search (effect_rules, a.preorder) depth 20

  complete_result-Moves : (x : AssignmentRow) (now : String) → Moves R (complete_result w x now)
  unfolding complete_result
  complete_result-Moves x now = search (effect_rules, a.preorder) depth 20

  settle_result-Moves :
      (late : Bool) (x : AssignmentRow) (r : StoredResult) (now : String)
      → Moves R (settle_result w late x r now)
  unfolding settle_result
  settle_result-Moves true x r now = search (moves_rules, a.preorder, quarantine_late_result-Moves)
  settle_result-Moves false x r now = search (moves_rules, a.preorder, complete_result-Moves)

  result_write-Moves :
      (late : Bool) (x : AssignmentRow) (r : StoredResult) (now : String)
      → Moves R (result_write w late x r now)
  unfolding result_write
  result_write-Moves late x r now = search (effect_rules, a.preorder, settle_result-Moves) depth 20

  pub prepare_result-Moves :
      (id worker_id : String) (token hash : Option String) (output : Json)
      (e : Option ResultEnvelope)
      → Moves R (prepare_result w id worker_id token hash output e)
  unfolding prepare_result
  prepare_result-Moves id worker_id token hash output e =
      search
        (effect_rules, a.preorder, verify_lease-Moves, validate_envelope-Moves, stored_result-Moves)
        depth 20

  pub submit_result-Moves :
      (id worker_id : String) (token hash : Option String) (output : Json)
      (e : Option ResultEnvelope)
      → Moves R (submit_result w id worker_id token hash output e)
  unfolding submit_result
  submit_result-Moves id worker_id token hash output e =
      search (moves_rules, a.preorder, prepare_result-Moves, result_write-Moves)

  sweep_row-Moves : (x : AssignmentRow) → Moves R (sweep_row w x)
  unfolding sweep_row
  sweep_row-Moves x = search (effect_rules, a.preorder) depth 20

  sweep_rows-Moves : (xs : List AssignmentRow) → Moves R (sweep_rows w xs)
  unfolding sweep_rows
  sweep_rows-Moves [] = Moves-pure a.preorder tt
  sweep_rows-Moves (x ∷ xs) =
      Moves-bind a.preorder (sweep_row w x) (λ _. sweep_rows w xs) (sweep_row-Moves x)
        (λ _. sweep_rows-Moves xs)

  pub sweep_expired_leases-Moves : Moves R (sweep_expired_leases w)
  unfolding sweep_expired_leases
  sweep_expired_leases-Moves = search (moves_rules, a.preorder, sweep_rows-Moves)
