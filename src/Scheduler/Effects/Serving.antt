-- ===== src/Scheduler/Effects/Serving.antt =====
-- So a relation that allows the effects holds across every series of calls.
use token_bank.Prelude.{List, [], ◌∷◌}
use token_bank.World.{World}
use token_bank.Db.{Db}
use token_bank.Session.{Session}
use token_bank.Session.Moves.{Moves, moves_rules}
use token_bank.Scheduler.Calls.{Operation, Call, attempt, method, sweep, perform, make, serve}
use token_bank.Scheduler.Effects.{Allows}
use token_bank.Scheduler.Effects.Operations.{
  accept_assignment-Moves, reject_assignment-Moves, progress_assignment-Moves,
  record_worker_heartbeat-Moves,
}
use token_bank.Scheduler.Effects.Submission.{submit_result-Moves, sweep_expired_leases-Moves}
use token_bank.Scheduler.Effects.Scheduling.{
  create_attempt-Moves, create_assignment-Moves, assign_next_work-Moves, schedule_retry-Moves,
  schedule_fallback-Moves,
}

ruleset operation_rules = (
  moves_rules, accept_assignment-Moves, reject_assignment-Moves, progress_assignment-Moves,
  record_worker_heartbeat-Moves, submit_result-Moves, create_attempt-Moves, create_assignment-Moves,
  assign_next_work-Moves, schedule_retry-Moves, schedule_fallback-Moves, sweep_expired_leases-Moves,
)

module _ {R : Db → Db → Type 0} (a : Allows R) (w : World) where
  pub perform-Moves : (o : Operation) → Moves R (perform w o)
  unfolding perform
  perform-Moves (attempt r) = search (operation_rules, a.preorder)
  perform-Moves _ = search operation_rules

  pub make-Moves : (c : Call) → Moves R (make w c)
  unfolding make
  make-Moves (method o) = perform-Moves o
  make-Moves sweep = search (operation_rules, a.preorder)

  pub serve-moves : (s : Session) (cs : List Call) → R s.db (serve w s cs).db
  unfolding serve
  serve-moves s [] = a.preorder.same s.db
  serve-moves s (c ∷ cs) =
      a.preorder.chain s.db (make w c s).1.db _ ((make-Moves c).at s)
        (serve-moves (make w c s).1 cs)
