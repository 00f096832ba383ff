-- ===== src/Scheduler/Calls.antt =====
-- The calls that the control plane makes on the scheduler, in any order. A call that raises leaves
-- what it left, and the next call starts from there.
use token_bank.Prelude.{ℕ, String, Option, List, [], ◌∷◌}
use token_bank.Exec.{Exec, pure, ◌>>◌}
use token_bank.Json.{Json}
use token_bank.World.{World}
use token_bank.Session.{Session}
use token_bank.Scheduler.Attempts.{
  AttemptRequest, create_attempt, schedule_retry, schedule_fallback,
}
use token_bank.Scheduler.Assignments.{AssignmentRequest, create_assignment, assign_next_work}
use token_bank.Scheduler.Leasing.{
  accept_assignment, reject_assignment, progress_assignment, record_worker_heartbeat,
}
use token_bank.Scheduler.Results.{ResultEnvelope, submit_result}
use token_bank.Scheduler.Sweeper.{sweep_expired_leases}

-- the public methods of `Scheduler`, with their arguments
pub data Operation : Type 0 where
  attempt : AttemptRequest → Operation
  assignment : AssignmentRequest → Operation
  assign_next : String → Operation
  accept : String → String → ℕ → ℕ → Operation
  reject : String → String → Operation
  progress : String → String → Option String → ℕ → ℕ → Operation
  heartbeat : String → String → Operation
  submit :
      String → String → Option String → Option String → Json → Option ResultEnvelope → Operation
  retry : String → Operation
  fallback : String → Operation

pub data Call : Type 0 where
  method : Operation → Call
  sweep : Call

module _ (w : World) where
  unfoldable pub perform : Operation → Exec Session (Unit {0})
  perform (attempt r) = do create_attempt w r; pure tt
  perform (assignment r) = do create_assignment w r; pure tt
  perform (assign_next worker_id) = do assign_next_work w worker_id; pure tt
  perform (accept id worker_id version ms) = do accept_assignment w id worker_id version ms; pure tt
  perform (reject id worker_id) = reject_assignment w id worker_id
  perform (progress id worker_id token version ms) = do
    progress_assignment w id worker_id token version ms
    pure tt
  perform (heartbeat worker_id status) = record_worker_heartbeat w worker_id status
  perform (submit id worker_id token hash output envelope) = do
    submit_result w id worker_id token hash output envelope
    pure tt
  perform (retry id) = do schedule_retry w id; pure tt
  perform (fallback id) = do schedule_fallback w id; pure tt

  unfoldable pub make : Call → Exec Session (Unit {0})
  unfolding perform
  make (method o) = perform o
  make sweep = do sweep_expired_leases w; pure tt

  unfoldable pub serve : Session → List Call → Session
  unfolding make
  serve s [] = s
  serve s (c ∷ cs) = serve (make c s).1 cs
