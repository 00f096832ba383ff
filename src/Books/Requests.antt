-- ===== src/Books/Requests.antt =====
-- The requests of the control plane on the scheduler and on the books, in any order.
use token_bank.Prelude.{String, Option, List, [], ◌∷◌}
use token_bank.Exec.{Exec, pure, ◌>>◌}
use token_bank.World.{World}
use token_bank.Session.{Session}
use token_bank.Scheduler.Calls.{Call, make}
use token_bank.Ledger.Repository.{record_for_work_unit}
use token_bank.Audit.Repository.{ReceiptRequest, create_for_work_unit}

-- A request with the routebook that it finds.
pub data Request : Type 0 where
  schedule : Call → Request
  record_usage : String → String → String → Option String → Request
  create_receipt : String → ReceiptRequest → Request

module _ (w : World) where
  unfoldable pub answer : Request → Exec Session (Unit {0})
  unfolding make record_for_work_unit create_for_work_unit
  answer (schedule c) = make w c
  answer (record_usage routebook_id routebook_version work_unit_id account_snapshot_id) = do
    record_for_work_unit w routebook_id routebook_version work_unit_id account_snapshot_id
    pure tt
  answer (create_receipt work_unit_id q) = do create_for_work_unit w work_unit_id q; pure tt

  unfoldable pub answer_all : Session → List Request → Session
  unfolding answer
  answer_all s [] = s
  answer_all s (r ∷ rs) = answer_all (answer r s).1 rs
