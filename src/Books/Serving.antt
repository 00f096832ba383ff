-- ===== src/Books/Serving.antt =====
-- The invariants of the scheduler and of the books hold across every series of requests.
use token_bank.Prelude.{◌≡◌, List, [], ◌∷◌}
use token_bank.World.{World}
use token_bank.Sql.Evolution.{Evolves}
use token_bank.Db.{Db, UsageRow, ReceiptRow}
use token_bank.Session.{Session}
use token_bank.Session.Moves.{Moves, moves_rules}
use token_bank.Scheduler.Effects.{Allows}
use token_bank.Scheduler.Effects.Serving.{make-Moves}
use token_bank.Scheduler.Invariant.{Inv}
use token_bank.Scheduler.History.{Kept, Kept-Allows}
use token_bank.Scheduler.History.Growth.{Grows, Grows-refl}
use token_bank.Ledger.Repository.{set_entries}
use token_bank.Audit.Repository.{append_receipt}
use token_bank.Books.Effects.{AllowsBooks, record_for_work_unit-Moves, create_for_work_unit-Moves}
use token_bank.Books.Invariant.{BooksInv, BooksKept-AllowsBooks, BooksKept-Allows}
use token_bank.Books.Requests.{Request, schedule, record_usage, create_receipt, answer, answer_all}

same_scheduler :
    (db : Db) (entries : List UsageRow) (receipts : List ReceiptRow)
    → Kept db (record db { usage_ledger_entries = entries; audit_receipts = receipts })
same_scheduler db entries receipts v =
    let g = Grows-refl db in
    (
      record {
        attempt_ids = v.attempt_ids;
        assignment_ids = v.assignment_ids;
        linked = v.linked;
        attempt_numbers = v.attempt_numbers;
        sequences = v.sequences;
        redacted = v.redacted;
      },
      record {
        attempts = g.attempts;
        assignments = g.assignments;
        results = g.results;
        quarantined = g.quarantined;
        events = g.events;
      },
    )

Kept-AllowsBooks : AllowsBooks Kept
unfolding set_entries append_receipt
Kept-AllowsBooks = record {
  preorder = Kept-Allows.preorder;
  new_event = Kept-Allows.new_event;
  put_entry = λ db row _. same_scheduler db _ db.audit_receipts;
  new_receipt = λ db row _. same_scheduler db db.usage_ledger_entries _;
}

module _ {R : Db → Db → Type 0} (a : Allows R) (b : AllowsBooks R) (w : World) where
  answer-Moves : (r : Request) → Moves R (answer w r)
  unfolding answer
  answer-Moves (schedule c) = make-Moves a w c
  answer-Moves (record_usage id version work_unit_id account) =
      search (moves_rules, a.preorder, record_for_work_unit-Moves b)
  answer-Moves (create_receipt work_unit_id q) =
      search (moves_rules, a.preorder, create_for_work_unit-Moves b)

  pub answer_all-moves : (s : Session) (rs : List Request) → R s.db (answer_all w s rs).db
  unfolding answer_all
  answer_all-moves s [] = a.preorder.same s.db
  answer_all-moves s (r ∷ rs) =
      a.preorder.chain s.db (answer w r s).1.db _ ((answer-Moves r).at s)
        (answer_all-moves (answer w r s).1 rs)

module _ (w : World) (s : Session) (rs : List Request) where
  -- Whatever calls on the scheduler, records of usage and requests for a receipt are served, in any
  -- order and raising or not, the database meets the invariants of the scheduler and of the books
  -- again if it met them before: the identifiers of usage entries and of receipts and the hashes of
  -- receipts are distinct, and every receipt has its result and the usage entry that it names.
  pub answer_all-BooksInv :
      Inv s.db → BooksInv s.db → Inv (answer_all w s rs).db × BooksInv (answer_all w s rs).db
  answer_all-BooksInv v b = (
    (answer_all-moves Kept-Allows Kept-AllowsBooks w s rs v).0,
    (answer_all-moves BooksKept-Allows BooksKept-AllowsBooks w s rs b).0,
  )

  -- Across the same requests no audit receipt is ever changed, lost or moved, and no row of an
  -- attempt, an assignment, a result, a quarantine entry or an event is lost or moved either.
  pub answer_all-receipts :
      Inv s.db
      → BooksInv s.db
      → Evolves {A = ReceiptRow} ◌≡◌ s.db.audit_receipts (answer_all w s rs).db.audit_receipts
        × Grows s.db (answer_all w s rs).db
  answer_all-receipts v b = (
    (answer_all-moves BooksKept-Allows BooksKept-AllowsBooks w s rs b).1,
    (answer_all-moves Kept-Allows Kept-AllowsBooks w s rs v).1,
  )
