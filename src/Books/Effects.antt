-- ===== src/Books/Effects.antt =====
-- What the usage ledger and the audit receipts may do to the database, as a list of effects.
use token_bank.Prelude.{String, ◌≡◌, false, Option, none, some, Bool-cases, inl, inr, ltb}
use token_bank.Exec.{◌>>=◌}
use token_bank.Exec.Keeps.{IsPreorder}
use token_bank.World.{World}
use token_bank.Db.{Db, UsageRow, ReceiptRow, EventRow}
use token_bank.Session.Moves.{Moves, moves_rules}
use token_bank.Outbox.{append_event}
use token_bank.Outbox.Sequence.{IsNewEvent, Moves-enqueue_event}
use token_bank.Ledger.Entry.{UsageLedgerEntry}
use token_bank.Ledger.Repository.{
  EntryView, refuses_entry, set_entries, upsert_row, upsert_entry, record_for_work_unit,
}
use token_bank.Audit.Receipt.{AcceptedContext, AuditReceipt}
use token_bank.Audit.Repository.{
  ReceiptView, ReceiptRequest, refuses_receipt, append_receipt, insert_row, latest_or_record,
  usage_entry_for, ensure_usage_entry, insert_receipt, existing_or_new, create_for_work_unit,
}
use token_bank.Books.Reads.{
  need-Moves, build_usage_entry-Moves, completed_context-Moves, accepted_context-Moves,
  build_receipt-Moves,
}

pub record AllowsBooks (R : Db → Db → Type 0) : Type 0 where
  pub preorder : IsPreorder R
  pub new_event :
      (db : Db) (row : EventRow) → IsNewEvent row db.event_outbox → R db (append_event row db)
  pub put_entry :
      (db : Db) (row : UsageRow) → refuses_entry row db ≡ false → R db (set_entries row db)
  pub new_receipt :
      (db : Db) (row : ReceiptRow) → refuses_receipt row db ≡ false → R db (append_receipt row db)

module _ {R : Db → Db → Type 0} (a : AllowsBooks R) where
  upsert_row-Moves : (row : UsageRow) → Moves R (upsert_row row)
  unfolding upsert_row ◌>>=◌
  upsert_row-Moves row = record {
    at = λ s. elim (Bool-cases (ltb row.billable_cost_micros 9223372036854775808)) [
      | inl fits ↦ rw fits (elim (Bool-cases (refuses_entry row s.db)) [
        | inl refused ↦ rw refused (a.preorder.same s.db)
        | inr free ↦ rw free (a.put_entry s.db row free)
      ])
      | inr large ↦ rw large (a.preorder.same s.db)
    ];
  }

  upsert_entry-Moves : (w : World) (e : UsageLedgerEntry) → Moves R (upsert_entry w e)
  unfolding upsert_entry
  upsert_entry-Moves w e =
      search
        (moves_rules, a.preorder, upsert_row-Moves, Moves-enqueue_event a.preorder a.new_event w)

  pub record_for_work_unit-Moves :
      (w : World) (id version work_unit_id : String) (account : Option String)
      → Moves R (record_for_work_unit w id version work_unit_id account)
  unfolding record_for_work_unit
  record_for_work_unit-Moves w id version work_unit_id account = search (
    moves_rules,
    a.preorder,
    completed_context-Moves a.preorder,
    build_usage_entry-Moves a.preorder,
    upsert_entry-Moves,
  )

  insert_row-Moves : (row : ReceiptRow) → Moves R (insert_row row)
  unfolding insert_row ◌>>=◌
  insert_row-Moves row = record {
    at = λ s. elim (Bool-cases (refuses_receipt row s.db)) [
      | inl refused ↦ rw refused (a.preorder.same s.db)
      | inr free ↦ rw free (a.new_receipt s.db row free)
    ];
  }

  insert_receipt-Moves : (w : World) (r : AuditReceipt) → Moves R (insert_receipt w r)
  unfolding insert_receipt
  insert_receipt-Moves w r =
      search
        (moves_rules, a.preorder, insert_row-Moves, Moves-enqueue_event a.preorder a.new_event w)

  latest_or_record-Moves :
      (w : World) (id : String) (q : ReceiptRequest) (latest : Option EntryView)
      → Moves R (latest_or_record w id q latest)
  unfolding latest_or_record
  latest_or_record-Moves w id q (some latest) = search (moves_rules, a.preorder)
  latest_or_record-Moves w id q none = record_for_work_unit-Moves w _ _ id _

  usage_entry_for-Moves :
      (w : World) (id : String) (q : ReceiptRequest) (entry : Option String)
      → Moves R (usage_entry_for w id q entry)
  unfolding usage_entry_for
  usage_entry_for-Moves w id q (some entry) = search (moves_rules, a.preorder)
  usage_entry_for-Moves w id q none = search (moves_rules, a.preorder, latest_or_record-Moves)

  existing_or_new-Moves :
      (w : World) (c : AcceptedContext) (q : ReceiptRequest) (usage : EntryView)
      (existing : Option ReceiptView)
      → Moves R (existing_or_new w c q usage existing)
  unfolding existing_or_new
  existing_or_new-Moves w c q usage (some existing) = search (moves_rules, a.preorder)
  existing_or_new-Moves w c q usage none =
      search (moves_rules, a.preorder, build_receipt-Moves a.preorder, insert_receipt-Moves)

  pub create_for_work_unit-Moves :
      (w : World) (id : String) (q : ReceiptRequest) → Moves R (create_for_work_unit w id q)
  unfolding create_for_work_unit ensure_usage_entry
  create_for_work_unit-Moves w id q = search (
    moves_rules,
    a.preorder,
    accepted_context-Moves a.preorder,
    usage_entry_for-Moves,
    need-Moves a.preorder,
    existing_or_new-Moves,
  )
