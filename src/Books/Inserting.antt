-- ===== src/Books/Inserting.antt =====
-- What the building and the insert of a receipt give, in audit/receipts.py.
use mathlib.Core.Path.{subst}
use token_bank.Prelude.{
  String, ◌≡◌, refl, sym, ap, ◌∙◌, false, Option, none, some, arith, eq_refl, any,
}
use token_bank.Result.{ok}
use token_bank.Exec.{Exec, pure, ◌>>=◌, ◌>>◌}
use token_bank.Json.{Json, Fields, str, get}
use token_bank.World.{World}
use token_bank.Db.{Db, ReceiptRow}
use token_bank.Session.{Session, transaction}
use token_bank.Session.Runs.{
  bind-ok, transaction-ok, pure-ok, Ends, Ends-pure, Ends-bind, Ends-bind_with,
}
use token_bank.Ledger.Bodies.{dict_of, need, non_empty}
use token_bank.Ledger.Repository.{newest_result, newest_report, newest_plan, get_entry}
use token_bank.Audit.Receipt.{
  AcceptedContext, AuditReceipt, Payload, receipt_id, validate_receipt, build_receipt,
}
use token_bank.Audit.Repository.{
  ReceiptView, is_receipt, receipt_row, refuses_receipt, append_receipt, insert_row, created_event,
  view_receipt, get_receipt, insert_receipt,
}
use token_bank.Sql.Lookup.{fetchone-append_key}
use token_bank.Books.Invariant.{receipt_key}
use token_bank.Audit.Acceptance.{IsContext}
use token_bank.Exec.Keeps.{IsPreorder}
use token_bank.Outbox.{enqueue_event}
use token_bank.Outbox.Frames.{OnlyEvents, enqueue_event-OnlyEvents}

need-Ends : (body : Fields) (key : String) → Ends (λ v. v ≡ get body key) (need body key)
unfolding need ◌>>=◌
need-Ends body key = record { at = λ s a e. ground arith }

non_empty-Ends : (w : World) (x : String) → Ends (λ t. t ≡ w.strip_text x) (non_empty w (str x))
unfolding non_empty ◌>>=◌
non_empty-Ends w x = record { at = λ s a e. ground arith }

module _ (w : World) where
  abbrev pub HasId : String → AuditReceipt → Type 0
  HasId x r = r.audit_receipt_id ≡ w.strip_text x

  validate_receipt-HasId :
      (p : Payload) (x : String)
      → p.audit_receipt_id ≡ str x
      → Ends (HasId x) (validate_receipt w p)
  unfolding validate_receipt
  validate_receipt-HasId p x h = rw h (
      Ends-bind_with (λ t. t ≡ w.strip_text x) (non_empty w (str x)) _ (non_empty-Ends w x)
        λ id same. rw same (search (Ends-bind, Ends-pure) depth 30))

  pub build_receipt-HasId :
      (c : AcceptedContext) (usage : Json) (previous : Option String) (book version : String)
      → Ends
          (HasId (
            receipt_id w
              (get (dict_of c.result.body_json) "result_envelope_id")
              (get (dict_of usage) "usage_ledger_entry_id")))
          (build_receipt w c usage previous book version)
  unfolding build_receipt
  build_receipt-HasId c usage previous book version =
      Ends-bind_with (λ v. v ≡ get (dict_of c.result.body_json) "result_envelope_id") _ _
        (need-Ends (dict_of c.result.body_json) "result_envelope_id")
        λ result_id same.
          Ends-bind_with (λ v. v ≡ get (dict_of usage) "usage_ledger_entry_id") _ _
            (need-Ends (dict_of usage) "usage_ledger_entry_id")
            λ usage_id same'.
              rw (same, same')
                (Ends-bind _ _ λ _. Ends-bind _ _ λ _. Ends-bind _ _ λ _. Ends-bind _ _ λ _.
                  Ends-bind _ _ λ _.
                    Ends-bind _ _
                      λ _. Ends-bind _ _ λ _. Ends-bind _ _ λ _. validate_receipt-HasId _ _ refl)

-- the database is left alone
abbrev pub SameDb : Db → Db → Type 0
SameDb a b = b ≡ a

pub SameDb-preorder : IsPreorder SameDb
SameDb-preorder = record { same = λ a. refl; chain = λ a b c h k. k ∙ h }

insert_row-ok :
    (row : ReceiptRow) (s : Session) (u : Unit {0})
    → (insert_row row s).0 ≡ ok u
    → ((insert_row row s).1.db ≡ append_receipt row s.db)
      × (any (is_receipt row.audit_receipt_id) s.db.audit_receipts ≡ false)
unfolding insert_row ◌>>=◌ refuses_receipt
insert_row-ok row s u e = ground arith

abbrev pub view_of : AuditReceipt → ReceiptView
view_of r = record { audit_receipt = r.body; receipt_hash = r.receipt_hash; created_at = none }

module _ (w : World) (r : AuditReceipt) where
  abbrev write : Exec Session String
  write = insert_row (receipt_row r) >> enqueue_event w (created_event r)

  write-ok :
      (s : Session) (id : String)
      → (write s).0 ≡ ok id
      → OnlyEvents (append_receipt (receipt_row r) s.db) (write s).1.db
        × (any (is_receipt (receipt_row r).audit_receipt_id) s.db.audit_receipts ≡ false)
  write-ok s id done =
      let (u, stored, rest) =
        bind-ok (insert_row (receipt_row r)) (λ _. enqueue_event w (created_event r)) s id done in
      let (appended, unused) = insert_row-ok (receipt_row r) s u stored in
      (
        rw (rest, ← appended)
            ((enqueue_event-OnlyEvents w (created_event r)).at (insert_row (receipt_row r) s).1),
        unused,
      )

  -- the new row at the end of the receipts, its identifier unused before
  pub insert_receipt-ok :
      (s : Session) (v : ReceiptView)
      → (insert_receipt w r s).0 ≡ ok v
      → OnlyEvents (append_receipt (receipt_row r) s.db) (insert_receipt w r s).1.db
        × (any (is_receipt (receipt_row r).audit_receipt_id) s.db.audit_receipts ≡ false)
        × (v ≡ view_of r)
  unfolding insert_receipt pure
  insert_receipt-ok s v returned =
      let (id, transacted, onward) =
        bind-ok (transaction write) (λ _. pure (view_of r)) s v returned in
      let (done, same) = transaction-ok write s id transacted in
      let (kept, unused) = write-ok s id done in
      (
        rw (onward, same) kept,
        unused,
        sym (pure-ok (view_of r) v (transaction write s).1 (rw onward at returned)),
      )

-- after it, the receipt is found under its identifier
pub get_receipt-append :
    (r : AuditReceipt) (db : Db)
    → any (is_receipt (receipt_row r).audit_receipt_id) db.audit_receipts ≡ false
    → get_receipt r.audit_receipt_id (append_receipt (receipt_row r) db)
      ≡ some (view_receipt (receipt_row r))
unfolding get_receipt append_receipt receipt_row
get_receipt-append r db unused =
    rw (fetchone-append_key receipt_key (receipt_row r) r.audit_receipt_id db.audit_receipts unused)
      (rw (eq_refl r.audit_receipt_id) refl)

pub get_receipt-OnlyEvents :
    (id : String) (a b : Db) → OnlyEvents a b → get_receipt id b ≡ get_receipt id a
unfolding get_receipt
get_receipt-OnlyEvents id a b same = ap (λ (x : Db). get_receipt id x) same

-- the context of a receipt does not depend on the receipts or the events
pub IsContext-frame :
    (id : String) (db : Db) (row : ReceiptRow) (later : Db) (c : AcceptedContext)
    → OnlyEvents (append_receipt row db) later
    → IsContext id db c
    → IsContext id later c
unfolding append_receipt newest_result newest_report newest_plan
IsContext-frame id db row later c same h =
    subst (λ (x : Db). IsContext id x c) (sym same)
      (record {
        unit = h.unit;
        result = h.result;
        report = h.report;
        accepted = h.accepted;
        plan = h.plan;
        of_assignment = h.of_assignment;
      })

pub get_entry-frame :
    (id : String) (db : Db) (row : ReceiptRow) (later : Db)
    → OnlyEvents (append_receipt row db) later
    → get_entry id later ≡ get_entry id db
unfolding append_receipt get_entry
get_entry-frame id db row later same = ap (λ (x : Db). get_entry id x) same
