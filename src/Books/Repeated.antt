-- ===== src/Books/Repeated.antt =====
-- A second request for the same receipt gives the first one and changes nothing.
use mathlib.Core.Path.{subst}
use token_bank.Prelude.{String, ◌≡◌, refl, sym, ap, ◌∙◌, none, some, Option-cases, inl, inr}
use token_bank.Result.{ok}
use token_bank.Exec.{Exec, pure, ◌>>=◌}
use token_bank.Json.{Json, str, get}
use token_bank.World.{World}
use token_bank.Db.{Db, ResultRow, ReceiptRow}
use token_bank.Session.{Session}
use token_bank.Session.Runs.{bind-ok, pure-ok, Ends}
use token_bank.Session.Moves.{Moves}
use token_bank.Outbox.Frames.{OnlyEvents}
use token_bank.Ledger.Bodies.{dict_of}
use token_bank.Ledger.Repository.{EntryView, newest_result}
use token_bank.Audit.Receipt.{AcceptedContext, AuditReceipt, receipt_id, build_receipt}
use token_bank.Audit.Repository.{
  ReceiptView, ReceiptRequest, receipt_row, append_receipt, view_receipt, get_receipt,
  find_previous_hash, insert_receipt, existing_or_new, create_for_work_unit,
}
use token_bank.Books.Reads.{build_receipt-Moves}
use token_bank.Books.Inserting.{
  SameDb, SameDb-preorder, view_of, build_receipt-HasId, insert_receipt-ok, get_receipt-append,
  get_receipt-OnlyEvents, IsContext-frame, get_entry-frame,
}
use token_bank.Books.Asking.{key_of, IsRequest, request-found, IsRequest-ok}

module _ (w : World) (id u : String) where
  -- The rest of a request that finds no receipt.
  new_receipt :
      (q : ReceiptRequest) (s : Session) (c : AcceptedContext) (usage : EntryView)
      → existing_or_new w c q usage none s
        ≡ (build_receipt w c usage.usage_ledger_entry
                (find_previous_hash c.result.result_envelope_id s.db)
                q.routebook_id
                q.routebook_version
              >>= λ receipt. insert_receipt w receipt)
            s
  unfolding existing_or_new ◌>>=◌
  new_receipt q s c usage = refl

  -- What is inserted is there under its identifier, and the other tables but the outbox are the same.
  record Inserted (key : String) (before : Db) (v : ReceiptView) (later : Db) : Type 0 where
    receipt : AuditReceipt
    appended : OnlyEvents (append_receipt (receipt_row receipt) before) later
    found : get_receipt key later ≡ some (view_receipt (receipt_row receipt))
    returned : v ≡ view_of receipt

  Inserted-row :
      (key : String) (build : Exec Session AuditReceipt) (s : Session) (v : ReceiptView)
      → Ends (λ r. r.audit_receipt_id ≡ key) build
      → Moves SameDb build
      → ((build >>= λ receipt. insert_receipt w receipt) s).0 ≡ ok v
      → Inserted key s.db v ((build >>= λ receipt. insert_receipt w receipt) s).1.db
  Inserted-row key build s v ends reads e =
      let (r, built, onward) = bind-ok build (λ receipt. insert_receipt w receipt) s v e in
      let (appended, unused, same) = insert_receipt-ok w r (build s).1 v (rw onward at e) in
      let later = (insert_receipt w r (build s).1).1.db in
      rw onward (record {
        receipt = r;
        appended =
            subst (λ (x : Db). OnlyEvents (append_receipt (receipt_row r) x) later) (reads.at s)
              appended;
        found = rw (← ends.at s r built) (
            get_receipt-OnlyEvents r.audit_receipt_id _ later appended
            ∙ get_receipt-append r (build s).1.db unused);
        returned = same;
      })

  created_row :
      (q : ReceiptRequest) (s : Session) (v : ReceiptView) (c : AcceptedContext) (usage : EntryView)
      → w.strip_text (key_of w id u c usage) ≡ key_of w id u c usage
      → get (dict_of c.result.body_json) "result_envelope_id" ≡ str c.result.result_envelope_id
      → (existing_or_new w c q usage none s).0 ≡ ok v
      → Inserted (key_of w id u c usage) s.db v (existing_or_new w c q usage none s).1.db
  created_row q s v c usage clean named =
      let previous = find_previous_hash c.result.result_envelope_id s.db in
      rw (new_receipt q s c usage) (λ e.
        Inserted-row (key_of w id u c usage)
          (build_receipt w c usage.usage_ledger_entry previous q.routebook_id q.routebook_version) s
          v
          (subst
            (λ (key : String).
              Ends (λ (r : AuditReceipt). r.audit_receipt_id ≡ key)
                (build_receipt w c usage.usage_ledger_entry previous q.routebook_id
                  q.routebook_version))
            clean
            (rw (← named) (
              build_receipt-HasId w c usage.usage_ledger_entry previous q.routebook_id
                q.routebook_version)))
          (build_receipt-Moves SameDb-preorder w c usage.usage_ledger_entry previous q.routebook_id
            q.routebook_version)
          e)

  existing-found :
      (q : ReceiptRequest) (s : Session) (c : AcceptedContext) (usage : EntryView) (x : ReceiptView)
      → q.usage_ledger_entry_id ≡ some u
      → IsRequest w id u s.db c usage
      → get_receipt (key_of w id u c usage) s.db ≡ some x
      → create_for_work_unit w id q s ≡ (ok x, s)
  unfolding existing_or_new pure
  existing-found q s c usage x given h found =
      request-found w id u q s c usage given h ∙ rw found refl

  IsRequest-frame :
      (db : Db) (row : ReceiptRow) (later : Db) (c : AcceptedContext) (usage : EntryView)
      → OnlyEvents (append_receipt row db) later
      → IsRequest w id u db c usage
      → IsRequest w id u later c usage
  IsRequest-frame db row later c usage same h = record {
    context = IsContext-frame id db row later c same h.context;
    entry = get_entry-frame u db row later same ∙ h.entry;
    named = h.named;
  }

  -- what a second request gives, and how it agrees with the first
  abbrev pub Repeats : ReceiptRequest → ReceiptView → Session → Type 0
  Repeats q v s =
      (again : ReceiptView) × (create_for_work_unit w id q s ≡ (ok again, s))
      × (again.audit_receipt ≡ v.audit_receipt)
      × (again.receipt_hash ≡ v.receipt_hash)

  Repeats-existing :
      (q q' : ReceiptRequest) (s : Session) (v x : ReceiptView) (c : AcceptedContext)
      (usage : EntryView)
      → q.usage_ledger_entry_id ≡ some u
      → q'.usage_ledger_entry_id ≡ some u
      → IsRequest w id u s.db c usage
      → get_receipt (key_of w id u c usage) s.db ≡ some x
      → (create_for_work_unit w id q s).0 ≡ ok v
      → Repeats q' v (create_for_work_unit w id q s).1
  Repeats-existing q q' s v x c usage given given' h found e =
      let first = existing-found q s c usage x given h found in
      let same : x ≡ v = pure-ok x v s (unfold pure in rw first at e) in
      rw first (
        x,
        existing-found q' s c usage x given' h found,
        ap (λ (y : ReceiptView). y.audit_receipt) same,
        ap (λ (y : ReceiptView). y.receipt_hash) same,
      )

  Repeats-new :
      (q q' : ReceiptRequest) (s : Session) (v : ReceiptView) (c : AcceptedContext)
      (usage : EntryView)
      → q'.usage_ledger_entry_id ≡ some u
      → IsRequest w id u s.db c usage
      → Inserted (key_of w id u c usage) s.db v (existing_or_new w c q usage none s).1.db
      → Repeats q' v (existing_or_new w c q usage none s).1
  unfolding receipt_row
  Repeats-new q q' s v c usage given' h i =
      let later = (existing_or_new w c q usage none s).1 in
      let there = IsRequest-frame s.db (receipt_row i.receipt) later.db c usage i.appended h in
      (
        view_receipt (receipt_row i.receipt),
        existing-found q' later c usage (view_receipt (receipt_row i.receipt)) given' there i.found,
        sym (ap (λ (y : ReceiptView). y.audit_receipt) i.returned),
        sym (ap (λ (y : ReceiptView). y.receipt_hash) i.returned),
      )

module _ (w : World) (id u : String) (q q' : ReceiptRequest) (s : Session) (v : ReceiptView)
    (clean : (a b : Json) → w.strip_text (receipt_id w a b) ≡ receipt_id w a b)
    (named : (r : ResultRow)
      → newest_result id s.db ≡ some r
      → get (dict_of r.body_json) "result_envelope_id" ≡ str r.result_envelope_id)
    (given : q.usage_ledger_entry_id ≡ some u) (given' : q'.usage_ledger_entry_id ≡ some u)
    (returned : (create_for_work_unit w id q s).0 ≡ ok v) where
  -- If a request that names a usage entry has returned a receipt, a second one for the same Work Unit
  -- and usage entry gives a receipt with the same body and hash, and the connection stays as the first
  -- left it. This supposes that stripping white space leaves a receipt's identifier alone, and that the
  -- body of the newest result that succeeded names its row.
  pub create_for_work_unit-repeated : Repeats w id u q' v (create_for_work_unit w id q s).1
  create_for_work_unit-repeated =
      let (c, usage, h) = IsRequest-ok w id u q s v given returned in
      elim (Option-cases (get_receipt (key_of w id u c usage) s.db)) [
        | inl fresh ↦
            let first = request-found w id u q s c usage given h in
            let first' = rw fresh at first in
            rw first' (
              Repeats-new w id u q q' s v c usage given' h (
                created_row w id u q s v c usage
                  (clean (str c.result.result_envelope_id)
                    (get (dict_of usage.usage_ledger_entry) "usage_ledger_entry_id"))
                  (named c.result h.context.result) (rw first' at returned)))
        | inr (x, found) ↦ Repeats-existing w id u q q' s v x c usage given given' h found returned
      ]
