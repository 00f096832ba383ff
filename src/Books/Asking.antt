-- ===== src/Books/Asking.antt =====
-- What a request for a receipt reads before it looks for one, in audit/receipts.py.
use token_bank.Prelude.{String, ◌≡◌, refl, true, some, arith}
use token_bank.Result.{ok}
use token_bank.Exec.{◌>>=◌}
use token_bank.Json.{Json, Fields, str, get, has_key}
use token_bank.World.{World}
use token_bank.Db.{Db}
use token_bank.Session.{Session}
use token_bank.Session.Runs.{bind-ok}
use token_bank.Ledger.Bodies.{dict_of, need}
use token_bank.Ledger.Repository.{EntryView, get_entry}
use token_bank.Audit.Receipt.{AcceptedContext, receipt_id}
use token_bank.Audit.Repository.{
  ReceiptView, ReceiptRequest, get_receipt, accepted_context, ensure_usage_entry, usage_entry_for,
  existing_or_new, create_for_work_unit,
}
use token_bank.Audit.Acceptance.{IsContext, accepted_context-ok, accepted_context-found}

need-ok :
    (body : Fields) (key : String) (s : Session) (v : Json)
    → (need body key s).0 ≡ ok v
    → (has_key body key ≡ true) × (v ≡ get body key) × ((need body key s).1 ≡ s)
unfolding need ◌>>=◌
need-ok body key s v e = ground arith

need-found :
    (body : Fields) (key : String) (s : Session)
    → has_key body key ≡ true
    → need body key s ≡ (ok (get body key), s)
unfolding need ◌>>=◌
need-found body key s h = ground arith

module _ (w : World) (id u : String) where
  usage-ok :
      (q : ReceiptRequest) (s : Session) (v : EntryView)
      → q.usage_ledger_entry_id ≡ some u
      → (ensure_usage_entry w id q s).0 ≡ ok v
      → (get_entry u s.db ≡ some v) × ((ensure_usage_entry w id q s).1 ≡ s)
  unfolding ensure_usage_entry usage_entry_for ◌>>=◌
  usage-ok q s v h = rw h (λ e. ground arith)

  usage-found :
      (q : ReceiptRequest) (s : Session) (v : EntryView)
      → q.usage_ledger_entry_id ≡ some u
      → get_entry u s.db ≡ some v
      → ensure_usage_entry w id q s ≡ (ok v, s)
  unfolding ensure_usage_entry usage_entry_for ◌>>=◌
  usage-found q s v h k = rw (h, k) refl

  -- the identifier that is looked up
  abbrev pub key_of : AcceptedContext → EntryView → String
  key_of c usage =
      receipt_id w (str c.result.result_envelope_id)
        (get (dict_of usage.usage_ledger_entry) "usage_ledger_entry_id")

  -- what a request reads before it looks for the receipt
  pub record IsRequest (db : Db) (c : AcceptedContext) (usage : EntryView) : Type 0 where
    pub context : IsContext id db c
    pub entry : get_entry u db ≡ some usage
    pub named : has_key (dict_of usage.usage_ledger_entry) "usage_ledger_entry_id" ≡ true

  pub request-found :
      (q : ReceiptRequest) (s : Session) (c : AcceptedContext) (usage : EntryView)
      → q.usage_ledger_entry_id ≡ some u
      → IsRequest s.db c usage
      → create_for_work_unit w id q s
        ≡ existing_or_new w c q usage (get_receipt (key_of c usage) s.db) s
  unfolding create_for_work_unit ◌>>=◌
  request-found q s c usage given h =
      rw
        (
          accepted_context-found id s c h.context,
          usage-found q s usage given h.entry,
          need-found (dict_of usage.usage_ledger_entry) "usage_ledger_entry_id" s h.named,
        )
        refl

  pub IsRequest-ok :
      (q : ReceiptRequest) (s : Session) (v : ReceiptView)
      → q.usage_ledger_entry_id ≡ some u
      → (create_for_work_unit w id q s).0 ≡ ok v
      → (c : AcceptedContext) × (usage : EntryView) × IsRequest s.db c usage
  unfolding create_for_work_unit
  IsRequest-ok q s v given e =
      let (c, returned, onward) = bind-ok (accepted_context id) _ s v e in
      let context = accepted_context-ok id s c returned in
      let e₁ = rw (onward, accepted_context-found id s c context) at e in
      let (usage, returned₁, onward₁) = bind-ok (ensure_usage_entry w id q) _ s v e₁ in
      let (entry, same₁) = usage-ok q s usage given returned₁ in
      let e₂ = rw (onward₁, same₁) at e₁ in
      let (x, returned₂, onward₂) =
        bind-ok (need (dict_of usage.usage_ledger_entry) "usage_ledger_entry_id") _ s v e₂ in
      let (named, _, _) =
        need-ok (dict_of usage.usage_ledger_entry) "usage_ledger_entry_id" s x returned₂ in
      (c, usage, record { context = context; entry = entry; named = named })
