-- ===== src/Audit/Repository.antt =====
-- AuditReceiptRepository of audit/receipts.py.
use Prim.Native.String.{◌++◌ as append}
use mathlib.Core.Option
use token_bank.Prelude.{
  String, Bool, true, not, ◌||◌, ◌&&◌, Option, none, some, List, [], ◌∷◌, ◌++◌, any, keep, map,
  str_eq, if◌then◌else◌,
}
use token_bank.Result.{key_error, value_error, type_error, integrity_error}
use token_bank.Exec.{Exec, pure, gets, raise, or_raise, raise_if, modify, ◌>>=◌, ◌>>◌}
use token_bank.Json.{Json, str, arr, obj, get, fields, opt_str}
use token_bank.Json.Equality.{equals}
use token_bank.World.{World}
use token_bank.Sql.{fetchone, first_by}
use token_bank.Sql.Order.{text_before, newest_first, order_by}
use token_bank.Db.{Db, ReceiptRow}
use token_bank.Session.{Session, transaction}
use token_bank.Outbox.{OutboxEventInput, enqueue_event, set_db}
use token_bank.Scheduler.Tables.{is_work_unit, is_route_plan, is_result, is_assignment}
use token_bank.Ledger.Bodies.{dict_of, need}
use token_bank.Ledger.Repository.{
  EntryView, is_entry, is_report, dangles, passes, newest_result, newest_plan, newest_report,
  get_entry, list_entries, record_for_work_unit,
}
use token_bank.Audit.Receipt.{AcceptedContext, AuditReceipt, receipt_id, build_receipt}

-- what the methods return; `insert_receipt` gives no `created_at`
pub record ReceiptView : Type 0 where
  pub audit_receipt : Json
  pub receipt_hash : String
  pub created_at : Option String

abbrev pub is_receipt : String → ReceiptRow → Bool
is_receipt id row = str_eq row.audit_receipt_id id

abbrev pub has_hash : String → ReceiptRow → Bool
has_hash hash row = str_eq row.receipt_hash hash

unfoldable pub receipt_row : AuditReceipt → ReceiptRow
receipt_row r = record {
  audit_receipt_id = r.audit_receipt_id;
  work_unit_id = r.work_unit_id;
  run_id = r.run_id;
  route_plan_id = r.route_plan_id;
  result_envelope_id = r.result_envelope_id;
  verifier_report_id = r.verifier_report_id;
  usage_ledger_entry_id = r.usage_ledger_entry_id;
  receipt_hash = r.receipt_hash;
  previous_receipt_hash = r.previous_receipt_hash;
  body_json = r.body;
  created_at = r.created_at;
}

-- the primary key, the unique index on the hash, and the foreign keys
unfoldable pub refuses_receipt : ReceiptRow → Db → Bool
refuses_receipt row db =
    any (is_receipt row.audit_receipt_id) db.audit_receipts
    || any (has_hash row.receipt_hash) db.audit_receipts
    || not (any (is_work_unit row.work_unit_id) db.work_units)
    || not (any (is_route_plan row.route_plan_id) db.route_plans)
    || not (any (is_result row.result_envelope_id) db.result_envelopes)
    || not (any (is_report row.verifier_report_id) db.verifier_reports)
    || dangles (λ id. any (is_entry id) db.usage_ledger_entries) row.usage_ledger_entry_id

unfoldable pub append_receipt : ReceiptRow → Db → Db
append_receipt row db = record db { audit_receipts = db.audit_receipts ++ row ∷ [] }

-- INSERT INTO audit_receipts
unfoldable pub insert_row : ReceiptRow → Exec Session (Unit {0})
unfolding refuses_receipt append_receipt
insert_row row = do
  refused ← gets (λ s. refuses_receipt row s.db)
  raise_if refused integrity_error
  modify (set_db (append_receipt row))

unfoldable pub created_event : AuditReceipt → OutboxEventInput
created_event r = record {
  source = "tokenbank.audit";
  type = "audit_receipt.created";
  subject = append "audit_receipts/" r.audit_receipt_id;
  run_id = some r.run_id;
  work_unit_id = some r.work_unit_id;
  attempt_id = none;
  assignment_id = some r.assignment_id;
  body = obj (
      fields (
        ("audit_receipt_id", str r.audit_receipt_id)
        ∷ ("work_unit_id", str r.work_unit_id)
        ∷ ("run_id", str r.run_id)
        ∷ ("route_plan_id", str r.route_plan_id)
        ∷ ("result_envelope_id", str r.result_envelope_id)
        ∷ ("verifier_report_id", str r.verifier_report_id)
        ∷ ("usage_ledger_entry_id", opt_str r.usage_ledger_entry_id)
        ∷ ("receipt_hash", str r.receipt_hash)
        ∷ ("previous_receipt_hash", opt_str r.previous_receipt_hash)
        ∷ ("redaction_profile", str "ids_and_hashes_only")
        ∷ []));
}

abbrev pub view_receipt : ReceiptRow → ReceiptView
view_receipt row = record {
  audit_receipt = row.body_json;
  receipt_hash = row.receipt_hash;
  created_at = some row.created_at;
}

unfoldable pub get_receipt : String → Db → Option ReceiptView
unfolding fetchone
get_receipt id db = Option.map view_receipt (fetchone (is_receipt id) db.audit_receipts)

unfoldable pub list_receipts : Option String → Option String → Db → List ReceiptView
unfolding order_by newest_first
list_receipts work_unit_id run_id db = map view_receipt (
    order_by (λ a b. newest_first a.created_at a.audit_receipt_id b.created_at b.audit_receipt_id)
      (keep (λ row. passes work_unit_id row.work_unit_id && passes run_id row.run_id)
        db.audit_receipts))

-- the hash of the newest receipt of another result
unfoldable pub find_previous_hash : String → Db → Option String
unfolding first_by text_before
find_previous_hash result_envelope_id db =
    Option.map (λ (row : ReceiptRow). row.receipt_hash)
      (first_by (λ a b. text_before b.created_at a.created_at)
        (keep (λ row. not (str_eq row.result_envelope_id result_envelope_id)) db.audit_receipts))

-- `recommendation not in ACCEPTED_RECOMMENDATIONS`; a list or a `dict` has no hash
unfoldable pub require_accepted : Json → Exec Session (Unit {0})
require_accepted (str s) =
    raise_if (not (str_eq s "accept" || str_eq s "accept_with_warning")) value_error
require_accepted (arr xs) = raise type_error
require_accepted (obj fs) = raise type_error
require_accepted _ = raise value_error

-- AuditReceiptRepository._accepted_context
unfoldable pub accepted_context : String → Exec Session AcceptedContext
unfolding fetchone newest_result newest_plan newest_report require_accepted get
accepted_context work_unit_id = do
  unit_row ← gets (λ s. fetchone (is_work_unit work_unit_id) s.db.work_units)
  unit ← or_raise key_error unit_row
  result_row ← gets (λ s. newest_result work_unit_id s.db)
  result ← or_raise key_error result_row
  report_row ← gets (λ s. newest_report result.result_envelope_id s.db)
  verifier ← or_raise key_error report_row
  require_accepted (get (dict_of verifier.body_json) "recommendation")
  route_row ← gets (λ s. newest_plan work_unit_id s.db)
  route ← or_raise key_error route_row
  assignment_row ← gets (λ s. fetchone (is_assignment result.assignment_id) s.db.assignments)
  assignment ← or_raise key_error assignment_row
  pure (record {
    work_unit = unit;
    route = route;
    assignment = assignment;
    result = result;
    verifier = verifier;
  })

-- `account_snapshot_id is None or latest_account == account_snapshot_id`, for the latest entry
abbrev pub serves : Option String → EntryView → Bool
serves none latest = true
serves (some id) latest =
    equals (get (dict_of latest.usage_ledger_entry) "account_snapshot_id") (str id)

unfoldable pub latest_serving : Option String → List EntryView → Option EntryView
unfolding equals get
latest_serving account_snapshot_id [] = none
latest_serving account_snapshot_id (latest ∷ older) =
    if serves account_snapshot_id latest then some latest else none

-- what `create_for_work_unit` is given beside the Work Unit
pub record ReceiptRequest : Type 0 where
  pub usage_ledger_entry_id : Option String
  pub account_snapshot_id : Option String
  pub routebook_id : String
  pub routebook_version : String

module _ (w : World) where
  unfoldable pub latest_or_record :
      String → ReceiptRequest → Option EntryView → Exec Session EntryView
  unfolding record_for_work_unit
  latest_or_record work_unit_id q (some latest) = pure latest
  latest_or_record work_unit_id q none =
      record_for_work_unit w q.routebook_id q.routebook_version work_unit_id q.account_snapshot_id

  unfoldable pub usage_entry_for : String → ReceiptRequest → Option String → Exec Session EntryView
  unfolding latest_or_record get_entry list_entries latest_serving
  usage_entry_for work_unit_id q (some id) = do
    entry ← gets (λ s. get_entry id s.db)
    or_raise key_error entry
  usage_entry_for work_unit_id q none = do
    latest ←
        gets
          (λ s. latest_serving q.account_snapshot_id (list_entries (some work_unit_id) none s.db))
    latest_or_record work_unit_id q latest

  -- AuditReceiptRepository._ensure_usage_entry
  unfoldable pub ensure_usage_entry : String → ReceiptRequest → Exec Session EntryView
  unfolding usage_entry_for
  ensure_usage_entry work_unit_id q = usage_entry_for work_unit_id q q.usage_ledger_entry_id

  unfoldable pub insert_receipt : AuditReceipt → Exec Session ReceiptView
  unfolding receipt_row insert_row created_event
  insert_receipt r = do
    transaction (insert_row (receipt_row r) >> enqueue_event w (created_event r))
    pure (record { audit_receipt = r.body; receipt_hash = r.receipt_hash; created_at = none })

  -- the receipt that is there, or else a new one
  unfoldable pub existing_or_new :
      AcceptedContext → ReceiptRequest → EntryView → Option ReceiptView → Exec Session ReceiptView
  unfolding find_previous_hash build_receipt insert_receipt
  existing_or_new c q usage (some existing) = pure existing
  existing_or_new c q usage none = do
    previous ← gets (λ s. find_previous_hash c.result.result_envelope_id s.db)
    receipt ← build_receipt w c usage.usage_ledger_entry previous q.routebook_id q.routebook_version
    insert_receipt receipt

  unfoldable pub create_for_work_unit : String → ReceiptRequest → Exec Session ReceiptView
  unfolding accepted_context ensure_usage_entry need receipt_id get_receipt existing_or_new
  create_for_work_unit work_unit_id q = do
    context ← accepted_context work_unit_id
    usage ← ensure_usage_entry work_unit_id q
    usage_id ← need (dict_of usage.usage_ledger_entry) "usage_ledger_entry_id"
    existing ←
        gets (λ s. get_receipt (receipt_id w (str context.result.result_envelope_id) usage_id) s.db)
    existing_or_new context q usage existing
