-- ===== src/Ledger/Repository.antt =====
-- UsageLedgerRepository of ledger/usage.py.
use Prim.Native.String.{◌++◌ as append}
use mathlib.Core.Option
use token_bank.Prelude.{
  String, Bool, true, false, not, ◌||◌, ◌&&◌, Option, none, some, List, [], ◌∷◌, ◌++◌, any, keep,
  map, ltb, str_eq, if◌then◌else◌,
}
use token_bank.Result.{key_error, integrity_error, overflow_error}
use token_bank.Exec.{Exec, pure, gets, or_raise, raise_if, modify, ◌>>=◌, ◌>>◌}
use token_bank.Json.{Json, str, obj, fields, nat}
use token_bank.World.{World}
use token_bank.Sql.{fetchone, first_by, update_where}
use token_bank.Sql.Order.{text_before, newest_first, order_by}
use token_bank.Db.{Db, RoutePlanRow, ResultRow, ResultStatus, VerifierReportRow, UsageRow}
use token_bank.Session.{Session, transaction}
use token_bank.Outbox.{OutboxEventInput, enqueue_event, set_db}
use token_bank.Scheduler.Tables.{is_work_unit, is_route_plan, is_result}
use token_bank.Ledger.Entry.{UsageContext, UsageLedgerEntry, build_usage_entry}

-- what the methods return; `upsert_entry` gives no `created_at`
pub record EntryView : Type 0 where
  pub usage_ledger_entry : Json
  pub entry_hash : String
  pub created_at : Option String

abbrev pub is_entry : String → UsageRow → Bool
is_entry id row = str_eq row.usage_ledger_entry_id id

abbrev pub is_report : String → VerifierReportRow → Bool
is_report id row = str_eq row.verifier_report_id id

unfoldable pub entry_row : UsageLedgerEntry → UsageRow
entry_row e = record {
  usage_ledger_entry_id = e.usage_ledger_entry_id;
  work_unit_id = e.work_unit_id;
  run_id = e.run_id;
  route_plan_id = e.route_plan_id;
  result_envelope_id = e.result_envelope_id;
  verifier_report_id = e.verifier_report_id;
  account_snapshot_id = e.account_snapshot_id;
  usage_source = e.usage_source;
  cost_source = e.cost_source;
  billable_cost_micros = e.billable_cost_micros;
  entry_hash = e.entry_hash;
  body_json = e.body;
  created_at = e.created_at;
}

-- DO UPDATE SET ... = excluded. ...
unfoldable pub revise : UsageRow → UsageRow → UsageRow
revise excluded row = record row {
  verifier_report_id = excluded.verifier_report_id;
  account_snapshot_id = excluded.account_snapshot_id;
  usage_source = excluded.usage_source;
  cost_source = excluded.cost_source;
  billable_cost_micros = excluded.billable_cost_micros;
  entry_hash = excluded.entry_hash;
  body_json = excluded.body_json;
}

-- a foreign key that may be NULL
abbrev pub dangles : (String → Bool) → Option String → Bool
dangles known none = false
dangles known (some id) = not (known id)

-- The foreign keys: on a conflict only the updated columns are checked.
unfoldable pub refuses_entry : UsageRow → Db → Bool
refuses_entry row db =
    (not (any (is_entry row.usage_ledger_entry_id) db.usage_ledger_entries)
      && (not (any (is_work_unit row.work_unit_id) db.work_units)
          || not (any (is_route_plan row.route_plan_id) db.route_plans)
          || not (any (is_result row.result_envelope_id) db.result_envelopes)))
    || dangles (λ id. any (is_report id) db.verifier_reports) row.verifier_report_id
    || dangles (λ id. any (str_eq id) db.account_snapshots) row.account_snapshot_id

unfoldable pub put_entry : UsageRow → List UsageRow → List UsageRow
unfolding update_where revise
put_entry row rows =
    if any (is_entry row.usage_ledger_entry_id) rows
    then update_where (is_entry row.usage_ledger_entry_id) (revise row) rows
    else rows ++ row ∷ []

unfoldable pub set_entries : UsageRow → Db → Db
unfolding put_entry
set_entries row db = record db { usage_ledger_entries = put_entry row db.usage_ledger_entries }

-- INSERT INTO usage_ledger_entries ... ON CONFLICT(usage_ledger_entry_id) DO UPDATE
unfoldable pub upsert_row : UsageRow → Exec Session (Unit {0})
unfolding refuses_entry set_entries
upsert_row row = do
  raise_if (not (ltb row.billable_cost_micros 9223372036854775808)) overflow_error
  refused ← gets (λ s. refuses_entry row s.db)
  raise_if refused integrity_error
  modify (set_db (set_entries row))

unfoldable pub recorded_event : UsageLedgerEntry → OutboxEventInput
recorded_event e = record {
  source = "tokenbank.ledger";
  type = "usage_ledger_entry.recorded";
  subject = append "usage_ledger_entries/" e.usage_ledger_entry_id;
  run_id = some e.run_id;
  work_unit_id = some e.work_unit_id;
  attempt_id = none;
  assignment_id = none;
  body = obj (
      fields (
        ("usage_ledger_entry_id", str e.usage_ledger_entry_id)
        ∷ ("work_unit_id", str e.work_unit_id)
        ∷ ("run_id", str e.run_id)
        ∷ ("route_plan_id", str e.route_plan_id)
        ∷ ("result_envelope_id", str e.result_envelope_id)
        ∷ ("usage_source", str e.usage_source)
        ∷ ("cost_source", str e.cost_source)
        ∷ ("billable_cost_micros", nat e.billable_cost_micros)
        ∷ ("entry_hash", str e.entry_hash)
        ∷ []));
}

abbrev pub view_row : UsageRow → EntryView
view_row row = record {
  usage_ledger_entry = row.body_json;
  entry_hash = row.entry_hash;
  created_at = some row.created_at;
}

unfoldable pub get_entry : String → Db → Option EntryView
unfolding fetchone
get_entry id db = Option.map view_row (fetchone (is_entry id) db.usage_ledger_entries)

-- `if work_unit_id:`, where an empty text is no filter either
abbrev pub passes : Option String → String → Bool
passes none value = true
passes (some wanted) value = str_eq wanted "" || str_eq value wanted

unfoldable pub list_rows : Option String → Option String → Db → List UsageRow
unfolding order_by newest_first
list_rows work_unit_id run_id db =
    order_by
      (λ a b.
        newest_first a.created_at a.usage_ledger_entry_id b.created_at b.usage_ledger_entry_id)
      (keep (λ row. passes work_unit_id row.work_unit_id && passes run_id row.run_id)
        db.usage_ledger_entries)

unfoldable pub list_entries : Option String → Option String → Db → List EntryView
unfolding list_rows
list_entries work_unit_id run_id db = map view_row (list_rows work_unit_id run_id db)

abbrev has_succeeded : ResultStatus → Bool
has_succeeded ResultStatus.succeeded = true
has_succeeded _ = false

-- ORDER BY created_at DESC LIMIT 1
unfoldable pub newest_result : String → Db → Option ResultRow
unfolding first_by text_before
newest_result work_unit_id db =
    first_by (λ a b. text_before b.created_at a.created_at)
      (keep (λ row. str_eq row.work_unit_id work_unit_id && has_succeeded row.status)
        db.result_envelopes)

unfoldable pub newest_plan : String → Db → Option RoutePlanRow
unfolding first_by text_before
newest_plan work_unit_id db =
    first_by (λ a b. text_before b.created_at a.created_at)
      (keep (λ row. str_eq row.work_unit_id work_unit_id) db.route_plans)

unfoldable pub newest_report : String → Db → Option VerifierReportRow
unfolding first_by text_before
newest_report result_envelope_id db =
    first_by (λ a b. text_before b.created_at a.created_at)
      (keep (λ row. str_eq row.result_envelope_id result_envelope_id) db.verifier_reports)

-- UsageLedgerRepository._completed_context
unfoldable pub completed_context : String → Exec Session UsageContext
unfolding fetchone newest_result newest_plan newest_report
completed_context work_unit_id = do
  unit_row ← gets (λ s. fetchone (is_work_unit work_unit_id) s.db.work_units)
  unit ← or_raise key_error unit_row
  result_row ← gets (λ s. newest_result work_unit_id s.db)
  result ← or_raise key_error result_row
  route_row ← gets (λ s. newest_plan work_unit_id s.db)
  route ← or_raise key_error route_row
  verifier ← gets (λ s. newest_report result.result_envelope_id s.db)
  pure (record { work_unit = unit; route = route; result = result; verifier = verifier })

module _ (w : World) where
  unfoldable pub upsert_entry : UsageLedgerEntry → Exec Session EntryView
  unfolding entry_row upsert_row recorded_event
  upsert_entry e = do
    transaction (upsert_row (entry_row e) >> enqueue_event w (recorded_event e))
    pure (record { usage_ledger_entry = e.body; entry_hash = e.entry_hash; created_at = none })

  -- The routebook is loaded after the context is read.
  unfoldable pub record_for_work_unit :
      String → String → String → Option String → Exec Session EntryView
  unfolding completed_context build_usage_entry upsert_entry
  record_for_work_unit routebook_id routebook_version work_unit_id account_snapshot_id = do
    context ← completed_context work_unit_id
    entry ← build_usage_entry w context account_snapshot_id routebook_id routebook_version
    upsert_entry entry
