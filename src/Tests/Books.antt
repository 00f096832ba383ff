-- ===== src/Tests/Books.antt =====
-- The usage ledger and the audit receipts at one finished Work Unit.
use token_bank.Prelude.{
  false, ℕ, String, ◌≡◌, refl, Option, none, some, List, [], ◌∷◌, ◌++◌, ◌≤◌, All, max, length,
  str_eq, Bool-cases, inl, inr, true, if◌then◌else◌, arith,
}
use mathlib.Core.Path.{subst}
use token_bank.Result.{Result, ok, err}
use token_bank.Exec.{◌>>=◌}
use token_bank.Json.{Fields, str, obj, end, field, nat, get}
use token_bank.Sql.{fetchone}
use token_bank.Sql.Evolution.{Evolves}
use token_bank.Db.{ResultRow, ResultStatus, VerifierReportRow, ReceiptRow, EventRow}
use token_bank.Session.{Session, read, transaction}
use token_bank.Outbox.{OutboxEventInput, enqueue_event}
use token_bank.Outbox.Queue.{queue, IsQueue}
use token_bank.Outbox.Draining.{flush_all}
use token_bank.Outbox.Flushing.{appended}
use token_bank.Outbox.Fifo.{Step, OutboxState, take_steps, view, FifoRun}
use token_bank.Outbox.Refinement.{take_steps-refines}
use token_bank.Scheduler.Calls.{Call, make, perform}
use token_bank.Scheduler.Sweeper.{is_overdue, sweep_row, sweep_rows, sweep_expired_leases}
use token_bank.Scheduler.Invariant.{Inv}
use token_bank.Scheduler.History.{Grows}
use token_bank.Ledger.Amounts.{usage_amounts, billable_cost}
use token_bank.Ledger.Bodies.{dict_of, need, dicts_at, non_empty, opt_non_empty, opt_text}
use token_bank.Ledger.Billing.{amount, cost, billable_cost_bounds}
use token_bank.Ledger.Entry.{
  UsageLedgerEntry, validate_entry, check_recommendation, capacity_profile_id, profile_node,
  build_usage_entry,
}
use token_bank.Ledger.Repository.{
  EntryView, is_entry, upsert_row, upsert_entry, get_entry, completed_context, newest_result,
  newest_report, record_for_work_unit,
}
use token_bank.Ledger.Recording.{recorded_view, get_entry-upsert_entry}
use token_bank.Audit.Receipt.{receipt_id, validate_receipt, build_receipt}
use token_bank.Audit.Repository.{
  ReceiptRequest, ReceiptView, insert_row, insert_receipt, require_accepted, accepted_context,
  usage_entry_for, ensure_usage_entry, latest_or_record, existing_or_new, create_for_work_unit,
}
use token_bank.Audit.Acceptance.{
  accepts, create_for_work_unit-accepts, Refused, create_for_work_unit-Refused,
}
use token_bank.Books.Invariant.{BooksInv}
use token_bank.Books.Requests.{Request, answer, answer_all}
use token_bank.Books.Serving.{answer_all-BooksInv, answer_all-receipts}
use token_bank.Books.Delivery.{answer_all-delivered}
use token_bank.Books.Repeated.{Repeats, create_for_work_unit-repeated}
use token_bank.Tests.Data.{world, leased, start, first_attempt}

abbrev result : ResultRow
result = record {
  result_envelope_id = "res_1";
  work_unit_id = "wu_1";
  attempt_id = "att_1";
  assignment_id = "asg_1";
  status = ResultStatus.succeeded;
  output_hash = "h1";
  result_hash = "h2";
  body_json = obj (
      field "result_envelope_id" (str "res_1")
        (field "result_hash" (str "h2") (field "actual_cost_micros" (nat 7) end)));
  created_at = "2026-01-01T00:00:00Z";
}

abbrev report_of : String → VerifierReportRow
report_of recommendation = record {
  verifier_report_id = "vr_1";
  work_unit_id = "wu_1";
  result_envelope_id = "res_1";
  body_json =
      obj
        (field "verifier_report_id" (str "vr_1") (field "recommendation" (str recommendation) end));
  created_at = "2026-01-01T00:00:00Z";
}

-- a Work Unit with a result and a report on it
abbrev finished : String → Session
finished recommendation =
    let s =
      start first_attempt
        (record leased { body_json = obj (field "assignment_id" (str "asg_1") end) }) in
    record s {
      db = record s.db {
        result_envelopes = result ∷ [];
        verifier_reports = report_of recommendation ∷ [];
      };
    }

abbrev done : Session
done = finished "accept"

abbrev entry : UsageLedgerEntry
entry = record {
  usage_ledger_entry_id = "ule_1";
  work_unit_id = "wu_1";
  run_id = "run_1";
  route_plan_id = "rp_1";
  result_envelope_id = "res_1";
  verifier_report_id = some "vr_1";
  account_snapshot_id = none;
  usage_source = "not_available";
  cost_source = "provider_reported";
  billable_cost_micros = 7;
  entry_hash = "h3";
  body = obj (field "usage_ledger_entry_id" (str "ule_1") (field "entry_hash" (str "h3") end));
  created_at = "2026-01-01T00:00:00Z";
}

abbrev entry_view : EntryView
entry_view = record { usage_ledger_entry = entry.body; entry_hash = "h3"; created_at = none }

entry_recorded : (upsert_entry world entry done).0 ≡ ok entry_view
unfolding world upsert_entry upsert_row transaction ◌>>=◌ read enqueue_event
entry_recorded = refl

get_entry-upsert_entry_example : get_entry "ule_1" (upsert_entry world entry done).1.db ≡ (
    if str_eq "ule_1" "ule_1"
    then some (recorded_view entry (fetchone (is_entry "ule_1") done.db.usage_ledger_entries))
    else get_entry "ule_1" done.db)
get_entry-upsert_entry_example =
    get_entry-upsert_entry world entry done entry_view "ule_1" entry_recorded

abbrev body : Fields
body = field "actual_cost_micros" (nat 7) end

abbrev usage_record : Fields
usage_record = field "actual_cost_micros" (nat 5) (field "cost_estimate_micros" (nat 9) end)

billable_cost_bounds_example :
    (amount "actual_cost_micros" body ≤ billable_cost (usage_amounts body (usage_record ∷ [])))
    × All
        (λ item.
          amount "actual_cost_micros" item ≤ billable_cost (usage_amounts body (usage_record ∷ [])))
        (usage_record ∷ [])
    × (billable_cost (usage_amounts body (usage_record ∷ []))
        ≤ max
            (cost "actual_cost_micros" "actual_cost_micros" body (usage_record ∷ []))
            (cost "cost_estimate_micros" "estimated_cost_micros" body (usage_record ∷ [])))
billable_cost_bounds_example = billable_cost_bounds body (usage_record ∷ [])

abbrev recorded : Session
recorded = (upsert_entry world entry done).1

abbrev asked : ReceiptRequest
asked = record {
  usage_ledger_entry_id = some "ule_1";
  account_snapshot_id = none;
  routebook_id = "rb_1";
  routebook_version = "1";
}

abbrev view_or_empty : Result ReceiptView → ReceiptView
view_or_empty (ok v) = v
view_or_empty (err e) = record { audit_receipt = str ""; receipt_hash = ""; created_at = none }

-- what the request for a receipt returns
abbrev first_receipt : ReceiptView
first_receipt = view_or_empty (create_for_work_unit world "wu_1" asked recorded).0

created : (create_for_work_unit world "wu_1" asked recorded).0 ≡ ok first_receipt
unfolding world create_for_work_unit accepted_context require_accepted ensure_usage_entry
    usage_entry_for need existing_or_new build_receipt validate_receipt insert_receipt insert_row
    upsert_entry upsert_row transaction ◌>>=◌ read enqueue_event non_empty opt_non_empty receipt_id
created = refl

create_for_work_unit-accepts_example :
    (result : ResultRow) × (report : VerifierReportRow) × (newest_result "wu_1" recorded.db
      ≡ some result)
    × (newest_report result.result_envelope_id recorded.db ≡ some report)
    × (accepts (get (dict_of report.body_json) "recommendation") ≡ true)
create_for_work_unit-accepts_example =
    create_for_work_unit-accepts world "wu_1" asked recorded first_receipt created

abbrev rejected : Session
rejected = finished "reject"

rejects :
    (r : ResultRow) (v : VerifierReportRow)
    → newest_result "wu_1" rejected.db ≡ some r
    → newest_report r.result_envelope_id rejected.db ≡ some v
    → accepts (get (dict_of v.body_json) "recommendation") ≡ false
unfolding newest_result newest_report get
rejects r v e h =
    let same : result ≡ r = cc in
    let reported = rw (← same) at h in
    let said : report_of "reject" ≡ v = cc in
    subst (λ (x : VerifierReportRow). accepts (get (dict_of x.body_json) "recommendation") ≡ false)
      said refl

create_for_work_unit-Refused_example : Refused world "wu_1" asked rejected
create_for_work_unit-Refused_example =
    create_for_work_unit-Refused world "wu_1" asked rejected rejects

names_row :
    (r : ResultRow)
    → newest_result "wu_1" recorded.db ≡ some r
    → get (dict_of r.body_json) "result_envelope_id" ≡ str r.result_envelope_id
unfolding world newest_result upsert_entry upsert_row transaction ◌>>=◌ read enqueue_event get
names_row r h =
    let same : result ≡ r = cc in
    subst
      (λ (x : ResultRow). get (dict_of x.body_json) "result_envelope_id" ≡ str x.result_envelope_id)
      same refl

create_for_work_unit-repeated_example :
    Repeats world "wu_1" "ule_1" asked first_receipt
      (create_for_work_unit world "wu_1" asked recorded).1
unfolding world receipt_id
create_for_work_unit-repeated_example =
    create_for_work_unit-repeated world "wu_1" "ule_1" asked asked recorded first_receipt
      (λ a b. refl) names_row refl refl created

abbrev requests : List Request
requests =
    Request.record_usage "rb_1" "1" "wu_1" none
    ∷ Request.create_receipt "wu_1" (record asked { usage_ledger_entry_id = none })
    ∷ Request.schedule Call.sweep
    ∷ []

done-Inv : Inv done.db
done-Inv = record {
  attempt_ids = (refl, tt);
  assignment_ids = (refl, tt);
  linked = (refl, tt);
  attempt_numbers =
      λ id. elim (Bool-cases (str_eq "wu_1" id)) [ inl h ↦ rw h (refl, tt) | inr h ↦ rw h tt ];
  sequences = tt;
  redacted = tt;
}

done-BooksInv : BooksInv done.db
done-BooksInv = record {
  entry_ids = tt;
  receipt_ids = tt;
  receipt_hashes = tt;
  of_results = tt;
  of_entries = tt;
}

answer_all-BooksInv_example :
    Inv (answer_all world done requests).db × BooksInv (answer_all world done requests).db
answer_all-BooksInv_example = answer_all-BooksInv world done requests done-Inv done-BooksInv

answer_all-receipts_example :
    Evolves {A = ReceiptRow} ◌≡◌ done.db.audit_receipts
      (answer_all world done requests).db.audit_receipts
    × Grows done.db (answer_all world done requests).db
answer_all-receipts_example = answer_all-receipts world done requests done-Inv done-BooksInv

done-IsQueue : IsQueue done.db
done-IsQueue = record { sequences = tt; event_ids = tt }

abbrev no_error : EventRow → Option String
no_error row = none

abbrev clocks : List (ℕ → String)
clocks = world.clock_text ∷ world.clock_text ∷ []

waiting : length (queue (answer_all world done requests).db) ≡ 2
unfolding world answer_all answer queue make perform sweep_expired_leases sweep_rows sweep_row
    is_overdue create_for_work_unit accepted_context require_accepted ensure_usage_entry
    usage_entry_for latest_or_record record_for_work_unit completed_context build_usage_entry
    dicts_at capacity_profile_id profile_node validate_entry check_recommendation opt_text need
    existing_or_new build_receipt validate_receipt insert_receipt insert_row upsert_entry upsert_row
    transaction ◌>>=◌ read enqueue_event non_empty opt_non_empty receipt_id
waiting = refl

answer_all-delivered_example :
    (queue (flush_all no_error 5 clocks (answer_all world done requests).db []).0 ≡ [])
    × ((flush_all no_error 5 clocks (answer_all world done requests).db []).1
        ≡ [] ++ appended no_error (queue (answer_all world done requests).db))
answer_all-delivered_example =
    answer_all-delivered world done requests no_error 5 clocks [] done-IsQueue
      (omega (arith, waiting))

abbrev event : OutboxEventInput
event = record {
  source = "tokenbank.test";
  type = "test.made";
  subject = "tests/1";
  run_id = none;
  work_unit_id = none;
  attempt_id = none;
  assignment_id = none;
  body = obj (field "token" (str "t") end);
}

abbrev outbox : OutboxState
outbox = record { session = done; lines = [] }

abbrev steps : List Step
steps = Step.post event ∷ Step.flush 5 world.clock_text ∷ Step.post event ∷ []

take_steps-refines_example :
    FifoRun world no_error steps (view outbox) (view (take_steps world no_error steps outbox))
take_steps-refines_example = take_steps-refines world no_error steps outbox done-IsQueue
