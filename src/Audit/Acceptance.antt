-- ===== src/Audit/Acceptance.antt =====
-- When `create_for_work_unit` of audit/receipts.py gives a receipt.
use mathlib.Core.Path.{subst}
use token_bank.Prelude.{
  String, ◌≡◌, refl, Bool, true, false, ◌||◌, some, none, arith, str_eq, if◌then◌else◌, Bool-cases,
  Option-cases, inl, inr,
}
use token_bank.Result.{Error, ok, err, key_error, value_error, type_error}
use token_bank.Exec.{◌>>=◌}
use token_bank.Json.{Json, str, arr, obj, get}
use token_bank.World.{World}
use token_bank.Db.{Db, WorkUnitRow, ResultRow, VerifierReportRow}
use token_bank.Session.{Session}
use token_bank.Session.Runs.{bind-ok, lookup_step, pure-ok}
use token_bank.Ledger.Bodies.{dict_of}
use token_bank.Ledger.Repository.{newest_result, newest_report, newest_plan}
use token_bank.Audit.Receipt.{AcceptedContext}
use token_bank.Audit.Repository.{
  ReceiptView, ReceiptRequest, require_accepted, accepted_context, create_for_work_unit,
}
use token_bank.Sql.{fetchone}
use token_bank.Scheduler.Tables.{is_work_unit, is_assignment}

-- the recommendation of a verifier's report is to accept
abbrev pub accepts : Json → Bool
accepts (str s) = str_eq s "accept" || str_eq s "accept_with_warning"
accepts _ = false

require_accepted-ok :
    (v : Json) (s : Session) (u : Unit {0}) → (require_accepted v s).0 ≡ ok u → accepts v ≡ true
unfolding require_accepted ◌>>=◌
require_accepted-ok (str t) s u e = ground arith
require_accepted-ok _ s u e = ground arith

require_accepted-state : (v : Json) (s : Session) → (require_accepted v s).1 ≡ s
unfolding require_accepted ◌>>=◌
require_accepted-state (str t) s = ground arith
require_accepted-state _ s = ground arith

-- where the rows of a context come from
pub record IsContext (id : String) (db : Db) (c : AcceptedContext) : Type 0 where
  pub unit : fetchone (is_work_unit id) db.work_units ≡ some c.work_unit
  pub result : newest_result id db ≡ some c.result
  pub report : newest_report c.result.result_envelope_id db ≡ some c.verifier
  pub accepted : accepts (get (dict_of c.verifier.body_json) "recommendation") ≡ true
  pub plan : newest_plan id db ≡ some c.route
  pub of_assignment :
      fetchone (is_assignment c.result.assignment_id) db.assignments ≡ some c.assignment

pub accepted_context-ok :
    (id : String) (s : Session) (c : AcceptedContext)
    → (accepted_context id s).0 ≡ ok c
    → IsContext id s.db c
unfolding accepted_context
accepted_context-ok id s c e =
    lookup_step (λ x. fetchone (is_work_unit id) x.db.work_units) key_error _ s c e
      λ unit found₁ e₁.
        lookup_step (λ x. newest_result id x.db) key_error _ s c e₁
          λ result found₂ e₂.
            lookup_step (λ x. newest_report result.result_envelope_id x.db) key_error _ s c e₂
              λ report found₃ e₃.
                let (u, checked, onward) =
                  bind-ok (require_accepted (get (dict_of report.body_json) "recommendation")) _ s c
                    e₃ in
                let e₄ =
                  rw
                    (
                      onward,
                      require_accepted-state (get (dict_of report.body_json) "recommendation") s,
                    )
                    at e₃ in
                lookup_step (λ x. newest_plan id x.db) key_error _ s c e₄
                  λ route found₅ e₅.
                    lookup_step
                      (λ x. fetchone (is_assignment result.assignment_id) x.db.assignments)
                      key_error _ s c e₅
                      λ assignment found₆ e₆. subst (IsContext id s.db) (pure-ok _ c s e₆) (record {
                        unit = found₁;
                        result = found₂;
                        report = found₃;
                        accepted =
                            require_accepted-ok (get (dict_of report.body_json) "recommendation") s
                              u checked;
                        plan = found₅;
                        of_assignment = found₆;
                      })

require_accepted-true :
    (v : Json) (s : Session) → accepts v ≡ true → require_accepted v s ≡ (ok tt, s)
unfolding require_accepted ◌>>=◌
require_accepted-true (str t) s h = ground arith
require_accepted-true _ s h = ground arith

-- and where they are found, they are given
pub accepted_context-found :
    (id : String) (s : Session) (c : AcceptedContext)
    → IsContext id s.db c
    → accepted_context id s ≡ (ok c, s)
unfolding accepted_context ◌>>=◌
accepted_context-found id s c h =
    rw
      (
        h.unit,
        h.result,
        h.report,
        require_accepted-true (get (dict_of c.verifier.body_json) "recommendation") s h.accepted,
        h.plan,
        h.of_assignment,
      )
      refl

-- If `create_for_work_unit` returns, the newest report on the newest result of the Work Unit that
-- succeeded recommends to accept it, with or without a warning.
pub create_for_work_unit-accepts :
    (w : World) (id : String) (q : ReceiptRequest) (s : Session) (v : ReceiptView)
    → (create_for_work_unit w id q s).0 ≡ ok v
    → (result : ResultRow) × (report : VerifierReportRow) × (newest_result id s.db ≡ some result)
      × (newest_report result.result_envelope_id s.db ≡ some report)
      × (accepts (get (dict_of report.body_json) "recommendation") ≡ true)
unfolding create_for_work_unit
create_for_work_unit-accepts w id q s v e =
    let (c, returned, _) = bind-ok (accepted_context id) _ s v e in
    let found = accepted_context-ok id s c returned in
    (c.result, c.verifier, found.result, found.report, found.accepted)

-- neither a list nor a `dict`, which have no hash
abbrev pub is_hashable : Json → Bool
is_hashable (arr xs) = false
is_hashable (obj fs) = false
is_hashable _ = true

-- Why a request for a receipt is refused, and with which exception.
pub data Refuses (id : String) (db : Db) : Error → Type 0 where
  no_work_unit : fetchone (is_work_unit id) db.work_units ≡ none → Refuses id db key_error
  no_result :
      (unit : WorkUnitRow)
      → fetchone (is_work_unit id) db.work_units ≡ some unit
      → newest_result id db ≡ none
      → Refuses id db key_error
  no_report :
      (unit : WorkUnitRow) (result : ResultRow)
      → fetchone (is_work_unit id) db.work_units ≡ some unit
      → newest_result id db ≡ some result
      → newest_report result.result_envelope_id db ≡ none
      → Refuses id db key_error
  not_accepted :
      (unit : WorkUnitRow) (result : ResultRow) (report : VerifierReportRow)
      → fetchone (is_work_unit id) db.work_units ≡ some unit
      → newest_result id db ≡ some result
      → newest_report result.result_envelope_id db ≡ some report
      → is_hashable (get (dict_of report.body_json) "recommendation") ≡ true
      → Refuses id db value_error
  not_hashable :
      (unit : WorkUnitRow) (result : ResultRow) (report : VerifierReportRow)
      → fetchone (is_work_unit id) db.work_units ≡ some unit
      → newest_result id db ≡ some result
      → newest_report result.result_envelope_id db ≡ some report
      → is_hashable (get (dict_of report.body_json) "recommendation") ≡ false
      → Refuses id db type_error

-- the request is refused for one of these reasons, and the connection stays as it is
abbrev pub Refused : World → String → ReceiptRequest → Session → Type 0
Refused w id q s = (e : Error) × Refuses id s.db e × (create_for_work_unit w id q s ≡ (err e, s))

require_accepted-refused :
    (v : Json) (s : Session)
    → accepts v ≡ false
    → require_accepted v s ≡ (err (if is_hashable v then value_error else type_error), s)
unfolding require_accepted ◌>>=◌
require_accepted-refused (str t) s h = ground arith
require_accepted-refused _ s h = ground arith

module _ (w : World) (id : String) (q : ReceiptRequest) (s : Session) where
  recommended-Refused :
      (unit : WorkUnitRow) (result : ResultRow) (report : VerifierReportRow)
      → fetchone (is_work_unit id) s.db.work_units ≡ some unit
      → newest_result id s.db ≡ some result
      → newest_report result.result_envelope_id s.db ≡ some report
      → accepts (get (dict_of report.body_json) "recommendation") ≡ false
      → Refused w id q s
  unfolding create_for_work_unit accepted_context ◌>>=◌
  recommended-Refused unit result report u r v rejected =
      let says = get (dict_of report.body_json) "recommendation" in
      let raised = require_accepted-refused says s rejected in
      elim (Bool-cases (is_hashable says)) [
        | inl hashable ↦ (
          value_error,
          not_accepted unit result report u r v hashable,
          rw (u, r, v, raised, hashable) refl,
        )
        | inr unhashable ↦ (
          type_error,
          not_hashable unit result report u r v unhashable,
          rw (u, r, v, raised, unhashable) refl,
        )
      ]

  -- If the Work Unit has no succeeded result with a report, or the newest report on the newest one does
  -- not recommend to accept, `create_for_work_unit` raises and leaves the whole connection as it was.
  -- It raises KeyError if the Work Unit, the result or the report is missing, TypeError if the
  -- recommendation is a list or a `dict`, and ValueError if it is anything else.
  pub create_for_work_unit-Refused :
      ((result : ResultRow) (report : VerifierReportRow)
        → newest_result id s.db ≡ some result
        → newest_report result.result_envelope_id s.db ≡ some report
        → accepts (get (dict_of report.body_json) "recommendation") ≡ false)
      → Refused w id q s
  unfolding create_for_work_unit accepted_context ◌>>=◌
  create_for_work_unit-Refused unaccepted =
      elim (Option-cases (fetchone (is_work_unit id) s.db.work_units)) [
        | inl missing ↦ (key_error, no_work_unit missing, rw missing refl)
        | inr (unit, u) ↦ elim (Option-cases (newest_result id s.db)) [
          | inl missing ↦ (key_error, no_result unit u missing, rw (u, missing) refl)
          | inr (result, r) ↦ elim (Option-cases (newest_report result.result_envelope_id s.db)) [
            | inl missing ↦ (key_error, no_report unit result u r missing, rw (u, r, missing) refl)
            | inr (report, v) ↦
                recommended-Refused unit result report u r v (unaccepted result report r v)
          ]
        ]
      ]
