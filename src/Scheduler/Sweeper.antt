-- ===== src/Scheduler/Sweeper.antt =====
-- scheduler/sweeper.py. The updates run in the transaction that `sqlite3` opens by itself, and
-- nothing rolls it back if one raises.
use Prim.Native.String.{◌++◌ as append}
use token_bank.Prelude.{
  ℕ, String, Bool, true, false, ◌&&◌, Option, none, some, List, [], ◌∷◌, keep, length,
}
use token_bank.Exec.{Exec, pure, gets, ◌>>=◌, ◌>>◌}
use token_bank.Json.{str, obj, fields}
use token_bank.World.{World}
use token_bank.Db.{AssignmentRow, AssignmentStatus}
use token_bank.Session.{Session, read}
use token_bank.Outbox.{OutboxEventInput, enqueue_event}
use token_bank.Scheduler.Tables.{is_assignment, update_assignments}
use token_bank.Sql.Order.{text_before}

-- WHERE status IN ('accepted', 'running') AND lease_expires_at IS NOT NULL AND lease_expires_at < ?
unfoldable pub is_leased : AssignmentStatus → Bool
is_leased AssignmentStatus.accepted = true
is_leased AssignmentStatus.running = true
is_leased _ = false

unfoldable pub expires_before : String → Option String → Bool
unfolding text_before
expires_before now none = false
expires_before now (some t) = text_before t now

unfoldable pub is_overdue : String → AssignmentRow → Bool
unfolding is_leased expires_before
is_overdue now row = is_leased row.status && expires_before now row.lease_expires_at

unfoldable pub set_expired : String → AssignmentRow → AssignmentRow
set_expired now row = record row { status = AssignmentStatus.expired; updated_at = some now }

unfoldable pub expired_event : AssignmentRow → OutboxEventInput
expired_event row = record {
  source = "tokenbank.scheduler.sweeper";
  type = "assignment.expired";
  subject = append "assignments/" row.assignment_id;
  body = obj (fields (("assignment_id", str row.assignment_id) ∷ ("status", str "expired") ∷ []));
  run_id = none;
  work_unit_id = some row.work_unit_id;
  attempt_id = some row.attempt_id;
  assignment_id = some row.assignment_id;
}

module _ (w : World) where
  unfoldable pub sweep_row : AssignmentRow → Exec Session (Unit {0})
  unfolding set_expired expired_event
  sweep_row row = do
    now ← read w.clock_text
    update_assignments (is_assignment row.assignment_id) (set_expired now)
    enqueue_event w (expired_event row)
    pure tt

  unfoldable pub sweep_rows : List AssignmentRow → Exec Session (Unit {0})
  unfolding sweep_row
  sweep_rows [] = pure tt
  sweep_rows (row ∷ rows) = do sweep_row row; sweep_rows rows

  unfoldable pub sweep_expired_leases : Exec Session ℕ
  unfolding is_overdue sweep_rows
  sweep_expired_leases = do
    now ← read w.clock_text
    rows ← gets (λ s. keep (is_overdue now) s.db.assignments)
    sweep_rows rows
    pure (length rows)
