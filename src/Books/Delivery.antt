-- ===== src/Books/Delivery.antt =====
-- Every event that the requests announce can be delivered.
use token_bank.Prelude.{ℕ, ◌*◌, ◌≤◌, String, ◌≡◌, refl, Option, List, [], ◌++◌, length, arith}
use token_bank.Exec.Keeps.{IsPreorder}
use token_bank.Json.{Json}
use token_bank.World.{World}
use token_bank.Sql.Rows.{Numbered-append, max_column-Numbered, Distinct-append}
use token_bank.Db.{Db, EventRow}
use token_bank.Session.{Session}
use token_bank.Outbox.{append_event, next_sequence}
use token_bank.Outbox.Sequence.{IsNewEvent}
use token_bank.Outbox.Flushing.{appended}
use token_bank.Outbox.Queue.{event_key, sequence_of, queue, IsQueue}
use token_bank.Outbox.Draining.{flush_all, flush_all-drains}
use token_bank.Scheduler.Tables.{
  append_attempt, append_assignment, append_result, append_quarantine, append_health,
}
use token_bank.Scheduler.Effects.{Allows}
use token_bank.Ledger.Repository.{set_entries}
use token_bank.Audit.Repository.{append_receipt}
use token_bank.Books.Effects.{AllowsBooks}
use token_bank.Books.Requests.{Request, answer_all}
use token_bank.Books.Serving.{answer_all-moves}

abbrev QueueKept : Db → Db → Type 0
QueueKept a b = IsQueue a → IsQueue b

QueueKept-preorder : IsPreorder QueueKept
QueueKept-preorder = record { same = λ a v. v; chain = λ a b c h k v. k (h v) }

append_event-QueueKept :
    (db : Db) (row : EventRow) → IsNewEvent row db.event_outbox → QueueKept db (append_event row db)
unfolding append_event
append_event-QueueKept db row new v = record {
  sequences = Numbered-append sequence_of 1 db.event_outbox row v.sequences (
      unfold next_sequence in
      omega (arith, new.numbered, max_column-Numbered sequence_of db.event_outbox v.sequences));
  event_ids = Distinct-append event_key db.event_outbox row v.event_ids new.unused;
}

same_outbox : (a b : Db) → b.event_outbox ≡ a.event_outbox → QueueKept a b
same_outbox a b same v = record { sequences = rw same v.sequences; event_ids = rw same v.event_ids }

QueueKept-Allows : Allows QueueKept
unfolding append_attempt append_assignment append_result append_quarantine append_health
QueueKept-Allows = record {
  preorder = QueueKept-preorder;
  new_event = append_event-QueueKept;
  new_attempt = λ db row _. same_outbox db _ refl;
  new_assignment = λ db row _. same_outbox db _ refl;
  new_result = λ db row _. same_outbox db _ refl;
  new_quarantine = λ db row _. same_outbox db _ refl;
  new_health = λ db row _. same_outbox db _ refl;
  set_work_unit = λ db id f h. same_outbox db _ refl;
  set_attempt = λ db id f h. same_outbox db _ refl;
  set_assignment = λ db id f h. same_outbox db _ refl;
  renew = λ db id version u now current found. same_outbox db _ refl;
}

QueueKept-AllowsBooks : AllowsBooks QueueKept
unfolding set_entries append_receipt
QueueKept-AllowsBooks = record {
  preorder = QueueKept-preorder;
  new_event = append_event-QueueKept;
  put_entry = λ db row _. same_outbox db _ refl;
  new_receipt = λ db row _. same_outbox db _ refl;
}

-- From an outbox whose rows are numbered 1, 2, 3, ... and whose identifiers are distinct, after any
-- requests, enough flushes, whose number times the limit is at least that of the pending rows, leave
-- none pending. The file then holds, behind what it held, the documents of all that were pending, in
-- order, but for those whose append raises.
pub answer_all-delivered :
    (w : World) (s : Session) (rs : List Request) (append_error : EventRow → Option String)
    (limit : ℕ) (clocks : List (ℕ → String)) (lines : List Json)
    → IsQueue s.db
    → length (queue (answer_all w s rs).db) ≤ length clocks * limit
    → (queue (flush_all append_error limit clocks (answer_all w s rs).db lines).0 ≡ [])
      × ((flush_all append_error limit clocks (answer_all w s rs).db lines).1
          ≡ lines ++ appended append_error (queue (answer_all w s rs).db))
answer_all-delivered w s rs append_error limit clocks lines v enough =
    flush_all-drains append_error limit clocks (answer_all w s rs).db lines
      (answer_all-moves QueueKept-Allows QueueKept-AllowsBooks w s rs v) enough
