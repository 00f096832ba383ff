-- ===== src/Outbox/Fifo.antt =====
-- The steps of the outbox and its flusher, events/outbox.py and events/flusher.py, beside those of an
-- abstract first-in first-out queue with a file behind it.
use Prim.Native.String.{◌++◌ as append}
use token_bank.Prelude.{
  ℕ, suc, Bool, length, map, any, str_eq, String, ◌≡◌, true, false, Option, List, [], ◌∷◌, ◌++◌,
}
use token_bank.Json.{Json}
use token_bank.World.{World}
use token_bank.Redaction.{redact_sensitive_value}
use token_bank.Db.{EventRow}
use token_bank.Session.{Session}
use token_bank.Outbox.{OutboxEventInput, enqueue_event, limit_rows}
use token_bank.Outbox.Queue.{event_key, queue}
use token_bank.Outbox.Flusher.{flush_pending_events}
use token_bank.Outbox.Flushing.{appended}
use token_bank.Outbox.Draining.{drop_rows}

-- A step of the outbox: an event is posted, or a batch is flushed at the times that `clock` reads.
pub data Step : Type 0 where
  post : OutboxEventInput → Step
  flush : ℕ → (ℕ → String) → Step

pub record OutboxState : Type 0 where
  pub session : Session
  pub lines : List Json

module _ (w : World) (append_error : EventRow → Option String) where
  unfoldable pub take_step : Step → OutboxState → OutboxState
  unfolding enqueue_event flush_pending_events
  take_step (post event) c = record c { session = (enqueue_event w event c.session).1 }
  take_step (flush limit clock) c =
      let s = flush_pending_events append_error clock c.session.db c.lines limit in
      record { session = record c.session { db = s.db }; lines = s.lines }

  unfoldable pub take_steps : List Step → OutboxState → OutboxState
  unfolding take_step
  take_steps [] c = c
  take_steps (step ∷ steps) c = take_steps steps (take_step step c)

-- The abstract queue: the rows that wait, the lines that are written, the identifiers that were ever
-- posted, and the number of readings of the World that were made.
pub record Fifo : Type 0 where
  pub waiting : List EventRow
  pub written : List Json
  pub used : List String
  pub draws : ℕ

abbrev pub view : OutboxState → Fifo
view c = record {
  waiting = queue c.session.db;
  written = c.lines;
  used = map event_key c.session.db.event_outbox;
  draws = c.session.reads;
}

-- the identifier that a post draws
abbrev pub drawn : World → Fifo → String
drawn w q = append "evt_" (w.uuid_hex (suc q.draws))

abbrev pub is_used : Fifo → String → Bool
is_used q id = any (λ other. str_eq other id) q.used

-- A row that bears the event, its body redacted, with the drawn identifier and the next number.
pub record Bears (w : World) (q : Fifo) (event : OutboxEventInput) (row : EventRow) : Type 0 where
  pub id : row.event_id ≡ drawn w q
  pub numbered : row.sequence ≡ suc (length q.used)
  pub source : row.source ≡ event.source
  pub type : row.type ≡ event.type
  pub subject : row.subject ≡ event.subject
  pub run_id : row.run_id ≡ event.run_id
  pub work_unit_id : row.work_unit_id ≡ event.work_unit_id
  pub attempt_id : row.attempt_id ≡ event.attempt_id
  pub assignment_id : row.assignment_id ≡ event.assignment_id
  pub body : row.body_json ≡ redact_sensitive_value event.body

-- What a step does to the abstract queue. A post is refused exactly where the drawn identifier is used.
pub data FifoStep (w : World) (append_error : EventRow → Option String)
    : Step → Fifo → Fifo → Type 0 where
  posted :
      {q r : Fifo} (event : OutboxEventInput) (row : EventRow)
      → is_used q (drawn w q) ≡ false
      → Bears w q event row
      → r ≡ record {
        waiting = q.waiting ++ row ∷ [];
        written = q.written;
        used = q.used ++ drawn w q ∷ [];
        draws = suc (suc (suc q.draws));
      }
      → FifoStep w append_error (post event) q r
  refused :
      {q r : Fifo} (event : OutboxEventInput)
      → is_used q (drawn w q) ≡ true
      → r ≡ record q { draws = suc (suc (suc q.draws)) }
      → FifoStep w append_error (post event) q r
  flushed :
      {q r : Fifo} (limit : ℕ) (clock : ℕ → String)
      → r ≡ record q {
        waiting = drop_rows limit q.waiting;
        written = q.written ++ appended append_error (limit_rows limit q.waiting);
      }
      → FifoStep w append_error (flush limit clock) q r

pub data FifoRun (w : World) (append_error : EventRow → Option String)
    : List Step → Fifo → Fifo → Type 0 where
  done : {q : Fifo} → FifoRun w append_error [] q q
  next :
      {step : Step} {steps : List Step} {p q r : Fifo}
      → FifoStep w append_error step p q
      → FifoRun w append_error steps q r
      → FifoRun w append_error (step ∷ steps) p r
