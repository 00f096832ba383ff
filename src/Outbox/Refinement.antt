-- ===== src/Outbox/Refinement.antt =====
-- The outbox and its flusher, events/outbox.py and events/flusher.py, implement a first-in first-out
-- queue with a file behind it.
use mathlib.Core.List.{map-append}
use token_bank.Prelude.{
  ℕ, suc, ◌+◌, ◌≤◌, ◌==◌, length, map, any, str_eq, sym, String, ◌≡◌, refl, ap, ◌∙◌, true, false,
  Option, List, [], ◌∷◌, ◌++◌, keep-append, Bool-cases, inl, inr, arith,
}
use token_bank.Exec.{◌>>=◌}
use token_bank.World.{World}
use token_bank.Sql.Rows.{Numbered, Numbered-append, max_column-Numbered, Distinct-append}
use token_bank.Db.{EventRow}
use token_bank.Session.{Session, read}
use token_bank.Outbox.{
  OutboxEventInput, next_sequence, is_taken, append_event, insert_event, enqueue_event, is_pending,
}
use token_bank.Outbox.Sequence.{event_at}
use token_bank.Outbox.Queue.{event_key, sequence_of, queue, IsQueue}
use token_bank.Outbox.Draining.{flush-queue, flush-ids}
use token_bank.Outbox.Fifo.{
  Step, post, flush, OutboxState, take_step, take_steps, view, drawn, is_used, Bears, FifoStep,
  posted, refused, flushed, FifoRun, done, next,
}

any-ids :
    (id : String) (rows : List EventRow)
    → any (λ other. str_eq other.event_id id) rows
      ≡ any (λ other. str_eq other id) (map event_key rows)
any-ids id [] = refl
any-ids id (r ∷ rows) = rw (any-ids id rows) refl

length-ids : (rows : List EventRow) → length (map event_key rows) ≡ length rows
length-ids [] = refl
length-ids (r ∷ rows) = omega (arith, length-ids rows)

-- no row has the number behind the last one
number-free :
    (k n : ℕ) (rows : List EventRow)
    → Numbered sequence_of k rows
    → k + length rows ≤ n
    → any (λ other. other.sequence == n) rows ≡ false
number-free k n [] h least = refl
number-free k n (r ∷ rows) h least =
    ground (arith, h.0, number-free (suc k) n rows h.1 (omega arith))

module _ (w : World) (event : OutboxEventInput) (c : OutboxState) (v : IsQueue c.session.db) where
  abbrev s : Session
  s = c.session

  abbrev row : EventRow
  row = event_at w event s

  next_number : next_sequence s.db.event_outbox ≡ suc (length s.db.event_outbox)
  unfolding next_sequence
  next_number = omega (arith, max_column-Numbered sequence_of s.db.event_outbox v.sequences)

  taken-used : is_taken row s.db.event_outbox ≡ is_used (view c) (drawn w (view c))
  unfolding is_taken event_at
  taken-used =
      let id = drawn w (view c) in
      let free =
        number-free 1 (next_sequence s.db.event_outbox) s.db.event_outbox v.sequences
          (rw next_number (omega arith)) in
      rw (any-ids id s.db.event_outbox, free) (ground arith)

  enqueued :
      is_taken row s.db.event_outbox ≡ false
      → (enqueue_event w event s).1
        ≡ record s { db = append_event row s.db; reads = suc (suc (suc s.reads)) }
  unfolding enqueue_event ◌>>=◌ read event_at insert_event
  enqueued free = rw free refl

  not_enqueued :
      is_taken row s.db.event_outbox ≡ true
      → (enqueue_event w event s).1 ≡ record s { reads = suc (suc (suc s.reads)) }
  unfolding enqueue_event ◌>>=◌ read event_at insert_event
  not_enqueued taken = rw taken refl

  event_at-Bears : Bears w (view c) event row
  unfolding event_at
  event_at-Bears = record {
    id = refl;
    numbered = next_number ∙ ap suc (sym (length-ids s.db.event_outbox));
    source = refl;
    type = refl;
    subject = refl;
    run_id = refl;
    work_unit_id = refl;
    attempt_id = refl;
    assignment_id = refl;
    body = refl;
  }

  appended-IsQueue : is_taken row s.db.event_outbox ≡ false → IsQueue (append_event row s.db)
  unfolding append_event is_taken event_at
  appended-IsQueue free = record {
    sequences = Numbered-append sequence_of 1 s.db.event_outbox row v.sequences (
        unfold next_sequence in
        omega (arith, max_column-Numbered sequence_of s.db.event_outbox v.sequences));
    event_ids = Distinct-append event_key s.db.event_outbox row v.event_ids (ground arith);
  }

  queue-append_event : queue (append_event row s.db) ≡ queue s.db ++ row ∷ []
  unfolding queue append_event event_at is_pending
  queue-append_event = keep-append is_pending s.db.event_outbox (row ∷ [])

  ids-append_event :
      map event_key (append_event row s.db).event_outbox
      ≡ map event_key s.db.event_outbox ++ drawn w (view c) ∷ []
  unfolding append_event event_at
  ids-append_event = map-append event_key s.db.event_outbox (row ∷ [])

module _ (w : World) (append_error : EventRow → Option String) where
  step-refines :
      (step : Step) (c : OutboxState)
      → IsQueue c.session.db
      → IsQueue (take_step w append_error step c).session.db
        × FifoStep w append_error step (view c) (view (take_step w append_error step c))
  unfolding take_step
  step-refines (post event) c v =
      elim (Bool-cases (is_taken (event_at w event c.session) c.session.db.event_outbox)) [
        | inl taken ↦
            let same = not_enqueued w event c v taken in
            rw same (v, refused event (sym (taken-used w event c v) ∙ taken) refl)
        | inr free ↦
            let added = enqueued w event c v free in
            rw added (
              appended-IsQueue w event c v free,
              posted event (event_at w event c.session) (sym (taken-used w event c v) ∙ free)
                  (event_at-Bears w event c v)
                  (rw (queue-append_event w event c v, ids-append_event w event c v) refl),
            )
      ]
  step-refines (flush limit clock) c v =
      let (kept, left, written) = flush-queue append_error clock c.session.db c.lines limit v in
      let ids = flush-ids append_error clock c.session.db c.lines limit in
      (kept, flushed limit clock (rw (left, written, ids) refl))

  -- From an outbox whose rows are numbered 1, 2, 3, ... and whose identifiers are distinct, every
  -- series of posts and flushes does to the pending rows and the file what a first-in first-out queue
  -- does: a post puts one row that bears the event at the end, with the next number, unless the drawn
  -- identifier is used already, when the post is refused and changes nothing; and
  -- a flush takes rows off the front, up to its limit, and writes the documents of those whose append
  -- does not raise behind what the file holds.
  pub take_steps-refines :
      (steps : List Step) (c : OutboxState)
      → IsQueue c.session.db
      → FifoRun w append_error steps (view c) (view (take_steps w append_error steps c))
  unfolding take_steps
  take_steps-refines [] c v = done
  take_steps-refines (step ∷ steps) c v =
      let (kept, moved) = step-refines step c v in
      next moved (take_steps-refines steps (take_step w append_error step c) kept)
