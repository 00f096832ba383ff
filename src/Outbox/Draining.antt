-- ===== src/Outbox/Draining.antt =====
-- The flusher of events/flusher.py empties the queue of the outbox.
use token_bank.Prelude.{
  ℕ, zero, suc, ◌*◌, ◌≤◌, ◌-◌, String, ◌≡◌, refl, sym, ap, ◌∙◌, Option, List, [], ◌∷◌, ◌++◌, length,
  arith, map, Bool, Bool-cases, Option-cases, inl, inr,
}
use mathlib.Core.List.{append-nil, append_assoc}
use token_bank.Json.{Json}
use token_bank.Db.{Db, EventRow}
use token_bank.Outbox.{
  limit_rows, pending_events, has_event_id, set_written, set_failed, mark_written, mark_failed,
}
use token_bank.Sql.{update_where}
use token_bank.Outbox.Queue.{
  event_key, queue, IsQueue, pending_events-queue, mark_written-IsQueue, mark_failed-IsQueue,
  queue-mark_written, queue-mark_failed,
}
use token_bank.Outbox.Flusher.{
  FlushState, event_row_to_document, flush_outcome, flush_row, flush_rows, flush_pending_events,
}
use token_bank.Outbox.Flushing.{appended, flush_pending_events_lem}

-- what is left of a queue after the first rows are taken
abbrev pub drop_rows : ℕ → List EventRow → List EventRow
drop_rows zero rows = rows
drop_rows (suc n) [] = []
drop_rows (suc n) (r ∷ rows) = drop_rows n rows

limit-append-drop : (n : ℕ) (rows : List EventRow) → limit_rows n rows ++ drop_rows n rows ≡ rows
unfolding limit_rows
limit-append-drop zero rows = refl
limit-append-drop (suc n) [] = refl
limit-append-drop (suc n) (r ∷ rows) = ap (λ (l : List EventRow). r ∷ l) (limit-append-drop n rows)

module _ (append_error : EventRow → Option String) (clock : ℕ → String) where
  flush_row-queue :
      (row : EventRow) (rest : List EventRow) (s : FlushState)
      → IsQueue s.db
      → queue s.db ≡ row ∷ rest
      → IsQueue (flush_row append_error clock row s).db
        × (queue (flush_row append_error clock row s).db ≡ rest)
  unfolding flush_row flush_outcome
  flush_row-queue row rest s v front = elim (Option-cases (append_error row)) [
    | inl fine ↦ rw fine (
      mark_written-IsQueue row.event_id (clock s.result.written) s.db v,
      queue-mark_written (clock s.result.written) s.db row rest v front,
    )
    | inr (x, raised) ↦
        rw raised
          (mark_failed-IsQueue row.event_id x s.db v, queue-mark_failed x s.db row rest v front)
  ]

  flush_rows-queue :
      (rows rest : List EventRow) (s : FlushState)
      → IsQueue s.db
      → queue s.db ≡ rows ++ rest
      → IsQueue (flush_rows append_error clock rows s).db
        × (queue (flush_rows append_error clock rows s).db ≡ rest)
  unfolding flush_rows
  flush_rows-queue [] rest s v front = (v, front)
  flush_rows-queue (row ∷ rows) rest s v front =
      let (v', next) = flush_row-queue row (rows ++ rest) s v front in
      flush_rows-queue rows rest (flush_row append_error clock row s) v' next

  -- A flush takes the first rows off the queue, up to the limit, and writes their documents in order,
  -- but for those whose append raises.
  pub flush-queue :
      (db : Db) (lines : List Json) (limit : ℕ)
      → IsQueue db
      → IsQueue (flush_pending_events append_error clock db lines limit).db
        × (queue (flush_pending_events append_error clock db lines limit).db
            ≡ drop_rows limit (queue db))
        × ((flush_pending_events append_error clock db lines limit).lines
            ≡ lines ++ appended append_error (limit_rows limit (queue db)))
  unfolding flush_pending_events
  flush-queue db lines limit v =
      let front = pending_events-queue db limit v in
      let (kept, left) =
        flush_rows-queue (pending_events db limit) (drop_rows limit (queue db))
          (record { db = db; lines = lines; result = record { written = 0; failed = 0 } }) v
          (rw front (sym (limit-append-drop limit (queue db)))) in
      (
        kept,
        left,
        (flush_pending_events_lem append_error clock db lines limit).0
            ∙ ap (λ (l : List EventRow). lines ++ appended append_error l) front,
      )

-- A flush changes no identifier of a row.
map-update_where :
    (q : EventRow → Bool) (f : EventRow → EventRow) (rows : List EventRow)
    → ((r : EventRow) → (f r).event_id ≡ r.event_id)
    → map event_key (update_where q f rows) ≡ map event_key rows
unfolding update_where
map-update_where q f [] h = refl
map-update_where q f (r ∷ rows) h = elim (Bool-cases (q r)) [
  | inl hit ↦ rw (hit, h r, map-update_where q f rows h) refl
  | inr miss ↦ rw (miss, map-update_where q f rows h) refl
]

module _ (append_error : EventRow → Option String) (clock : ℕ → String) where
  abbrev ids : Db → List String
  ids db = map event_key db.event_outbox

  flush_row-ids :
      (row : EventRow) (s : FlushState) → ids (flush_row append_error clock row s).db ≡ ids s.db
  unfolding flush_row flush_outcome mark_written mark_failed set_written set_failed
  flush_row-ids row s = elim (Option-cases (append_error row)) [
    | inl fine ↦ rw fine (
        map-update_where (has_event_id row.event_id) (set_written (clock s.result.written))
          s.db.event_outbox (λ _. refl))
    | inr (x, raised) ↦
        rw raised (
          map-update_where (has_event_id row.event_id) (set_failed x) s.db.event_outbox (λ _. refl))
  ]

  flush_rows-ids :
      (rows : List EventRow) (s : FlushState)
      → ids (flush_rows append_error clock rows s).db ≡ ids s.db
  unfolding flush_rows
  flush_rows-ids [] s = refl
  flush_rows-ids (row ∷ rows) s =
      flush_rows-ids rows (flush_row append_error clock row s) ∙ flush_row-ids row s

  pub flush-ids :
      (db : Db) (lines : List Json) (limit : ℕ)
      → map event_key (flush_pending_events append_error clock db lines limit).db.event_outbox
        ≡ map event_key db.event_outbox
  unfolding flush_pending_events
  flush-ids db lines limit =
      flush_rows-ids (pending_events db limit)
        (record { db = db; lines = lines; result = record { written = 0; failed = 0 } })

-- A series of flushes, each with the times of day that it reads.
unfoldable pub flush_all :
    (EventRow → Option String) → ℕ → List (ℕ → String) → Db → List Json → Db × List Json
unfolding flush_pending_events
flush_all append_error limit [] db lines = (db, lines)
flush_all append_error limit (clock ∷ clocks) db lines =
    let s = flush_pending_events append_error clock db lines limit in
    flush_all append_error limit clocks s.db s.lines

length-drop : (n : ℕ) (rows : List EventRow) → length (drop_rows n rows) ≡ length rows - n
length-drop zero rows = omega arith
length-drop (suc n) [] = omega arith
length-drop (suc n) (r ∷ rows) = omega (arith, length-drop n rows)

appended-append :
    (append_error : EventRow → Option String) (xs ys : List EventRow)
    → appended append_error (xs ++ ys) ≡ appended append_error xs ++ appended append_error ys
appended-append append_error [] ys = refl
appended-append append_error (x ∷ xs) ys = elim (Option-cases (append_error x)) [
  | inl fine ↦
      rw fine
        (ap (λ (l : List Json). event_row_to_document x ∷ l) (appended-append append_error xs ys))
  | inr (e, raised) ↦ rw raised (appended-append append_error xs ys)
]

module _ (append_error : EventRow → Option String) (limit : ℕ) where
  no_rows : (rows : List EventRow) → length rows ≤ 0 → rows ≡ []
  no_rows [] h = refl
  no_rows (r ∷ rows) h = absurd (omega arith)

  -- If the flushes times the limit are at least as many as the pending rows, no row is left pending. By
  -- then the file holds, behind what it held, the document of every row that was pending, in the order
  -- of their sequence numbers, but for those whose append raises; nothing else was written.
  pub flush_all-drains :
      (clocks : List (ℕ → String)) (db : Db) (lines : List Json)
      → IsQueue db
      → length (queue db) ≤ length clocks * limit
      → (queue (flush_all append_error limit clocks db lines).0 ≡ [])
        × ((flush_all append_error limit clocks db lines).1
            ≡ lines ++ appended append_error (queue db))
  unfolding flush_all
  flush_all-drains [] db lines v enough =
      let none_left = no_rows (queue db) (omega arith) in
      (none_left, rw none_left (sym (append-nil lines)))
  flush_all-drains (clock ∷ clocks) db lines v enough =
      let s = flush_pending_events append_error clock db lines limit in
      let (kept, left, written) = flush-queue append_error clock db lines limit v in
      let (emptied, rest) =
        flush_all-drains clocks s.db s.lines kept
          (rw left (omega (arith, length-drop limit (queue db)))) in
      (
        emptied,
        rest
            ∙ ap (λ (l : List EventRow). s.lines ++ appended append_error l) left
            ∙ ap (λ (l : List Json). l ++ appended append_error (drop_rows limit (queue db)))
                written
            ∙ append_assoc lines (appended append_error (limit_rows limit (queue db)))
                (appended append_error (drop_rows limit (queue db)))
            ∙ ap (λ (l : List Json). lines ++ l)
                (sym (
                    appended-append append_error (limit_rows limit (queue db))
                      (drop_rows limit (queue db)))
                  ∙ ap (appended append_error) (limit-append-drop limit (queue db))),
      )
