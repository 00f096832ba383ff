-- ===== src/Outbox/Flushing.antt =====
-- What a flush writes to the JSONL file, and what it counts.
use token_bank.Prelude.{
  ℕ, suc, ◌+◌, String, ◌≡◌, refl, ap, ◌∙◌, sym, Bool, true, false, Option, none, some, List, [],
  ◌∷◌, ◌++◌, map, keep, length, Option-cases, inl, inr, arith,
}
use mathlib.Core.List.{append-nil, append_assoc}
use token_bank.Json.{Json}
use token_bank.Db.{Db, EventRow}
use token_bank.Outbox.{pending_events}
use token_bank.Outbox.Flusher.{
  FlushState, event_row_to_document, flush_outcome, flush_row, flush_rows, flush_pending_events,
}

abbrev is_absent : Option String → Bool
is_absent none = true
is_absent (some e) = false

-- the documents of the rows whose append raises nothing
abbrev pub appended : (EventRow → Option String) → List EventRow → List Json
appended append_error rows =
    map event_row_to_document (keep (λ row. is_absent (append_error row)) rows)

module _ (append_error : EventRow → Option String) (clock : ℕ → String) where
  appended_first :
      (row : EventRow) (rows : List EventRow)
      → appended append_error (row ∷ rows)
        ≡ appended append_error (row ∷ []) ++ appended append_error rows
  appended_first row rows = elim (Option-cases (append_error row)) [
    | inl fine ↦ rw fine refl
    | inr (x, raised) ↦ rw raised refl
  ]

  row_counted :
      (row : EventRow) (s : FlushState)
      → ((flush_row append_error clock row s).lines ≡ s.lines ++ appended append_error (row ∷ []))
        × ((flush_row append_error clock row s).result.written
              + (flush_row append_error clock row s).result.failed
            ≡ suc (s.result.written + s.result.failed))
  unfolding flush_row flush_outcome
  row_counted row s = elim (Option-cases (append_error row)) [
    | inl fine ↦ rw fine (refl, omega arith)
    | inr (x, raised) ↦ rw raised (sym (append-nil s.lines), omega arith)
  ]

  rows_counted :
      (rows : List EventRow) (s : FlushState)
      → ((flush_rows append_error clock rows s).lines ≡ s.lines ++ appended append_error rows)
        × ((flush_rows append_error clock rows s).result.written
              + (flush_rows append_error clock rows s).result.failed
            ≡ s.result.written + s.result.failed + length rows)
  unfolding flush_rows
  rows_counted [] s = (sym (append-nil s.lines), omega arith)
  rows_counted (row ∷ rows) s =
      let (line, one) = row_counted row s in
      let (lines, more) = rows_counted rows (flush_row append_error clock row s) in
      (
        lines
            ∙ ap (λ (l : List Json). l ++ appended append_error rows) line
            ∙ append_assoc s.lines (appended append_error (row ∷ [])) (appended append_error rows)
            ∙ ap (λ (l : List Json). s.lines ++ l) (sym (appended_first row rows)),
        omega (arith, one, more),
      )

  pub flush_pending_events_lem :
      (db : Db) (lines : List Json) (limit : ℕ)
      → ((flush_pending_events append_error clock db lines limit).lines
          ≡ lines ++ appended append_error (pending_events db limit))
        × ((flush_pending_events append_error clock db lines limit).result.written
              + (flush_pending_events append_error clock db lines limit).result.failed
            ≡ length (pending_events db limit))
  unfolding flush_pending_events
  flush_pending_events_lem db lines limit =
      let (written, count) =
        rows_counted (pending_events db limit)
          (record { db = db; lines = lines; result = record { written = 0; failed = 0 } }) in
      (written, omega (arith, count))
