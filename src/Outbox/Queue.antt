-- ===== src/Outbox/Queue.antt =====
-- The outbox of events/outbox.py as a queue: its pending rows, oldest first.
use token_bank.Prelude.{
  ℕ, suc, ◌≤◌, String, ◌≡◌, refl, ap, ◌∙◌, Bool, false, not, List, [], ◌∷◌, any, keep, All, All-map,
  arith, Bool-cases, inl, inr, str_eq, eq_refl,
}
use token_bank.Sql.{update_where}
use token_bank.Sql.Rows.{Distinct, Numbered, Distinct-update_where}
use token_bank.Db.{Db, EventRow}
use token_bank.Outbox.{
  is_pending, insert_by_sequence, sort_by_sequence, limit_rows, pending_events, set_written,
  set_failed, has_event_id, mark_written, mark_failed,
}

abbrev pub event_key : EventRow → String
event_key row = row.event_id

abbrev pub sequence_of : EventRow → ℕ
sequence_of row = row.sequence

-- the rows that wait to be written
unfoldable pub queue : Db → List EventRow
unfolding is_pending
queue db = keep is_pending db.event_outbox

pub record IsQueue (db : Db) : Type 0 where
  pub sequences : Numbered sequence_of 1 db.event_outbox
  pub event_ids : Distinct event_key db.event_outbox

module _ {A : Type 0} where
  any-keep-false :
      (p q : A → Bool) (rows : List A) → any q rows ≡ false → any q (keep p rows) ≡ false
  any-keep-false p q [] h = refl
  any-keep-false p q (x ∷ rows) h = ground (arith, any-keep-false p q rows)

  Distinct-keep :
      (p : A → Bool) (key : A → String) (rows : List A)
      → Distinct key rows
      → Distinct key (keep p rows)
  Distinct-keep p key [] d = tt
  Distinct-keep p key (x ∷ rows) d = elim (Bool-cases (p x)) [
    | inl kept ↦
        rw kept
          (any-keep-false p (λ o. str_eq (key o) (key x)) rows d.0, Distinct-keep p key rows d.1)
    | inr dropped ↦ rw dropped (Distinct-keep p key rows d.1)
  ]

  -- an update that drops what it meets out of a selection
  keep-update_where :
      (p q : A → Bool) (f : A → A) (rows : List A)
      → ((r : A) → p (f r) ≡ false)
      → keep p (update_where q f rows) ≡ keep (λ r. not (q r)) (keep p rows)
  unfolding update_where
  keep-update_where p q f [] h = refl
  keep-update_where p q f (x ∷ rows) h = ground (arith, h x, keep-update_where p q f rows h)

  keep-none :
      (q : A → Bool) (rows : List A) → any q rows ≡ false → keep (λ r. not (q r)) rows ≡ rows
  keep-none q [] h = refl
  keep-none q (x ∷ rows) h = ground (arith, keep-none q rows)

  Numbered-least : (f : A → ℕ) (k : ℕ) (rows : List A) → Numbered f k rows → All (λ r. k ≤ f r) rows
  Numbered-least f k [] h = tt
  Numbered-least f k (x ∷ rows) h = (
    omega arith,
    All-map {P = λ r. suc k ≤ f r} {Q = λ r. k ≤ f r} (λ r (least : suc k ≤ f r). omega arith) rows
        (Numbered-least f (suc k) rows h.1),
  )

  All-keep : (P : A → Type 0) (p : A → Bool) (rows : List A) → All P rows → All P (keep p rows)
  All-keep P p [] h = tt
  All-keep P p (x ∷ rows) h = elim (Bool-cases (p x)) [
    | inl kept ↦ rw kept (h.0, All-keep P p rows h.1)
    | inr dropped ↦ rw dropped (All-keep P p rows h.1)
  ]

  pub Numbered-update :
      (f : A → ℕ) (q : A → Bool) (g : A → A) (k : ℕ) (rows : List A)
      → ((r : A) → f (g r) ≡ f r)
      → Numbered f k rows
      → Numbered f k (update_where q g rows)
  unfolding update_where
  Numbered-update f q g k [] h n = tt
  Numbered-update f q g k (x ∷ rows) h n = elim (Bool-cases (q x)) [
    | inl hit ↦ rw hit (h x ∙ n.0, Numbered-update f q g (suc k) rows h n.1)
    | inr miss ↦ rw miss (n.0, Numbered-update f q g (suc k) rows h n.1)
  ]

insert_first :
    (row : EventRow) (rows : List EventRow)
    → All (λ r. row.sequence ≤ r.sequence) rows
    → insert_by_sequence row rows ≡ row ∷ rows
unfolding insert_by_sequence
insert_first row [] h = refl
insert_first row (r ∷ rows) h = ground arith

sort_keep :
    (p : EventRow → Bool) (k : ℕ) (rows : List EventRow)
    → Numbered sequence_of k rows
    → sort_by_sequence (keep p rows) ≡ keep p rows
unfolding sort_by_sequence
sort_keep p k [] h = refl
sort_keep p k (x ∷ rows) h = elim (Bool-cases (p x)) [
  | inl kept ↦
      rw (kept, sort_keep p (suc k) rows h.1)
        (insert_first x (keep p rows) (
          All-map {P = λ r. suc k ≤ sequence_of r} {Q = λ r. x.sequence ≤ r.sequence}
            (λ r (least : suc k ≤ sequence_of r). omega (arith, h.0)) (keep p rows)
            (All-keep (λ r. suc k ≤ sequence_of r) p rows
              (Numbered-least sequence_of (suc k) rows h.1))))
  | inr dropped ↦ rw dropped (sort_keep p (suc k) rows h.1)
]

-- A query for pending rows reads the front of the queue.
pub pending_events-queue :
    (db : Db) (limit : ℕ) → IsQueue db → pending_events db limit ≡ limit_rows limit (queue db)
unfolding pending_events queue
pending_events-queue db limit v =
    ap (limit_rows limit) (sort_keep is_pending 1 db.event_outbox v.sequences)

-- a change of the row at the front to another status takes it off
module _ (f : EventRow → EventRow) (same_id : (r : EventRow) → (f r).event_id ≡ r.event_id)
    (same_sequence : (r : EventRow) → (f r).sequence ≡ r.sequence)
    (settles : (r : EventRow) → is_pending (f r) ≡ false) where
  abbrev settled : String → Db → Db
  settled id db = record db { event_outbox = update_where (has_event_id id) f db.event_outbox }

  settled-IsQueue : (id : String) (db : Db) → IsQueue db → IsQueue (settled id db)
  settled-IsQueue id db v = record {
    sequences =
        Numbered-update sequence_of (has_event_id id) f 1 db.event_outbox same_sequence v.sequences;
    event_ids =
        Distinct-update_where (has_event_id id) f event_key db.event_outbox same_id v.event_ids;
  }

  queue-settled :
      (db : Db) (row : EventRow) (rest : List EventRow)
      → IsQueue db
      → queue db ≡ row ∷ rest
      → queue (settled row.event_id db) ≡ rest
  unfolding queue
  queue-settled db row rest v h =
      keep-update_where is_pending (has_event_id row.event_id) f db.event_outbox settles
      ∙ ap (keep (λ r. not (has_event_id row.event_id r))) h
      ∙ off
    where
      distinct : Distinct event_key (row ∷ rest)
      distinct = rw h at (Distinct-keep is_pending event_key db.event_outbox v.event_ids)

      off : keep (λ r. not (has_event_id row.event_id r)) (row ∷ rest) ≡ rest
      off = rw (eq_refl row.event_id) (keep-none (has_event_id row.event_id) rest distinct.0)

module _ (id now : String) (db : Db) (v : IsQueue db) where
  pub mark_written-IsQueue : IsQueue (mark_written id now db)
  unfolding mark_written is_pending
  mark_written-IsQueue =
      settled-IsQueue (set_written now) (λ _. refl) (λ _. refl) (λ _. refl) id db v

  pub mark_failed-IsQueue : IsQueue (mark_failed id now db)
  unfolding mark_failed is_pending
  mark_failed-IsQueue = settled-IsQueue (set_failed now) (λ _. refl) (λ _. refl) (λ _. refl) id db v

module _ (now : String) (db : Db) (row : EventRow) (rest : List EventRow) (v : IsQueue db)
    (front : queue db ≡ row ∷ rest) where
  pub queue-mark_written : queue (mark_written row.event_id now db) ≡ rest
  unfolding mark_written is_pending
  queue-mark_written =
      queue-settled (set_written now) (λ _. refl) (λ _. refl) (λ _. refl) db row rest v front

  pub queue-mark_failed : queue (mark_failed row.event_id now db) ≡ rest
  unfolding mark_failed is_pending
  queue-mark_failed =
      queue-settled (set_failed now) (λ _. refl) (λ _. refl) (λ _. refl) db row rest v front
