-- ===== src/Books/Invariant.antt =====
-- What holds of the books between two calls, and that every effect on the database keeps it.
use token_bank.Prelude.{
  String, ◌≡◌, refl, ◌∙◌, Bool, true, false, Option, none, some, List, [], ◌∷◌, ◌++◌, any, All,
  All-append, All-map, any-append, Bool-cases, inl, inr, arith,
}
use token_bank.Exec.Keeps.{IsPreorder}
use token_bank.Sql.Rows.{Distinct, Distinct-append, Distinct-update_where, any-update_where}
use token_bank.Sql.Evolution.{Evolves, Evolves-refl, Evolves-append, Evolves-trans}
use token_bank.Db.{Db, UsageRow, ReceiptRow, ResultRow}
use token_bank.Outbox.{append_event}
use token_bank.Scheduler.Tables.{
  is_result, append_attempt, append_assignment, append_result, append_quarantine, append_health,
}
use token_bank.Scheduler.Effects.{Allows}
use token_bank.Ledger.Recording.{entry_key}
use token_bank.Ledger.Repository.{is_entry, dangles, revise, put_entry, set_entries}
use token_bank.Audit.Repository.{refuses_receipt, append_receipt}
use token_bank.Books.Effects.{AllowsBooks}

abbrev pub receipt_key : ReceiptRow → String
receipt_key row = row.audit_receipt_id

abbrev pub receipt_hash_of : ReceiptRow → String
receipt_hash_of row = row.receipt_hash

abbrev pub HasResult : List ResultRow → ReceiptRow → Type 0
HasResult results r = any (is_result r.result_envelope_id) results ≡ true

abbrev pub HasEntry : List UsageRow → ReceiptRow → Type 0
HasEntry entries r = dangles (λ id. any (is_entry id) entries) r.usage_ledger_entry_id ≡ false

pub record BooksInv (db : Db) : Type 0 where
  pub entry_ids : Distinct entry_key db.usage_ledger_entries
  pub receipt_ids : Distinct receipt_key db.audit_receipts
  pub receipt_hashes : Distinct receipt_hash_of db.audit_receipts
  pub of_results : All (HasResult db.result_envelopes) db.audit_receipts
  pub of_entries : All (HasEntry db.usage_ledger_entries) db.audit_receipts

-- the invariant is kept, and the receipts are only added to
abbrev pub BooksKept : Db → Db → Type 0
BooksKept a b =
    BooksInv a → BooksInv b × Evolves {A = ReceiptRow} ◌≡◌ a.audit_receipts b.audit_receipts

BooksKept-preorder : IsPreorder BooksKept
BooksKept-preorder = record {
  same = λ a v. (v, Evolves-refl ◌≡◌ (λ _. refl) a.audit_receipts);
  chain = λ a b c h k v.
      let (v', g) = h v in
      let (v'', g') = k v' in
      (
        v'',
        Evolves-trans ◌≡◌ (λ _ _ _ p q. p ∙ q) a.audit_receipts b.audit_receipts c.audit_receipts g
            g',
      );
}

-- the tables of the books are left alone
same_books :
    (a b : Db)
    → b.usage_ledger_entries ≡ a.usage_ledger_entries
    → b.audit_receipts ≡ a.audit_receipts
    → b.result_envelopes ≡ a.result_envelopes
    → BooksKept a b
same_books a b e r f v = (
  record {
    entry_ids = rw e v.entry_ids;
    receipt_ids = rw r v.receipt_ids;
    receipt_hashes = rw r v.receipt_hashes;
    of_results = rw (r, f) v.of_results;
    of_entries = rw (r, e) v.of_entries;
  },
  rw r (Evolves-refl ◌≡◌ (λ _. refl) a.audit_receipts),
)

any-append_true :
    {A : Type 0} (p : A → Bool) (xs ys : List A) → any p xs ≡ true → any p (xs ++ ys) ≡ true
any-append_true p xs ys h = ground (arith, any-append p xs ys)

append_result-BooksKept : (db : Db) (row : ResultRow) → BooksKept db (append_result row db)
unfolding append_result
append_result-BooksKept db row v = (
  record {
    entry_ids = v.entry_ids;
    receipt_ids = v.receipt_ids;
    receipt_hashes = v.receipt_hashes;
    of_results =
        All-map {Q = HasResult (db.result_envelopes ++ row ∷ [])}
          (λ (r : ReceiptRow) (h : HasResult db.result_envelopes r).
            any-append_true (is_result r.result_envelope_id) db.result_envelopes (row ∷ []) h)
          db.audit_receipts v.of_results;
    of_entries = v.of_entries;
  },
  Evolves-refl ◌≡◌ (λ _. refl) db.audit_receipts,
)

any-put_entry :
    (row : UsageRow) (id : String) (rows : List UsageRow)
    → any (is_entry id) rows ≡ true
    → any (is_entry id) (put_entry row rows) ≡ true
unfolding put_entry revise
any-put_entry row id rows h = elim (Bool-cases (any (is_entry row.usage_ledger_entry_id) rows)) [
  | inl there ↦ rw there (
      any-update_where (is_entry row.usage_ledger_entry_id) (revise row) (is_entry id) rows
        (λ _. refl)
      ∙ h)
  | inr new ↦ rw new (any-append_true (is_entry id) rows (row ∷ []) h)
]

HasEntry-put_entry :
    (row : UsageRow) (rows : List UsageRow) (id : Option String)
    → dangles (λ k. any (is_entry k) rows) id ≡ false
    → dangles (λ k. any (is_entry k) (put_entry row rows)) id ≡ false
HasEntry-put_entry row rows none h = refl
HasEntry-put_entry row rows (some id) h = rw (any-put_entry row id rows (ground arith)) refl

put_entry-Distinct :
    (row : UsageRow) (rows : List UsageRow)
    → Distinct entry_key rows
    → Distinct entry_key (put_entry row rows)
unfolding put_entry revise
put_entry-Distinct row rows d = elim (Bool-cases (any (is_entry row.usage_ledger_entry_id) rows)) [
  | inl there ↦ rw there (
      Distinct-update_where (is_entry row.usage_ledger_entry_id) (revise row) entry_key rows
        (λ _. refl) d)
  | inr new ↦ rw new (Distinct-append entry_key rows row d new)
]

set_entries-BooksKept : (db : Db) (row : UsageRow) → BooksKept db (set_entries row db)
unfolding set_entries
set_entries-BooksKept db row v = (
  record {
    entry_ids = put_entry-Distinct row db.usage_ledger_entries v.entry_ids;
    receipt_ids = v.receipt_ids;
    receipt_hashes = v.receipt_hashes;
    of_results = v.of_results;
    of_entries =
        All-map {Q = HasEntry (put_entry row db.usage_ledger_entries)}
          (λ (r : ReceiptRow) (h : HasEntry db.usage_ledger_entries r).
            HasEntry-put_entry row db.usage_ledger_entries r.usage_ledger_entry_id h)
          db.audit_receipts v.of_entries;
  },
  Evolves-refl ◌≡◌ (λ _. refl) db.audit_receipts,
)

append_receipt-BooksKept :
    (db : Db) (row : ReceiptRow)
    → refuses_receipt row db ≡ false
    → BooksKept db (append_receipt row db)
unfolding append_receipt refuses_receipt
append_receipt-BooksKept db row free v = (
  record {
    entry_ids = v.entry_ids;
    receipt_ids = Distinct-append receipt_key db.audit_receipts row v.receipt_ids (ground arith);
    receipt_hashes =
        Distinct-append receipt_hash_of db.audit_receipts row v.receipt_hashes (ground arith);
    of_results =
        All-append (HasResult db.result_envelopes) db.audit_receipts (row ∷ []) v.of_results
          (ground arith, tt);
    of_entries =
        All-append (HasEntry db.usage_ledger_entries) db.audit_receipts (row ∷ []) v.of_entries
          (ground arith, tt);
  },
  Evolves-append ◌≡◌ (λ _. refl) db.audit_receipts (row ∷ []),
)

pub BooksKept-AllowsBooks : AllowsBooks BooksKept
unfolding append_event
BooksKept-AllowsBooks = record {
  preorder = BooksKept-preorder;
  new_event = λ db row _. same_books db (append_event row db) refl refl refl;
  put_entry = λ db row _. set_entries-BooksKept db row;
  new_receipt = append_receipt-BooksKept;
}

-- the scheduler's effects too
pub BooksKept-Allows : Allows BooksKept
unfolding append_event append_attempt append_assignment append_quarantine append_health
BooksKept-Allows = record {
  preorder = BooksKept-preorder;
  new_event = λ db row _. same_books db _ refl refl refl;
  new_attempt = λ db row _. same_books db _ refl refl refl;
  new_assignment = λ db row _. same_books db _ refl refl refl;
  new_result = λ db row _. append_result-BooksKept db row;
  new_quarantine = λ db row _. same_books db _ refl refl refl;
  new_health = λ db row _. same_books db _ refl refl refl;
  set_work_unit = λ db id f h. same_books db _ refl refl refl;
  set_attempt = λ db id f h. same_books db _ refl refl refl;
  set_assignment = λ db id f h. same_books db _ refl refl refl;
  renew = λ db id version u now current found. same_books db _ refl refl refl;
}
