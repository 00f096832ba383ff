-- ===== src/Ledger/Recording.antt =====
-- What `upsert_entry` of ledger/usage.py leaves behind.
use mathlib.Core.Option
use token_bank.Prelude.{
  String, ◌≡◌, refl, ap, ◌∙◌, Option, none, some, List, str_eq, eq_iff, if◌then◌else◌, arith,
  Bool-cases, Option-cases, inl, inr,
}
use token_bank.Result.{ok}
use token_bank.Exec.{Exec, pure, ◌>>=◌, ◌>>◌}
use token_bank.World.{World}
use token_bank.Sql.{fetchone}
use token_bank.Sql.Lookup.{
  fetchone-any-true, fetchone-none-any, fetchone-update_key, fetchone-append_key,
}
use token_bank.Db.{Db, UsageRow}
use token_bank.Session.{Session, transaction}
use token_bank.Session.Runs.{transaction-ok, bind-ok}
use token_bank.Outbox.{enqueue_event}
use token_bank.Outbox.Frames.{OnlyEvents, enqueue_event-OnlyEvents}
use token_bank.Ledger.Entry.{UsageLedgerEntry}
use token_bank.Ledger.Repository.{
  EntryView, is_entry, entry_row, revise, put_entry, set_entries, upsert_row, recorded_event,
  view_row, get_entry, upsert_entry,
}

abbrev pub revised_or_new : UsageRow → Option UsageRow → UsageRow
revised_or_new row none = row
revised_or_new row (some old) = revise row old

-- what the table holds for an entry after it is recorded: a new row, or the old row revised
abbrev pub stored_row : UsageRow → List UsageRow → UsageRow
stored_row row rows = revised_or_new row (fetchone (is_entry row.usage_ledger_entry_id) rows)

abbrev pub entry_key : UsageRow → String
entry_key row = row.usage_ledger_entry_id

pub fetchone-put_entry :
    (row : UsageRow) (id : String) (rows : List UsageRow)
    → fetchone (is_entry id) (put_entry row rows) ≡ (
        if str_eq row.usage_ledger_entry_id id
        then some (stored_row row rows)
        else fetchone (is_entry id) rows)
unfolding put_entry revise
fetchone-put_entry row id rows =
    elim (Option-cases (fetchone (is_entry row.usage_ledger_entry_id) rows)) [
      | inl new ↦
          let absent = fetchone-none-any entry_key row.usage_ledger_entry_id rows new in
          rw (absent, new) (fetchone-append_key entry_key row id rows absent)
      | inr (old, found) ↦
          rw (fetchone-any-true entry_key row.usage_ledger_entry_id rows old found, found)
            (fetchone-update_key entry_key (revise row) row.usage_ledger_entry_id id rows
                (λ _. refl)
              ∙ revised old found)
    ]
  where
    revised :
        (old : UsageRow)
        → fetchone (is_entry row.usage_ledger_entry_id) rows ≡ some old
        → (if str_eq row.usage_ledger_entry_id id
            then Option.map (revise row) (fetchone (is_entry id) rows)
            else fetchone (is_entry id) rows)
          ≡ (if str_eq row.usage_ledger_entry_id id
              then some (revise row old)
              else fetchone (is_entry id) rows)
    revised old found = ground (arith, eq_iff row.usage_ledger_entry_id id)

upsert_row-ok :
    (row : UsageRow) (s : Session) (u : Unit {0})
    → (upsert_row row s).0 ≡ ok u
    → (upsert_row row s).1.db ≡ set_entries row s.db
unfolding upsert_row ◌>>=◌
upsert_row-ok row s u e = ground arith

abbrev view_of : UsageLedgerEntry → EntryView
view_of e = record { usage_ledger_entry = e.body; entry_hash = e.entry_hash; created_at = none }

module _ (w : World) (e : UsageLedgerEntry) where
  abbrev write : Exec Session String
  write = upsert_row (entry_row e) >> enqueue_event w (recorded_event e)

  write-ok :
      (s : Session) (id : String)
      → (write s).0 ≡ ok id
      → OnlyEvents (set_entries (entry_row e) s.db) (write s).1.db
  write-ok s id done =
      let (u, stored, onward) =
        bind-ok (upsert_row (entry_row e)) (λ _. enqueue_event w (recorded_event e)) s id done in
      rw (onward, ← upsert_row-ok (entry_row e) s u stored)
        ((enqueue_event-OnlyEvents w (recorded_event e)).at (upsert_row (entry_row e) s).1)

  pub upsert_entry-ok :
      (s : Session) (v : EntryView)
      → (upsert_entry w e s).0 ≡ ok v
      → OnlyEvents (set_entries (entry_row e) s.db) (upsert_entry w e s).1.db × (v ≡ view_of e)
  unfolding upsert_entry pure
  upsert_entry-ok s v returned =
      let (id, transacted, onward) =
        bind-ok (transaction write) (λ _. pure (view_of e)) s v returned in
      let (done, same) = transaction-ok write s id transacted in
      (
        rw (onward, same) (write-ok s id done),
        (let got : (pure (view_of e) (transaction write s).1).0 ≡ ok v = rw onward at returned in
            cc),
      )

abbrev first_created : String → Option UsageRow → String
first_created now none = now
first_created now (some old) = old.created_at

get_entry-OnlyEvents : (id : String) (a b : Db) → OnlyEvents a b → get_entry id b ≡ get_entry id a
unfolding get_entry
get_entry-OnlyEvents id a b same = ap (λ (x : Db). get_entry id x) same

abbrev pub recorded_view : UsageLedgerEntry → Option UsageRow → EntryView
recorded_view e old = record {
  usage_ledger_entry = e.body;
  entry_hash = e.entry_hash;
  created_at = some (first_created e.created_at old);
}

view-stored_row :
    (e : UsageLedgerEntry) (old : Option UsageRow)
    → view_row (revised_or_new (entry_row e) old) ≡ recorded_view e old
unfolding entry_row revise
view-stored_row e none = refl
view-stored_row e (some row) = refl

get_entry-set_entries :
    (e : UsageLedgerEntry) (id : String) (db : Db)
    → get_entry id (set_entries (entry_row e) db) ≡ (
        if str_eq e.usage_ledger_entry_id id
        then some
            (recorded_view e (fetchone (is_entry e.usage_ledger_entry_id) db.usage_ledger_entries))
        else get_entry id db)
unfolding get_entry set_entries entry_row
get_entry-set_entries e id db =
    rw (fetchone-put_entry (entry_row e) id db.usage_ledger_entries)
      (elim (Bool-cases (str_eq e.usage_ledger_entry_id id)) [
        | inl same ↦ rw same (
            ap (λ (x : EntryView). some x)
              (view-stored_row e
                (fetchone (is_entry e.usage_ledger_entry_id) db.usage_ledger_entries)))
        | inr other ↦ rw other refl
      ])

-- If `upsert_entry` returns, `get_entry` then gives, for the identifier of the entry, its body and its
-- hash, with the creation time of the row that was there before, or the entry's own if there was none.
-- For every other identifier it gives what it gave before.
pub get_entry-upsert_entry :
    (w : World) (e : UsageLedgerEntry) (s : Session) (v : EntryView) (id : String)
    → (upsert_entry w e s).0 ≡ ok v
    → get_entry id (upsert_entry w e s).1.db ≡ (
        if str_eq e.usage_ledger_entry_id id
        then some (
            recorded_view e (fetchone (is_entry e.usage_ledger_entry_id) s.db.usage_ledger_entries))
        else get_entry id s.db)
get_entry-upsert_entry w e s v id returned =
    get_entry-OnlyEvents id _ _ (upsert_entry-ok w e s v returned).0
    ∙ get_entry-set_entries e id s.db
