-- ===== src/Session.antt =====
-- A connection: the database and the number of readings of `World` made so far, and the
-- transactions of db/transactions.py.
pub mod Moves
pub mod Atomic
pub mod Runs
use token_bank.Prelude.{ℕ, suc, String}
use token_bank.Result.{Result, ok, err}
use token_bank.Exec.{Exec}
use token_bank.Db.{Db}

pub record Session : Type 0 where
  pub db : Db
  pub reads : ℕ

-- The next reading of one kind. A reading is never taken back.
unfoldable pub read : (ℕ → String) → Exec Session String
read source s = (ok (source s.reads), record s { reads = suc s.reads })

-- `db` after a step that did not raise, the one before it otherwise
unfoldable pub settle {ℓ} : {A : Type ℓ} → Db → Result A × Session → Result A × Session
settle before (ok a, s) = (ok a, s)
settle before (err e, s) = (err e, record s { db = before })

-- `with transaction(conn):`, BEGIN IMMEDIATE, then COMMIT, or ROLLBACK and `raise`
unfoldable pub transaction : {A : Type 0} → Exec Session A → Exec Session A
unfolding settle
transaction body s = settle s.db (body s)
