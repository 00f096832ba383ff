-- ===== src/Session/Moves.antt =====
-- Actions on a connection and relations between the databases before and after. A relation holds
-- across an action whether it returns or raises.
use token_bank.Prelude.{ℕ, String, Bool, true, false, Option, none, some}
use token_bank.Result.{Error, Result, ok, err}
use token_bank.Exec.{Exec, pure, gets, raise, or_raise, raise_if, continue, ◌>>=◌}
use token_bank.Exec.Keeps.{IsPreorder}
use token_bank.Db.{Db}
use token_bank.Session.{Session, read, settle, transaction}

module _ (R : Db → Db → Type 0) where
  -- `m` moves the database along `R`, from every state
  pub record Moves {A : Type 0} (m : Exec Session A) : Type 0 where
    pub at : (s : Session) → R s.db (m s).1.db

module _ {R : Db → Db → Type 0} (p : IsPreorder R) where
  pub Moves-pure : {A : Type 0} (a : A) → Moves R (pure a)
  unfolding pure
  Moves-pure a = record { at = λ s. p.same s.db }

  pub Moves-gets : {A : Type 0} (f : Session → A) → Moves R (gets f)
  unfolding gets
  Moves-gets f = record { at = λ s. p.same s.db }

  pub Moves-read : (f : ℕ → String) → Moves R (read f)
  unfolding read
  Moves-read f = record { at = λ s. p.same s.db }

  pub Moves-raise : {A : Type 0} (e : Error) → Moves R (raise {A = A} e)
  unfolding raise
  Moves-raise e = record { at = λ s. p.same s.db }

  pub Moves-raise_if : (b : Bool) (e : Error) → Moves R (raise_if b e)
  unfolding raise_if
  Moves-raise_if true e = record { at = λ s. p.same s.db }
  Moves-raise_if false e = record { at = λ s. p.same s.db }

  pub Moves-or_raise : {A : Type 0} (e : Error) (o : Option A) → Moves R (or_raise e o)
  unfolding or_raise
  Moves-or_raise e none = record { at = λ s. p.same s.db }
  Moves-or_raise e (some a) = record { at = λ s. p.same s.db }

  -- a step from one state, and then anything
  pub bind_at :
      {A B : Type 0} (m : Exec Session A) (f : A → Exec Session B) (s : Session)
      → R s.db (m s).1.db
      → ((a : A) → Moves R (f a))
      → R s.db ((m >>= f) s).1.db
  unfolding ◌>>=◌
  bind_at {A} {B} m f s h k = go (m s).0 (m s).1 h
    where
      go : (r : Result A) (t : Session) → R s.db t.db → R s.db (continue r f t).1.db
      go (ok a) t h = p.chain s.db t.db _ h ((k a).at t)
      go (err e) t h = h

  pub Moves-bind :
      {A B : Type 0} (m : Exec Session A) (f : A → Exec Session B)
      → Moves R m
      → ((a : A) → Moves R (f a))
      → Moves R (m >>= f)
  Moves-bind m f km kf = record { at = λ s. bind_at m f s (km.at s) kf }

  pub transaction_at :
      {A : Type 0} (m : Exec Session A) (s : Session)
      → R s.db (m s).1.db
      → R s.db (transaction m s).1.db
  unfolding transaction
  transaction_at {A} m s h = go (m s).0 (m s).1 h
    where
      go : (r : Result A) (t : Session) → R s.db t.db → R s.db (settle s.db (r, t)).1.db
      go (ok a) t h = h
      go (err e) t h = p.same s.db

  pub Moves-transaction : {A : Type 0} (m : Exec Session A) → Moves R m → Moves R (transaction m)
  Moves-transaction m k = record { at = λ s. transaction_at m s (k.at s) }

pub ruleset moves_rules = (
  Moves-pure, Moves-gets, Moves-read, Moves-raise, Moves-raise_if, Moves-or_raise, Moves-bind,
  Moves-transaction,
)
