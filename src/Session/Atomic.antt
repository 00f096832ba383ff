-- ===== src/Session/Atomic.antt =====
-- Actions that change the database only if they return.
use token_bank.Prelude.{ℕ, String, ◌≡◌, refl, ◌∙◌, Bool, true, false, Option, none, some}
use token_bank.Result.{Error, Result, ok, err}
use token_bank.Exec.{Exec, pure, gets, or_raise, raise_if, continue, ◌>>=◌}
use token_bank.Db.{Db}
use token_bank.Session.{Session, read, settle, transaction}

module _ {A : Type 0} where
  -- `m` never changes the database
  pub record IsReadOnly (m : Exec Session A) : Type 0 where
    pub at : (s : Session) → (m s).1.db ≡ s.db

  -- `m` does not change it if it raises
  pub record IsAtomic (m : Exec Session A) : Type 0 where
    pub at : (s : Session) (e : Error) → (m s).0 ≡ err e → (m s).1.db ≡ s.db

  pub IsReadOnly-pure : (a : A) → IsReadOnly (pure a)
  unfolding pure
  IsReadOnly-pure a = record { at = λ s. refl }

  pub IsReadOnly-gets : (f : Session → A) → IsReadOnly (gets f)
  unfolding gets
  IsReadOnly-gets f = record { at = λ s. refl }

  pub IsReadOnly-or_raise : (e : Error) (o : Option A) → IsReadOnly (or_raise e o)
  unfolding or_raise
  IsReadOnly-or_raise e none = record { at = λ s. refl }
  IsReadOnly-or_raise e (some a) = record { at = λ s. refl }

  pub IsAtomic-IsReadOnly : (m : Exec Session A) → IsReadOnly m → IsAtomic m
  IsAtomic-IsReadOnly m r = record { at = λ s e _. r.at s }

  pub IsAtomic-transaction : (m : Exec Session A) → IsAtomic (transaction m)
  unfolding transaction
  IsAtomic-transaction m = record { at = λ s e h. go s.db e (m s).0 (m s).1 h }
    where
      go :
          (before : Db) (e : Error) (r : Result A) (t : Session)
          → (settle before (r, t)).0 ≡ err e
          → (settle before (r, t)).1.db ≡ before
      go before e (ok a) t h = cc
      go before e (err x) t h = refl

pub IsReadOnly-read : (f : ℕ → String) → IsReadOnly (read f)
unfolding read
IsReadOnly-read f = record { at = λ s. refl }

pub IsReadOnly-raise_if : (b : Bool) (e : Error) → IsReadOnly (raise_if b e)
unfolding raise_if
IsReadOnly-raise_if true e = record { at = λ s. refl }
IsReadOnly-raise_if false e = record { at = λ s. refl }

module _ {A B : Type 0} where
  pub IsReadOnly-bind :
      (m : Exec Session A) (f : A → Exec Session B)
      → IsReadOnly m
      → ((a : A) → IsReadOnly (f a))
      → IsReadOnly (m >>= f)
  unfolding ◌>>=◌
  IsReadOnly-bind m f rm rf = record { at = λ s. go (m s).0 (m s).1 ∙ rm.at s }
    where
      go : (r : Result A) (t : Session) → (continue r f t).1.db ≡ t.db
      go (ok a) t = (rf a).at t
      go (err e) t = refl

  -- only the last step may write
  pub IsAtomic-bind :
      (m : Exec Session A) (f : A → Exec Session B)
      → IsReadOnly m
      → ((a : A) → IsAtomic (f a))
      → IsAtomic (m >>= f)
  unfolding ◌>>=◌
  IsAtomic-bind m f rm af = record { at = λ s e h. go e (m s).0 (m s).1 h ∙ rm.at s }
    where
      go :
          (e : Error) (r : Result A) (t : Session)
          → (continue r f t).0 ≡ err e
          → (continue r f t).1.db ≡ t.db
      go e (ok a) t h = (af a).at t e h
      go e (err x) t h = refl

  -- or the last step but one, if what follows it only returns a value
  pub IsAtomic-return :
      (m : Exec Session A) (g : A → B) → IsAtomic m → IsAtomic (m >>= λ a. pure (g a))
  unfolding ◌>>=◌
  IsAtomic-return m g am = record { at = λ s e h. go s.db e (m s).0 (m s).1 (am.at s e) h }
    where
      go :
          (before : Db) (e : Error) (r : Result A) (t : Session)
          → (r ≡ err e → t.db ≡ before)
          → (continue r (λ a. pure {S = Session} (g a)) t).0 ≡ err e
          → (continue r (λ a. pure {S = Session} (g a)) t).1.db ≡ before
      go before e (ok a) t k h = cc
      go before e (err x) t k h = k (cc)

pub ruleset read_only_rules = (
  IsReadOnly-pure, IsReadOnly-gets, IsReadOnly-or_raise, IsReadOnly-read, IsReadOnly-raise_if,
  IsReadOnly-bind,
)

pub ruleset atomic_rules =
    (read_only_rules, IsAtomic-transaction, IsAtomic-bind, IsAtomic-return, IsAtomic-IsReadOnly)
