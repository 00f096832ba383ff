-- ===== src/Session/Runs.antt =====
-- What a run that returned, or raised, says of its parts.
use token_bank.Prelude.{ℕ, String, ◌≡◌, refl, sym, ap, ◌∙◌, Option, none, some}
use token_bank.Result.{Error, Result, ok, err}
use token_bank.Exec.{Exec, pure, gets, or_raise, continue, ◌>>=◌}
use token_bank.Session.{Session, read, settle, transaction}
use token_bank.Session.Atomic.{IsReadOnly}

module _ {A : Type 0} where
  -- a transaction returns what its body returns
  pub transaction-ok :
      (m : Exec Session A) (s : Session) (a : A)
      → (transaction m s).0 ≡ ok a
      → ((m s).0 ≡ ok a) × ((transaction m s).1 ≡ (m s).1)
  unfolding transaction
  transaction-ok m s a e = go (m s).0 (m s).1 e
    where
      go :
          (r : Result A) (t : Session)
          → (settle s.db (r, t)).0 ≡ ok a
          → (r ≡ ok a) × ((settle s.db (r, t)).1 ≡ t)
      go (ok b) t h = (h, refl)
      go (err x) t h = cc

  pub transaction-err :
      (m : Exec Session A) (s : Session) (x : Error) → (m s).0 ≡ err x → (transaction m s).0 ≡ err x
  unfolding transaction
  transaction-err m s x e = go (m s).0 (m s).1 e
    where
      go : (r : Result A) (t : Session) → r ≡ err x → (settle s.db (r, t)).0 ≡ err x
      go (ok b) t h = cc
      go (err y) t h = h

module _ {A B : Type 0} where
  -- where a sequence returned, its first step did
  pub bind-ok :
      (m : Exec Session A) (f : A → Exec Session B) (s : Session) (b : B)
      → ((m >>= f) s).0 ≡ ok b
      → (a : A) × ((m s).0 ≡ ok a) × ((m >>= f) s ≡ f a (m s).1)
  unfolding ◌>>=◌
  bind-ok m f s b e = go (m s).0 (m s).1 e
    where
      go :
          (r : Result A) (t : Session)
          → (continue r f t).0 ≡ ok b
          → (a : A) × (r ≡ ok a) × (continue r f t ≡ f a t)
      go (ok a) t h = (a, refl, refl)
      go (err x) t h = cc

  pub bind-err :
      (m : Exec Session A) (f : A → Exec Session B) (s : Session) (x : Error)
      → (m s).0 ≡ err x
      → ((m >>= f) s).0 ≡ err x
  unfolding ◌>>=◌
  bind-err m f s x e = go (m s).0 (m s).1 e
    where
      go : (r : Result A) (t : Session) → r ≡ err x → (continue r f t).0 ≡ err x
      go (ok a) t h = cc
      go (err y) t h = cc

module _ {A B C : Type 0} where
  -- The same for a first step that only reads, with the state behind it named.
  pub read_step :
      (m : Exec Session A) (f : A → Exec Session B) (s : Session) (b : B)
      → IsReadOnly m
      → ((m >>= f) s).0 ≡ ok b
      → ((a : A) (t : Session) → (m s).0 ≡ ok a → t.db ≡ s.db → (f a t).0 ≡ ok b → C)
      → C
  read_step m f s b r e k =
      let (a, returned, onward) = bind-ok m f s b e in
      k a (m s).1 returned (r.at s) (ap (λ (x : Result B × Session). x.0) (sym onward) ∙ e)

pub gets-ok : {A : Type 0} (f : Session → A) (s : Session) (a : A) → (gets f s).0 ≡ ok a → a ≡ f s
unfolding gets
gets-ok f s a e = cc e

-- the last lines of a method: a reading of the clock, and the value that is returned
pub read-pure-ok :
    {A : Type 0} (source : ℕ → String) (f : String → A) (s : Session) (a : A)
    → ((read source >>= λ t. pure (f t)) s).0 ≡ ok a
    → a ≡ f (source s.reads)
unfolding ◌>>=◌ read
read-pure-ok source f s a e = cc e

-- what every value has that an action returns
pub record Ends {A : Type 0} (P : A → Type 0) (m : Exec Session A) : Type 0 where
  pub at : (s : Session) (a : A) → (m s).0 ≡ ok a → P a

pub pure-ok : {A : Type 0} (a b : A) (s : Session) → (pure a s).0 ≡ ok b → a ≡ b
unfolding pure
pure-ok a b s e = cc

module _ {A : Type 0} {P : A → Type 0} where
  pub Ends-pure : (a : A) → P a → Ends P (pure a)
  Ends-pure a h = record { at = λ s b e. rw (← pure-ok a b s e) h }

  -- the last step decides
  pub Ends-bind :
      {B : Type 0} (m : Exec Session B) (f : B → Exec Session A)
      → ((b : B) → Ends P (f b))
      → Ends P (m >>= f)
  Ends-bind m f h = record {
    at = λ s a e.
        let (b, returned, onward) = bind-ok m f s a e in (h b).at (m s).1 a (rw onward at e);
  }

  -- and may use what the first gives
  pub Ends-bind_with :
      {B : Type 0} (Q : B → Type 0) (m : Exec Session B) (f : B → Exec Session A)
      → Ends Q m
      → ((b : B) → Q b → Ends P (f b))
      → Ends P (m >>= f)
  Ends-bind_with Q m f g h = record {
    at = λ s a e.
        let (b, returned, onward) = bind-ok m f s a e in
        (h b (g.at s b returned)).at (m s).1 a (rw onward at e);
  }

module _ {A B C : Type 0} where
  -- The same for a query and the `raise` on a missing row.
  pub lookup_step :
      (f : Session → Option A) (x : Error) (k : A → Exec Session B) (s : Session) (b : B)
      → ((gets f >>= λ row. or_raise x row >>= k) s).0 ≡ ok b
      → ((a : A) → f s ≡ some a → (k a s).0 ≡ ok b → C)
      → C
  unfolding ◌>>=◌
  lookup_step f x k s b e next = go (f s) refl e
    where
      go : (row : Option A) → f s ≡ row → ((or_raise x row >>= k) s).0 ≡ ok b → C
      go none q h = absurd (let bad : err x ≡ ok b = h in cc)
      go (some a) q h = next a q h
