-- ===== src/Sql/Rows.antt =====
-- Keys and counters of a table.
use token_bank.Prelude.{
  ℕ, suc, ◌+◌, ◌≡◌, refl, sym, ap, ◌∙◌, All, All-map, any-false-All, Bool, true, false, some, List,
  [], ◌∷◌, ◌++◌, String, str_eq, eq_iff, any, keep, length, any-append, arith, max, Bool-cases, inl,
  inr,
}
use mathlib.Core.Bool.{false≢true}
use token_bank.Sql.{fetchone, update_where, max_column}

module _ {A : Type 0} where
  -- No two rows have one key.
  abbrev pub Distinct : (A → String) → List A → Type 0
  Distinct key [] = Unit
  Distinct key (r ∷ rs) = (any (λ o. str_eq (key o) (key r)) rs ≡ false) × Distinct key rs

  -- The counter runs k, k + 1, ... along the rows.
  abbrev pub Numbered : (A → ℕ) → ℕ → List A → Type 0
  Numbered f k [] = Unit
  Numbered f k (r ∷ rs) = (f r ≡ k) × Numbered f (suc k) rs

  pub Numbered-append :
      (f : A → ℕ) (k : ℕ) (rs : List A) (r : A)
      → Numbered f k rs
      → f r ≡ k + length rs
      → Numbered f k (rs ++ r ∷ [])
  Numbered-append f k [] r h e = (omega arith, tt)
  Numbered-append f k (x ∷ rs) r h e = (h.0, Numbered-append f (suc k) rs r h.1 (omega arith))

  max_column_lem :
      (f : A → ℕ) (k : ℕ) (rs : List A)
      → Numbered f (suc k) rs
      → max k (max_column f rs) ≡ k + length rs
  unfolding max_column
  max_column_lem f k [] h = omega arith
  max_column_lem f k (x ∷ rs) h = omega (arith, max_column_lem f (suc k) rs h.1)

  -- For a counter that starts at 1 the next number is one more than the rows.
  pub max_column-Numbered :
      (f : A → ℕ) (rs : List A) → Numbered f 1 rs → max_column f rs ≡ length rs
  max_column-Numbered f rs h = omega (arith, max_column_lem f 0 rs h)

  pub Distinct-append :
      (key : A → String) (rs : List A) (r : A)
      → Distinct key rs
      → any (λ o. str_eq (key o) (key r)) rs ≡ false
      → Distinct key (rs ++ r ∷ [])
  Distinct-append key [] r h k = (refl, tt)
  Distinct-append key (x ∷ rs) r h k = (
    rw (any-append (λ o. str_eq (key o) (key x)) rs (r ∷ []))
        (ground (arith, eq_iff (key r) (key x), eq_iff (key x) (key r), h.0)),
    Distinct-append key rs r h.1 (ground arith),
  )

  module _ (p : A → Bool) (f : A → A) where
    -- a test that the update does not change
    pub any-update_where :
        (q : A → Bool) (rs : List A)
        → ((a : A) → q (f a) ≡ q a)
        → any q (update_where p f rs) ≡ any q rs
    unfolding update_where
    any-update_where q [] h = refl
    any-update_where q (x ∷ rs) h = ground (arith, h x, any-update_where q rs h)

    pub Distinct-update_where :
        (key : A → String) (rs : List A)
        → ((a : A) → key (f a) ≡ key a)
        → Distinct key rs
        → Distinct key (update_where p f rs)
    unfolding update_where
    Distinct-update_where key [] h d = tt
    Distinct-update_where key (x ∷ rs) h d = elim (Bool-cases (p x)) [
      | inl hit ↦ rw hit (rw (h x) (unseen, Distinct-update_where key rs h d.1))
      | inr miss ↦ rw miss (unseen, Distinct-update_where key rs h d.1)
    ]
      where
        unseen : any (λ o. str_eq (key o) (key x)) (update_where p f rs) ≡ false
        unseen =
            any-update_where (λ o. str_eq (key o) (key x)) rs
              (λ a. ap (λ t. str_eq t (key x)) (h a))
            ∙ d.0

    pub All-update_where :
        (P : A → Type 0) (rs : List A)
        → ((a : A) → P a → P (f a))
        → All P rs
        → All P (update_where p f rs)
    unfolding update_where
    All-update_where P [] h k = tt
    All-update_where P (x ∷ rs) h k = elim (Bool-cases (p x)) [
      | inl hit ↦ rw hit (h x k.0, All-update_where P rs h k.1)
      | inr miss ↦ rw miss (k.0, All-update_where P rs h k.1)
    ]

    pub Numbered-update_where :
        (q : A → Bool) (g : A → ℕ) (k : ℕ) (rs : List A)
        → ((a : A) → q (f a) ≡ q a)
        → ((a : A) → g (f a) ≡ g a)
        → Numbered g k (keep q rs)
        → Numbered g k (keep q (update_where p f rs))
    unfolding update_where
    Numbered-update_where q g k [] hq hg h = tt
    Numbered-update_where q g k (x ∷ rs) hq hg h = elim (Bool-cases (q x)) [
      | inl in_unit ↦
          let tail = rw in_unit at h in
          elim (Bool-cases (p x)) [
            | inl hit ↦
                rw (hit, hq x, in_unit)
                  (hg x ∙ tail.0, Numbered-update_where q g (suc k) rs hq hg tail.1)
            | inr miss ↦
                rw (miss, in_unit) (tail.0, Numbered-update_where q g (suc k) rs hq hg tail.1)
          ]
      | inr out ↦
          let tail = rw out at h in
          elim (Bool-cases (p x)) [
            | inl hit ↦ rw (hit, hq x, out) (Numbered-update_where q g k rs hq hg tail)
            | inr miss ↦ rw (miss, out) (Numbered-update_where q g k rs hq hg tail)
          ]
    ]

  -- With distinct keys the row that a lookup finds is the only one with its key.
  pub fetchone_unique :
      (key : A → String) (id : String) (rs : List A) (r : A)
      → Distinct key rs
      → fetchone (λ o. str_eq (key o) id) rs ≡ some r
      → All (λ o. str_eq (key o) id ≡ true → o ≡ r) rs
  unfolding fetchone
  fetchone_unique key id [] r d e = tt
  fetchone_unique key id (x ∷ rs) r d e = elim (Bool-cases (str_eq (key x) id)) [
    | inl hit ↦ (
      λ _. (let found = rw hit at e in cc),
      All-map {Q = λ o. str_eq (key o) id ≡ true → o ≡ r}
          (λ o (unlike : str_eq (key o) (key x) ≡ false) same.
            absurd
              (false≢true (sym unlike ∙ ap (str_eq (key o)) ((eq_iff (key x) id).0 hit) ∙ same)))
          rs (any-false-All (λ o. str_eq (key o) (key x)) rs d.0),
    )
    | inr miss ↦ (
      λ same. absurd (false≢true (sym miss ∙ same)),
      fetchone_unique key id rs r d.1 (rw miss at e),
    )
  ]
