-- ===== src/Sql/Evolution.antt =====
-- How a table may change: rows stay at their place, each moves along a relation, and new rows come
-- at the end.
use token_bank.Prelude.{◌≡◌, Bool, true, List, [], ◌∷◌, ◌++◌, All, Bool-cases, inl, inr}
use token_bank.Sql.{update_where}

module _ {A : Type 0} where
  abbrev pub Evolves : (A → A → Type 0) → List A → List A → Type 0
  Evolves R [] ys = Unit
  Evolves R (x ∷ xs) [] = ⊥
  Evolves R (x ∷ xs) (y ∷ ys) = R x y × Evolves R xs ys

module _ {A : Type 0} (R : A → A → Type 0) (same : (a : A) → R a a) where
  pub Evolves-refl : (xs : List A) → Evolves R xs xs
  Evolves-refl [] = tt
  Evolves-refl (x ∷ xs) = (same x, Evolves-refl xs)

  pub Evolves-append : (xs ys : List A) → Evolves R xs (xs ++ ys)
  Evolves-append [] ys = tt
  Evolves-append (x ∷ xs) ys = (same x, Evolves-append xs ys)

  -- an UPDATE moves the rows that it meets
  pub Evolves-update_where :
      (p : A → Bool) (f : A → A) (xs : List A)
      → All (λ a. p a ≡ true → R a (f a)) xs
      → Evolves R xs (update_where p f xs)
  unfolding update_where
  Evolves-update_where p f [] h = tt
  Evolves-update_where p f (x ∷ xs) h = elim (Bool-cases (p x)) [
    | inl hit ↦ rw hit (h.0 hit, Evolves-update_where p f xs h.1)
    | inr miss ↦ rw miss (same x, Evolves-update_where p f xs h.1)
  ]

module _ {A : Type 0} (R : A → A → Type 0) (step : (a b c : A) → R a b → R b c → R a c) where
  pub Evolves-trans : (xs ys zs : List A) → Evolves R xs ys → Evolves R ys zs → Evolves R xs zs
  Evolves-trans [] ys zs h k = tt
  Evolves-trans (x ∷ xs) [] zs h k = elim h [ ]
  Evolves-trans (x ∷ xs) (y ∷ ys) [] h k = elim k [ ]
  Evolves-trans (x ∷ xs) (y ∷ ys) (z ∷ zs) h k =
      (step x y z h.0 k.0, Evolves-trans xs ys zs h.1 k.1)
