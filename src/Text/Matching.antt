-- ===== src/Text/Matching.antt =====
-- What the matching of regular expressions in Text/Backtrack finds.
use mathlib.Core.Path.{subst}
use token_bank.Prelude.{
  ℕ, zero, suc, ◌<◌, ◌≡◌, ◌↔◌, refl, sym, Bool, true, false, Option, none, some, List, [], ◌∷◌, ◌⊎◌,
  arith, Option-cases, inl, inr,
}
use token_bank.Text.Backtrack.{
  one, maybe, many, boundary, Expression, or_try, one_more, when, is_boundary, match_at, count_from,
}

module _ (is_word : ℕ → Bool) where
  -- an expression matches the first n characters at a place
  pub data Matches : Expression → Option ℕ → List ℕ → ℕ → Type 0 where
    done : {before : Option ℕ} {s : List ℕ} → Matches [] before s 0
    take :
        {p : ℕ → Bool} {r : Expression} {before : Option ℕ} {c : ℕ} {s : List ℕ} {n : ℕ}
        → p c ≡ true
        → Matches r (some c) s n
        → Matches (one p ∷ r) before (c ∷ s) (suc n)
    take_maybe :
        {p : ℕ → Bool} {r : Expression} {before : Option ℕ} {c : ℕ} {s : List ℕ} {n : ℕ}
        → p c ≡ true
        → Matches r (some c) s n
        → Matches (maybe p ∷ r) before (c ∷ s) (suc n)
    pass_maybe :
        {p : ℕ → Bool} {r : Expression} {before : Option ℕ} {s : List ℕ} {n : ℕ}
        → Matches r before s n
        → Matches (maybe p ∷ r) before s n
    take_many :
        {p : ℕ → Bool} {r : Expression} {before : Option ℕ} {c : ℕ} {s : List ℕ} {n : ℕ}
        → p c ≡ true
        → Matches (many p ∷ r) (some c) s n
        → Matches (many p ∷ r) before (c ∷ s) (suc n)
    pass_many :
        {p : ℕ → Bool} {r : Expression} {before : Option ℕ} {s : List ℕ} {n : ℕ}
        → Matches r before s n
        → Matches (many p ∷ r) before s n
    at_boundary :
        {r : Expression} {before : Option ℕ} {s : List ℕ} {n : ℕ}
        → is_boundary is_word before s ≡ true
        → Matches r before s n
        → Matches (boundary ∷ r) before s n

-- what a search says of a property of lengths
abbrev pub Says : (ℕ → Type 0) → Option ℕ → Type 0
Says P none = (n : ℕ) → ¬ P n
Says P (some n) = P n

Says-or_try :
    {P Q R : ℕ → Type 0} (x y : Option ℕ)
    → Says P x
    → Says Q y
    → ((n : ℕ) → P n → R n)
    → ((n : ℕ) → Q n → R n)
    → ((n : ℕ) → R n → P n ⊎ Q n)
    → Says R (or_try x y)
Says-or_try (some n) y h k f g split = f n h
Says-or_try none (some n) h k f g split = g n k
Says-or_try none none h k f g split = λ n r. elim (split n r) [ inl p ↦ h n p | inr q ↦ k n q ]

-- the length with one character more, if that is of the class
abbrev One : Bool → (ℕ → Type 0) → ℕ → Type 0
One b P n = (b ≡ true) × (m : ℕ) × (n ≡ suc m) × P m

Says-when :
    (P : ℕ → Type 0) (b : Bool) (x : Option ℕ) → Says P x → Says (One b P) (when b (one_more x))
Says-when P true none h = λ n (e, m, f, k). h m k
Says-when P true (some n) h = (refl, n, refl, h)
Says-when P false x h = λ n (e, m, f, k). absurd (let bad : false ≡ true = e in cc)

Says-same :
    {P R : ℕ → Type 0} (x : Option ℕ)
    → Says P x
    → ((n : ℕ) → P n → R n)
    → ((n : ℕ) → R n → P n)
    → Says R x
Says-same none h f g = λ n r. h n (g n r)
Says-same (some n) h f g = f n h

module _ (is_word : ℕ → Bool) where
  abbrev M : Expression → Option ℕ → List ℕ → ℕ → Type 0
  M = Matches is_word

  inv_one :
      {p : ℕ → Bool} {r : Expression} {before : Option ℕ} {c : ℕ} {s : List ℕ} (n : ℕ)
      → M (one p ∷ r) before (c ∷ s) n
      → One (p c) (M r (some c) s) n
  inv_one _ (take h m) = (h, _, refl, m)

  no_one : {p : ℕ → Bool} {r : Expression} {before : Option ℕ} (n : ℕ) → ¬ M (one p ∷ r) before [] n
  no_one n m = elim m [ ]

  inv_maybe :
      {p : ℕ → Bool} {r : Expression} {before : Option ℕ} {c : ℕ} {s : List ℕ} (n : ℕ)
      → M (maybe p ∷ r) before (c ∷ s) n
      → One (p c) (M r (some c) s) n ⊎ M r before (c ∷ s) n
  inv_maybe _ (take_maybe h m) = inl (h, _, refl, m)
  inv_maybe _ (pass_maybe m) = inr m

  inv_many :
      {p : ℕ → Bool} {r : Expression} {before : Option ℕ} {c : ℕ} {s : List ℕ} (n : ℕ)
      → M (many p ∷ r) before (c ∷ s) n
      → One (p c) (M (many p ∷ r) (some c) s) n ⊎ M r before (c ∷ s) n
  inv_many _ (take_many h m) = inl (h, _, refl, m)
  inv_many _ (pass_many m) = inr m

  end_maybe :
      {p : ℕ → Bool} {r : Expression} {before : Option ℕ} (n : ℕ)
      → M (maybe p ∷ r) before [] n
      → M r before [] n
  end_maybe _ (pass_maybe m) = m

  end_many :
      {p : ℕ → Bool} {r : Expression} {before : Option ℕ} (n : ℕ)
      → M (many p ∷ r) before [] n
      → M r before [] n
  end_many _ (pass_many m) = m

  inv_boundary :
      {r : Expression} {before : Option ℕ} {s : List ℕ} (n : ℕ)
      → M (boundary ∷ r) before s n
      → (is_boundary is_word before s ≡ true) × M r before s n
  inv_boundary _ (at_boundary h m) = (h, m)

  -- a search finds a match exactly if there is one
  pub match_at-Says :
      (e : Expression) (before : Option ℕ) (s : List ℕ)
      → Says (Matches is_word e before s) (match_at is_word e before s)
  unfolding match_at
  match_at-Says [] before s = done
  match_at-Says (one p ∷ r) before [] = no_one
  match_at-Says (one p ∷ r) before (c ∷ s) =
      Says-same (when (p c) (one_more (match_at is_word r (some c) s)))
        (Says-when (M r (some c) s) (p c) (match_at is_word r (some c) s)
          (match_at-Says r (some c) s))
        (λ n (h, m, e, k). subst (M (one p ∷ r) before (c ∷ s)) (sym e) (take h k)) inv_one
  match_at-Says (maybe p ∷ r) before [] =
      Says-same (match_at is_word r before []) (match_at-Says r before []) (λ n m. pass_maybe m)
        end_maybe
  match_at-Says (maybe p ∷ r) before (c ∷ s) =
      Says-or_try (when (p c) (one_more (match_at is_word r (some c) s)))
        (match_at is_word r before (c ∷ s))
        (Says-when (M r (some c) s) (p c) (match_at is_word r (some c) s)
          (match_at-Says r (some c) s))
        (match_at-Says r before (c ∷ s))
        (λ n (h, m, e, k). subst (M (maybe p ∷ r) before (c ∷ s)) (sym e) (take_maybe h k))
        (λ n m. pass_maybe m) inv_maybe
  match_at-Says (many p ∷ r) before [] =
      Says-same (match_at is_word r before []) (match_at-Says r before []) (λ n m. pass_many m)
        end_many
  match_at-Says (many p ∷ r) before (c ∷ s) =
      Says-or_try (when (p c) (one_more (match_at is_word (many p ∷ r) (some c) s)))
        (match_at is_word r before (c ∷ s))
        (Says-when (M (many p ∷ r) (some c) s) (p c) (match_at is_word (many p ∷ r) (some c) s)
          (match_at-Says (many p ∷ r) (some c) s))
        (match_at-Says r before (c ∷ s))
        (λ n (h, m, e, k). subst (M (many p ∷ r) before (c ∷ s)) (sym e) (take_many h k))
        (λ n m. pass_many m) inv_many
  match_at-Says (boundary ∷ r) before s =
      at_place (is_boundary is_word before s) refl (match_at is_word r before s)
        (match_at-Says r before s)
    where
      at_place :
          (b : Bool)
          → is_boundary is_word before s ≡ b
          → (x : Option ℕ) → Says (M r before s) x
          → Says (M (boundary ∷ r) before s) (when b x)
      at_place true e x h = Says-same x h (λ n m. at_boundary e m) (λ n m. (inv_boundary n m).1)
      at_place false e x h = λ n m. absurd (let bad = (inv_boundary n m).0 in cc)

  -- the expression matches at some place of the text
  pub data Occurs (e : Expression) : Option ℕ → List ℕ → Type 0 where
    here :
        {before : Option ℕ} {c : ℕ} {s : List ℕ} (n : ℕ)
        → Matches is_word e before (c ∷ s) n
        → Occurs e before (c ∷ s)
    later : {before : Option ℕ} {c : ℕ} {s : List ℕ} → Occurs e (some c) s → Occurs e before (c ∷ s)

  counted-Occurs :
      (e : Expression) (skip : ℕ) (before : Option ℕ) (s : List ℕ)
      → 0 < count_from is_word e skip before s
      → Occurs e before s
  unfolding count_from
  counted-Occurs e skip before [] h = absurd (omega arith)
  counted-Occurs e (suc skip) before (c ∷ s) h = later (counted-Occurs e skip (some c) s h)
  counted-Occurs e zero before (c ∷ s) h = elim (Option-cases (match_at is_word e before (c ∷ s))) [
    | inl missed ↦ later (counted-Occurs e 0 (some c) s (rw (missed, count_from) at h))
    | inr (n, matched) ↦
        here n (subst (Says (M e before (c ∷ s))) matched (match_at-Says e before (c ∷ s)))
  ]

  Occurs-counted :
      (e : Expression) (before : Option ℕ) (s : List ℕ)
      → Occurs e before s
      → 0 < count_from is_word e 0 before s
  unfolding count_from
  Occurs-counted e before [] o = elim o [ ]
  Occurs-counted e before (c ∷ s) (here n m) =
      elim (Option-cases (match_at is_word e before (c ∷ s))) [
        | inl missed ↦
            absurd (subst (Says (M e before (c ∷ s))) missed (match_at-Says e before (c ∷ s)) n m)
        | inr (k, matched) ↦ rw (matched, count_from) (omega arith)
      ]
  Occurs-counted e before (c ∷ s) (later o) =
      elim (Option-cases (match_at is_word e before (c ∷ s))) [
        | inl missed ↦ rw (missed, count_from) (Occurs-counted e (some c) s o)
        | inr (k, matched) ↦ rw (matched, count_from) (omega arith)
      ]

  -- findall finds something exactly if the expression occurs
  pub count_from-Occurs :
      (e : Expression) (s : List ℕ) → 0 < count_from is_word e 0 none s ↔ Occurs e none s
  count_from-Occurs e s = (counted-Occurs e 0 none s, Occurs-counted e none s)
