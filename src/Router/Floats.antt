-- ===== src/Router/Floats.antt =====
-- The floating-point arithmetic that router/route_scorer.py uses, as an interface.
use Prim.Native.Nat.{ℕ}
use token_bank.Prelude.{Bool, true, false, List, if◌then◌else◌, ◌≡◌}

pub record Floats : Type 1 where
  pub F : Type 0
  pub lit : ℕ → ℕ → F  -- `lit n k` is the literal of n / 10 ^ k
  pub of_nat : ℕ → F  -- float(n)
  pub plus : F → F → F
  pub minus : F → F → F
  pub times : F → F → F
  pub over : F → F → F
  pub less : F → F → Bool
  pub sum : List F → F
  pub round4 : F → F  -- round(x, 4)

-- What `<` satisfies on numbers that are no NaN, as `sorted` relies on it.
pub record IsOrdered (f : Floats) : Type 0 where
  pub asymmetric : (a b : f.F) → f.less a b ≡ true → f.less b a ≡ false
  pub negatively_transitive :
      (a b c : f.F) → f.less a b ≡ false → f.less b c ≡ false → f.less a c ≡ false

module _ (f : Floats) where
  -- min(a, b) and max(a, b)
  unfoldable pub min_of : f.F → f.F → f.F
  min_of a b = if f.less b a then b else a

  unfoldable pub max_of : f.F → f.F → f.F
  max_of a b = if f.less a b then b else a
