-- ===== src/Prelude/Sums.antt =====
-- Sums over a list of threads, of which one at an index is replaced.
use Prim.Native.Nat.{ℕ, zero, suc, ◌+◌, ◌≤◌, ◌<◌}
use mathlib.Core.Path.{◌≡◌}
use mathlib.Core.Logic.{◌⊎◌, inl, inr}
use mathlib.Core.List.{List, [], ◌∷◌}
use native.Mathlib.Omega.{arith}
use jsockd.Prelude.Tests.{ltb, Bool-cases}
use jsockd.Prelude.Lists.{length, get_or, set}

pub lt_or_le : (a b : ℕ) → (a < b) ⊎ (b ≤ a)
lt_or_le a b = elim (Bool-cases (ltb a b)) [
  | inl e ↦ inl (ground (arith, e))
  | inr e ↦ inr (ground (arith, e))
]

module _ {ℓ} {A : Type ℓ} (f : A → ℕ) where
  abbrev pub total : List A → ℕ
  total [] = 0
  total (t ∷ ts) = f t + total ts

  pub total-set :
      (ts : List A) (i : ℕ) (t d : A)
      → i < length ts
      → total (set ts i t) + f (get_or ts i d) ≡ total ts + f t
  total-set [] i t d h = absurd (omega arith)
  total-set (x ∷ ts) zero t d h = omega arith
  total-set (x ∷ ts) (suc i) t d h = omega (arith, total-set ts i t d (omega arith))

  pub total-get_or : (ts : List A) (i : ℕ) (d : A) → i < length ts → f (get_or ts i d) ≤ total ts
  total-get_or [] i d h = absurd (omega arith)
  total-get_or (x ∷ ts) zero d h = omega arith
  total-get_or (x ∷ ts) (suc i) d h = omega (arith, total-get_or ts i d (omega arith))
