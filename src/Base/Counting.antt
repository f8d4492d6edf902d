-- ===== src/Base/Counting.antt =====
-- Counting the members of a list by a weight.
use Prim.Native.Nat.{ℕ, zero, suc, ◌+◌, ◌*◌, ◌≤◌, ◌<◌}
use mathlib.Core.Path.{◌≡◌, refl}
use mathlib.Core.List.{List, [], ◌∷◌}
use mathlib.Core.Option.{some}
use native.Mathlib.Omega.{arith}
use native.Mathlib.Decide.{ℕ_discrete}
use bulletin_board.Base.Lists.{get_elem?, set, replicate}

module _ {A : Type 0} where
  unfoldable pub total : (A → ℕ) → List A → ℕ
  total w [] = 0
  total w (p ∷ ts) = w p + total w ts

module _ {A : Type 0} (w : A → ℕ) where
  pub total-set :
      (ts : List A) (i : ℕ) (p p' : A)
      → get_elem? ts i ≡ some p
      → total w (set ts i p') + w p ≡ total w ts + w p'
  unfolding total
  total-set [] i p p' h = cc
  total-set (t ∷ ts) zero p p' h = ground arith
  total-set (t ∷ ts) (suc i) p p' h = omega (arith, total-set ts i p p' h)

  pub le-total : (ts : List A) (i : ℕ) (p : A) → get_elem? ts i ≡ some p → w p ≤ total w ts
  unfolding total
  le-total [] i p h = cc
  le-total (t ∷ ts) zero p h = ground arith
  le-total (t ∷ ts) (suc i) p h = omega (arith, le-total ts i p h)

  pub find :
      (ts : List A) → 0 < total w ts → (i : ℕ) × (p : A) × (get_elem? ts i ≡ some p) × (0 < w p)
  unfolding total
  find [] h = absurd (omega arith)
  find (t ∷ ts) h = elim (ℕ_discrete (w t) 0) [
    | yes e ↦ let (i, p, at, pos) = find ts (omega arith) in (suc i, p, at, pos)
    | no ne ↦ (0, t, refl, omega arith)
  ]

  pub total-replicate_zero : (n : ℕ) (a : A) → w a ≡ 0 → total w (replicate n a) ≡ 0
  unfolding total
  total-replicate_zero zero a h = refl
  total-replicate_zero (suc n) a h = omega (arith, total-replicate_zero n a h)

  pub total-replicate_one : (n : ℕ) (a : A) → w a ≡ 1 → total w (replicate n a) ≡ n
  unfolding total
  total-replicate_one zero a h = refl
  total-replicate_one (suc n) a h = omega (arith, total-replicate_one n a h)

  -- A weight that is never above another.
  pub total-le : (v : A → ℕ) → ((a : A) → w a ≤ v a) → (ts : List A) → total w ts ≤ total v ts
  unfolding total
  total-le v h [] = omega arith
  total-le v h (t ∷ ts) = omega (arith, h t, total-le v h ts)

  pub total-replicate : (n k : ℕ) (a : A) → w a ≤ k → total w (replicate n a) ≤ n * k
  unfolding total
  total-replicate zero k a h = grind arith
  total-replicate (suc n) k a h = grind (arith, total-replicate n k a h)

  pub total-zero :
      (ts : List A) → ((i : ℕ) (p : A) → get_elem? ts i ≡ some p → w p ≡ 0) → total w ts ≡ 0
  unfolding total
  total-zero [] h = refl
  total-zero (t ∷ ts) h = omega (arith, h 0 t refl, total-zero ts (λ i. h (suc i)))
