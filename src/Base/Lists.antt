-- ===== src/Base/Lists.antt =====
-- Lists measured, cut and indexed by native numbers, under the library's names.
use Prim.Native.Nat.{ℕ, zero, suc, ◌+◌, ◌-◌, ◌≤◌, min}
use mathlib.Core.Path.{◌≡◌, refl, ap, ◌∙◌}
use mathlib.Core.List.{List, [], ◌∷◌, ◌++◌, reverse, reverse-append}
use mathlib.Core.Logic.{◌⊎◌, inl, inr}
use mathlib.Core.Option.{Option, none, some}
use native.Mathlib.Omega.{arith}
use native.Mathlib.Nat.{zero-add, suc-add}

module _ {ℓ} {A : Type ℓ} where
  abbrev pub length : List A → ℕ
  length [] = 0
  length (x ∷ xs) = suc (length xs)

  abbrev pub get_elem? : List A → ℕ → Option A
  get_elem? [] i = none
  get_elem? (x ∷ xs) zero = some x
  get_elem? (x ∷ xs) (suc i) = get_elem? xs i

  abbrev pub take : ℕ → List A → List A
  take zero xs = []
  take (suc n) [] = []
  take (suc n) (x ∷ xs) = x ∷ take n xs

  abbrev pub drop : ℕ → List A → List A
  drop zero xs = xs
  drop (suc n) [] = []
  drop (suc n) (x ∷ xs) = drop n xs

  abbrev pub replicate : ℕ → A → List A
  replicate zero a = []
  replicate (suc n) a = a ∷ replicate n a

  -- A write out of bounds changes nothing.
  abbrev pub set : List A → ℕ → A → List A
  set [] i v = []
  set (x ∷ xs) zero v = v ∷ xs
  set (x ∷ xs) (suc i) v = x ∷ set xs i v

module _ {ℓ} {A : Type ℓ} where
  pub length-append : (xs ys : List A) → length (xs ++ ys) ≡ length xs + length ys
  length-append [] ys = omega arith
  length-append (x ∷ xs) ys = omega (arith, length-append xs ys)

  pub length-replicate : (n : ℕ) (a : A) → length (replicate n a) ≡ n
  length-replicate zero a = refl
  length-replicate (suc n) a = ap suc (length-replicate n a)

  pub length-drop : (n : ℕ) (xs : List A) → length (drop n xs) ≡ length xs - n
  length-drop zero xs = omega arith
  length-drop (suc n) [] = omega arith
  length-drop (suc n) (x ∷ xs) = omega (arith, length-drop n xs)

  pub length-reverse : (xs : List A) → length (reverse xs) ≡ length xs
  length-reverse [] = refl
  length-reverse (x ∷ xs) =
      ap length (reverse-append (x ∷ []) xs)
      ∙ omega (arith, length-append (reverse xs) (x ∷ []), length-reverse xs)

  pub take-all : (n : ℕ) (xs : List A) → length xs ≤ n → take n xs ≡ xs
  take-all zero [] h = refl
  take-all zero (x ∷ xs) h = absurd (omega arith)
  take-all (suc n) [] h = refl
  take-all (suc n) (x ∷ xs) h = ap (◌∷◌ x) (take-all n xs (omega arith))

  pub length-take : (n : ℕ) (xs : List A) → length (take n xs) ≡ min n (length xs)
  length-take zero xs = omega arith
  length-take (suc n) [] = omega arith
  length-take (suc n) (x ∷ xs) = omega (arith, length-take n xs)

  -- Cutting a list at the seam of an append; the cut is a variable with an equation.
  pub take-seam : (n : ℕ) (xs ys : List A) → n ≡ length xs → take n (xs ++ ys) ≡ xs
  take-seam zero [] ys h = refl
  take-seam zero (x ∷ xs) ys h = absurd (omega arith)
  take-seam (suc n) [] ys h = absurd (omega arith)
  take-seam (suc n) (x ∷ xs) ys h = ap (◌∷◌ x) (take-seam n xs ys (omega arith))

  pub take-append : (n : ℕ) (xs ys : List A) → n ≤ length xs → take n (xs ++ ys) ≡ take n xs
  take-append zero xs ys h = refl
  take-append (suc n) [] ys h = absurd (omega arith)
  take-append (suc n) (x ∷ xs) ys h = ap (◌∷◌ x) (take-append n xs ys (omega arith))

  pub drop-seam : (n : ℕ) (xs ys : List A) → n ≡ length xs → drop n (xs ++ ys) ≡ ys
  drop-seam zero [] ys h = refl
  drop-seam zero (x ∷ xs) ys h = absurd (omega arith)
  drop-seam (suc n) [] ys h = absurd (omega arith)
  drop-seam (suc n) (x ∷ xs) ys h = drop-seam n xs ys (omega arith)

  pub drop-past : (n : ℕ) (xs : List A) → length xs ≤ n → drop n xs ≡ []
  drop-past zero [] h = refl
  drop-past zero (x ∷ xs) h = absurd (omega arith)
  drop-past (suc n) [] h = refl
  drop-past (suc n) (x ∷ xs) h = drop-past n xs (omega arith)

  pub get_elem?-seam :
      (n : ℕ) (xs : List A) (y : A) (ys : List A)
      → n ≡ length xs
      → get_elem? (xs ++ (y ∷ ys)) n ≡ some y
  get_elem?-seam zero [] y ys h = refl
  get_elem?-seam zero (x ∷ xs) y ys h = absurd (omega arith)
  get_elem?-seam (suc n) [] y ys h = absurd (omega arith)
  get_elem?-seam (suc n) (x ∷ xs) y ys h = get_elem?-seam n xs y ys (omega arith)

  pub length-set : (xs : List A) (i : ℕ) (v : A) → length (set xs i v) ≡ length xs
  length-set [] i v = refl
  length-set (x ∷ xs) zero v = refl
  length-set (x ∷ xs) (suc i) v = ap suc (length-set xs i v)

  pub drop_beyond-seam :
      (p k : ℕ) (xs ys : List A) → p ≡ length xs → drop (p + k) (xs ++ ys) ≡ drop k ys
  drop_beyond-seam zero k [] ys h = rw zero-add
  drop_beyond-seam zero k (x ∷ xs) ys h = absurd (omega arith)
  drop_beyond-seam (suc p) k [] ys h = absurd (omega arith)
  drop_beyond-seam (suc p) k (x ∷ xs) ys h = rw suc-add (drop_beyond-seam p k xs ys (omega arith))

-- What stands in a list after a write.
pub get_elem?-set :
    {A : Type 0} (xs : List A) (i j : ℕ) (v w : A)
    → get_elem? (set xs i v) j ≡ some w
    → ((i ≡ j) × (w ≡ v)) ⊎ ((¬ (i ≡ j)) × (get_elem? xs j ≡ some w))
get_elem?-set [] i j v w h = cc
get_elem?-set (x ∷ xs) zero zero v w h = inl (refl, ground arith)
get_elem?-set (x ∷ xs) zero (suc j) v w h = inr (λ e. omega arith, h)
get_elem?-set (x ∷ xs) (suc i) zero v w h = inr (λ e. omega arith, h)
get_elem?-set (x ∷ xs) (suc i) (suc j) v w h = elim (get_elem?-set xs i j v w h) [
  | inl (e, k) ↦ inl (ap suc e, k)
  | inr (e, k) ↦ inr (λ q. e (omega arith), k)
]
