-- ===== src/Prelude/Lists.antt =====
-- Lists measured by native numbers, and the iterator methods that the program calls.
use Prim.Native.Nat.{ℕ, suc, ◌+◌, ◌≤◌}
use mathlib.Core.Path.{◌≡◌, refl}
use mathlib.Core.Bool.{Bool, true, false, not}
use mathlib.Core.List.{List, [], ◌∷◌, ◌++◌, map}
use native.Mathlib.Omega.{arith}
use ws_fanout.Prelude.Tests.{if◌then◌else◌}

module _ {ℓ} {A : Type ℓ} where
  abbrev pub length : List A → ℕ
  length [] = 0
  length (x ∷ xs) = suc (length xs)

  abbrev pub is_empty : List A → Bool
  is_empty [] = true
  is_empty (x ∷ xs) = false

  -- `retain`, and one half of `partition`.
  unfoldable pub filter_b : (A → Bool) → List A → List A
  filter_b p [] = []
  filter_b p (x ∷ xs) = let rest = filter_b p xs in if p x then x ∷ rest else rest

  -- `Iterator::partition`.
  unfoldable pub partition : (A → Bool) → List A → List A × List A
  unfolding filter_b
  partition p xs = (filter_b p xs, filter_b (λ x. not (p x)) xs)

  abbrev pub All {κ} : (A → Type κ) → List A → Type κ
  All P [] = Unit
  All P (x ∷ xs) = P x × All P xs

  pub length-append : (xs ys : List A) → length (xs ++ ys) ≡ length xs + length ys
  length-append [] ys = omega arith
  length-append (x ∷ xs) ys = omega (arith, length-append xs ys)

  pub length-filter-le : (p : A → Bool) (xs : List A) → length (filter_b p xs) ≤ length xs
  unfolding filter_b
  length-filter-le p [] = omega arith
  length-filter-le p (x ∷ xs) = ground (arith, length-filter-le p xs)

  pub All-append {κ} : (P : A → Type κ) (xs ys : List A) → All P xs → All P ys → All P (xs ++ ys)
  All-append P [] ys hx hy = hy
  All-append P (x ∷ xs) ys hx hy = (hx.0, All-append P xs ys hx.1 hy)

module _ {ℓ κ} {A : Type ℓ} {B : Type κ} where
  pub length-map : (xs : List A) (f : A → B) → length (map f xs) ≡ length xs
  length-map [] f = refl
  length-map (x ∷ xs) f = omega (arith, length-map xs f)

module _ {ℓ} {A : Type ℓ} where
  -- Both tests hold of what two filters in a row let through.
  pub filter_b-All :
      (p q : A → Bool) (xs : List A)
      → All (λ x. (p x ≡ true) × (q x ≡ true)) (filter_b q (filter_b p xs))
  unfolding filter_b
  filter_b-All p q [] = tt
  filter_b-All p q (x ∷ xs) = ground (arith, filter_b-All p q xs)

  pub All-filter_b {κ} :
      (P : A → Type κ) (p : A → Bool) (xs : List A) → All P xs → All P (filter_b p xs)
  unfolding filter_b
  All-filter_b P p [] h = tt
  All-filter_b P p (x ∷ xs) h = ground (arith, h.0, All-filter_b P p xs h.1)
