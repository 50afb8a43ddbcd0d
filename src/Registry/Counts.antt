-- ===== src/Registry/Counts.antt =====
-- How many members of a set pass a test: what `publish` returns, in src/registry.rs, is compared with
-- such a number.
use ws_fanout.Prelude.{
  ℕ, suc, ◌≡◌, refl, Bool, true, false, ◌&&◌, List, [], ◌∷◌, arith, Eq, if◌then◌else◌, length, sym,
  ==_refl,
}
use ws_fanout.Collections.HashSet
use ws_fanout.Collections.HashSet.{HashSet}

unfoldable pub counts {ℓ} : {A : Type ℓ} → (A → Bool) → List A → ℕ
counts w [] = 0
counts w (x ∷ xs) = let rest = counts w xs in if w x then suc rest else rest

module _ {ℓ} {A : Type ℓ} ⦃e : Eq A⦄ where
  pub counts-congr :
      (w v : A → Bool) (xs : List A)
      → ((a : A) → HashSet.contains a xs ≡ true → w a ≡ v a)
      → counts w xs ≡ counts v xs
  unfolding counts HashSet.contains
  counts-congr w v [] h = refl
  counts-congr w v (x ∷ xs) h = ground (arith, h x, counts-congr w v xs (λ a m. h a (ground arith)))

  counts-zero :
      (w : A → Bool) (xs : List A)
      → ((a : A) → (HashSet.contains a xs && w a) ≡ false)
      → counts w xs ≡ 0
  unfolding counts HashSet.contains
  counts-zero w [] h = refl
  counts-zero w (x ∷ xs) h = ground (arith, h x, counts-zero w xs (λ a. ground (arith, h a)))

  counts-remove :
      (w : A → Bool) (a : A) (xs : HashSet A)
      → HashSet.Distinct xs
      → counts w xs ≡ (
          if HashSet.contains a xs && w a
          then suc (counts w (HashSet.remove a xs))
          else counts w (HashSet.remove a xs))
  unfolding counts HashSet.contains HashSet.remove
  counts-remove w a [] d = refl
  counts-remove w a (x ∷ xs) d =
      ground (arith, counts-remove w a xs d.1, HashSet.remove_absent a xs)

  -- Two sets with the same passing members have as many of them.
  pub counts-same :
      (w : A → Bool) (xs ys : HashSet A)
      → HashSet.Distinct xs
      → HashSet.Distinct ys
      → ((a : A) → (HashSet.contains a xs && w a) ≡ (HashSet.contains a ys && w a))
      → counts w xs ≡ counts w ys
  unfolding counts HashSet.contains
  counts-same w [] ys dx dy h = sym (counts-zero w ys (λ a. sym (h a)))
  counts-same w (x ∷ xs) ys dx dy h =
      let rest : counts w xs ≡ counts w (HashSet.remove x ys) =
        counts-same w xs (HashSet.remove x ys) dx.1 (HashSet.remove-Distinct x ys dy)
          (λ a. ground (arith, h a, HashSet.contains-remove x a ys)) in
      ground (arith, rest, counts-remove w x ys dy, h x, ==_refl x)

  pub counts-length :
      (w : A → Bool) (xs : List A)
      → ((a : A) → HashSet.contains a xs ≡ true → w a ≡ true)
      → counts w xs ≡ length xs
  unfolding counts HashSet.contains
  counts-length w [] h = refl
  counts-length w (x ∷ xs) h = ground (arith, h x, counts-length w xs (λ a m. h a (ground arith)))
