-- ===== src/Collections/HashSet.antt =====
-- `HashSet<T>`: a list without repetition, under a test for membership.
use ws_fanout.Prelude.{
  filter_b, ◌&&◌, suc, ◌≤◌, ◌≡◌, refl, Bool, true, false, List, [], ◌∷◌, arith, Eq, ◌==◌,
  if◌then◌else◌, length,
}

abbrev pub HashSet {ℓ} : Type ℓ → Type ℓ
HashSet A = List A

module _ {ℓ} {A : Type ℓ} ⦃e : Eq A⦄ where
  unfoldable pub contains : A → HashSet A → Bool
  contains a [] = false
  contains a (x ∷ xs) = if x == a then true else contains a xs

  unfoldable pub insert : A → HashSet A → HashSet A
  unfolding contains
  insert a s = if contains a s then s else a ∷ s

  unfoldable pub remove : A → HashSet A → HashSet A
  remove a [] = []
  remove a (x ∷ xs) = let rest = remove a xs in if x == a then rest else x ∷ rest

  -- No member twice.
  abbrev pub Distinct : HashSet A → Type 0
  Distinct [] = Unit
  Distinct (x ∷ xs) = (contains x xs ≡ false) × Distinct xs

  pub contains-insert :
      (a b : A) (s : HashSet A) → contains b (insert a s) ≡ (if a == b then true else contains b s)
  unfolding contains insert
  contains-insert a b s = ground arith

  pub contains-remove :
      (a b : A) (s : HashSet A) → contains b (remove a s) ≡ (if a == b then false else contains b s)
  unfolding contains remove
  contains-remove a b [] = ground arith
  contains-remove a b (x ∷ s) = ground (arith, contains-remove a b s)

  pub insert-Distinct : (a : A) (s : HashSet A) → Distinct s → Distinct (insert a s)
  unfolding insert
  insert-Distinct a s d = ground arith

  pub remove-Distinct : (a : A) (s : HashSet A) → Distinct s → Distinct (remove a s)
  unfolding remove
  remove-Distinct a [] d = tt
  remove-Distinct a (x ∷ s) d = ground (arith, remove-Distinct a s d.1, contains-remove a x s)

  pub length-insert :
      (a : A) (s : HashSet A)
      → length (insert a s) ≡ (if contains a s then length s else suc (length s))
  unfolding insert
  length-insert a s = ground arith

  pub remove_absent : (a : A) (s : HashSet A) → contains a s ≡ false → remove a s ≡ s
  unfolding contains remove
  remove_absent a [] h = refl
  remove_absent a (x ∷ s) h = ground (arith, remove_absent a s)

  pub length-remove-le : (a : A) (s : HashSet A) → length (remove a s) ≤ length s
  unfolding remove
  length-remove-le a [] = omega arith
  length-remove-le a (x ∷ s) = ground (arith, length-remove-le a s)

  pub contains-filter :
      (p : A → Bool) (a : A) (xs : List A) → contains a (filter_b p xs) ≡ (contains a xs && p a)
  unfolding contains filter_b
  contains-filter p a [] = refl
  contains-filter p a (x ∷ xs) = ground (arith, contains-filter p a xs)
