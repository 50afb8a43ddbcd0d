-- ===== src/Collections/HashMap.antt =====
-- `HashMap<K, V>`: an association list with one entry for a key. What the program reads of a map
-- is `get`, `len` and the values; the order in which the entries stand stands for the order of
-- iteration, which Rust leaves open.
use ws_fanout.Prelude.{
  suc, ◌+◌, ◌≡◌, refl, Option, none, some, List, [], ◌∷◌, map, arith, Eq, ◌==◌, if◌then◌else◌,
  length,
}

abbrev pub HashMap {ℓ κ} : Type ℓ → Type κ → Type (ℓ ⊔ κ)
HashMap K V = List (K × V)

module _ {ℓ κ} {K : Type ℓ} {V : Type κ} where
  abbrev pub values : HashMap K V → List V
  values = map (λ e. e.1)

  abbrev pub keys : HashMap K V → List K
  keys = map (λ e. e.0)

module _ {ℓ κ} {K : Type ℓ} {V : Type κ} ⦃e : Eq K⦄ where
  unfoldable pub get : K → HashMap K V → Option V
  get k [] = none
  get k ((j, v) ∷ m) = if j == k then some v else get k m

  unfoldable pub insert : K → V → HashMap K V → HashMap K V
  insert k v [] = (k, v) ∷ []
  insert k v ((j, w) ∷ m) = if j == k then (k, v) ∷ m else (j, w) ∷ insert k v m

  unfoldable pub remove : K → HashMap K V → HashMap K V
  remove k [] = []
  remove k ((j, v) ∷ m) = let rest = remove k m in if j == k then rest else (j, v) ∷ rest

  -- One entry for a key.
  abbrev pub Distinct : HashMap K V → Type κ
  Distinct [] = Unit
  Distinct ((k, v) ∷ m) = (get k m ≡ none) × Distinct m

  pub get-insert :
      (k j : K) (v : V) (m : HashMap K V)
      → get j (insert k v m) ≡ (if k == j then some v else get j m)
  unfolding get insert
  get-insert k j v [] = refl
  get-insert k j v ((i, w) ∷ m) = ground (arith, get-insert k j v m)

  pub get-remove :
      (k j : K) (m : HashMap K V) → get j (remove k m) ≡ (if k == j then none else get j m)
  unfolding get remove
  get-remove k j [] = ground arith
  get-remove k j ((i, w) ∷ m) = ground (arith, get-remove k j m)

  pub remove_absent : (k : K) (m : HashMap K V) → get k m ≡ none → remove k m ≡ m
  unfolding get remove
  remove_absent k [] h = refl
  remove_absent k ((i, w) ∷ m) h = ground (arith, remove_absent k m)

  pub length-insert_new :
      (k : K) (v : V) (m : HashMap K V) → get k m ≡ none → length (insert k v m) ≡ suc (length m)
  unfolding get insert
  length-insert_new k v [] h = refl
  length-insert_new k v ((i, w) ∷ m) h = ground (arith, length-insert_new k v m)

  pub length-insert_old :
      (k : K) (v w : V) (m : HashMap K V) → get k m ≡ some w → length (insert k v m) ≡ length m
  unfolding get insert
  length-insert_old k v u [] h = ground arith
  length-insert_old k v u ((i, w) ∷ m) h = ground (arith, length-insert_old k v u m)

  pub length-remove :
      (k : K) (w : V) (m : HashMap K V)
      → Distinct m
      → get k m ≡ some w
      → length (remove k m) + 1 ≡ length m
  unfolding get remove
  length-remove k u [] d h = ground arith
  length-remove k u ((i, w) ∷ m) d h = ground (arith, length-remove k u m d.1, remove_absent k m)

  pub insert-Distinct : (k : K) (v : V) (m : HashMap K V) → Distinct m → Distinct (insert k v m)
  unfolding get insert
  insert-Distinct k v [] d = (refl, tt)
  insert-Distinct k v ((i, w) ∷ m) d = ground (arith, insert-Distinct k v m d.1, get-insert k i v m)

  pub remove-Distinct : (k : K) (m : HashMap K V) → Distinct m → Distinct (remove k m)
  unfolding get remove
  remove-Distinct k [] d = tt
  remove-Distinct k ((i, w) ∷ m) d = ground (arith, remove-Distinct k m d.1, get-remove k i m)
