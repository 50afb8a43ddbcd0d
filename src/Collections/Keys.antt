-- ===== src/Collections/Keys.antt =====
-- The keys of a `HashMap` as a set.
use ws_fanout.Prelude.{◌≡◌, refl, Bool, true, false, Option, none, some, [], ◌∷◌, arith, Eq}
use ws_fanout.Collections.HashMap
use ws_fanout.Collections.HashMap.{HashMap, keys}
use ws_fanout.Collections.HashSet

abbrev pub is_some {ℓ} : {A : Type ℓ} → Option A → Bool
is_some none = false
is_some (some a) = true

module _ {ℓ κ} {K : Type ℓ} {V : Type κ} ⦃e : Eq K⦄ where
  pub contains-keys :
      (k : K) (m : HashMap K V) → HashSet.contains k (keys m) ≡ is_some (HashMap.get k m)
  unfolding HashSet.contains HashMap.get
  contains-keys k [] = refl
  contains-keys k ((j, v) ∷ m) = ground (arith, contains-keys k m)

  pub keys-Distinct : (m : HashMap K V) → HashMap.Distinct m → HashSet.Distinct (keys m)
  keys-Distinct [] d = tt
  keys-Distinct ((k, v) ∷ m) d = ground (arith, contains-keys k m, keys-Distinct m d.1)
