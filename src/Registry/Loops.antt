-- ===== src/Registry/Loops.antt =====
-- The loops of `subscribe` and `unsubscribe`, src/registry.rs: what they leave in the set, and
-- which channels they report.
use ws_fanout.Prelude.{
  ℕ, suc, ◌+◌, ◌≤◌, ◌<◌, ◌≡◌, refl, true, false, ◌||◌, ◌&&◌, not, String, List, [], ◌∷◌, ◌++◌,
  foldl, arith, ◌==◌, leb, length, All, Bool-cases, inl, inr, nat_eq, string_eq,
}
use ws_fanout.Collections.HashSet
use ws_fanout.Collections.HashSet.{HashSet}
use ws_fanout.Registry.{Admission, admission, admit, Withdrawal, withdrawal, withdraw}

pub contains-append :
    (d : String) (xs ys : List String)
    → HashSet.contains d (xs ++ ys) ≡ (HashSet.contains d xs || HashSet.contains d ys)
unfolding HashSet.contains
contains-append d [] ys = refl
contains-append d (x ∷ xs) ys = ground (arith, contains-append d xs ys)

-- What holds of the loop's variables when the set was `old` before it.
pub record Admits (old : HashSet String) (max : ℕ) (a : Admission) : Type 0 where
  pub held :
      (d : String)
      → HashSet.contains d a.subscriptions ≡ (HashSet.contains d old || HashSet.contains d a.added)
  pub new : (d : String) → HashSet.contains d a.added ≡ true → HashSet.contains d old ≡ false
  pub distinct : HashSet.Distinct a.subscriptions
  pub counted : length a.subscriptions ≡ length old + length a.added
  pub room : (0 < length a.added) → length a.subscriptions ≤ max
  pub apart :
      (d : String)
      → HashSet.contains d a.over_limit ≡ true
      → HashSet.contains d a.subscriptions ≡ false
  pub refused : (0 < length a.over_limit) → max ≤ length a.subscriptions

length-append_one {ℓ} : {A : Type ℓ} (xs : List A) (x : A) → length (xs ++ x ∷ []) ≡ suc (length xs)
length-append_one [] x = refl
length-append_one (y ∷ xs) x = omega (arith, length-append_one xs x)

contains_one : (d ch : String) → HashSet.contains d (ch ∷ []) ≡ ch == d
unfolding HashSet.contains
contains_one d ch = ground arith

contains-pos : (d : String) (xs : List String) → HashSet.contains d xs ≡ true → 0 < length xs
unfolding HashSet.contains
contains-pos d [] h = ground arith
contains-pos d (x ∷ xs) h = omega arith

pub admit-Admits :
    (old : HashSet String) (max : ℕ) (a : Admission) (ch : String)
    → Admits old max a
    → Admits old max (admit max a ch)
unfolding admit
admit-Admits old max a ch h = elim (Bool-cases (HashSet.contains ch a.subscriptions)) [
  | inl again ↦ rw (again, admit) h
  | inr new ↦ elim (Bool-cases (leb max (length a.subscriptions))) [
    | inl full ↦
        rw (new, admit, full)
          (record {
            held = h.held;
            new = h.new;
            distinct = h.distinct;
            counted = h.counted;
            room = h.room;
            apart = λ d e.
                ground
                  (arith, h.apart d, contains-append d a.over_limit (ch ∷ []), contains_one d ch);
            refused = λ _. ground arith;
          })
    | inr room ↦
        rw (new, admit, room)
          (record {
            held = λ d. ground (
              arith,
              HashSet.contains-insert ch d a.subscriptions,
              h.held d,
              contains-append d a.added (ch ∷ []),
              contains_one d ch,
            );
            new = λ d e.
                ground (
                  arith,
                  h.held d,
                  h.new d,
                  contains-append d a.added (ch ∷ []),
                  contains_one d ch,
                );
            distinct = HashSet.insert-Distinct ch a.subscriptions h.distinct;
            counted = ground (
              arith,
              HashSet.length-insert ch a.subscriptions,
              h.counted,
              length-append_one a.added ch,
            );
            apart = λ d e. absurd (ground (arith, contains-pos d a.over_limit, h.refused));
            room = λ _. ground (arith, HashSet.length-insert ch a.subscriptions);
            refused = λ p. ground (arith, h.refused p, HashSet.length-insert ch a.subscriptions);
          })
  ]
]

pub admission-Admits :
    (held : HashSet String) (max : ℕ) → HashSet.Distinct held → Admits held max (admission held)
unfolding HashSet.contains
admission-Admits held max d = record {
  held = λ ch. ground arith;
  new = λ ch e. ground arith;
  distinct = d;
  counted = omega arith;
  room = λ p. absurd (omega arith);
  apart = λ ch e. ground arith;
  refused = λ p. absurd (omega arith);
}

pub admit_all-Admits :
    (old : HashSet String) (max : ℕ) (chs : List String) (a : Admission)
    → Admits old max a
    → Admits old max (foldl (admit max) a chs)
admit_all-Admits old max [] a h = h
admit_all-Admits old max (ch ∷ chs) a h =
    admit_all-Admits old max chs (admit max a ch) (admit-Admits old max a ch h)

-- Channels that are already in the set change nothing.
pub admit-All-again :
    (max : ℕ) (chs : List String) (a : Admission)
    → All (λ d. HashSet.contains d a.subscriptions ≡ true) chs
    → foldl (admit max) a chs ≡ a
unfolding admit
admit-All-again max [] a h = refl
admit-All-again max (ch ∷ chs) a h = ground (arith, h.0, admit-All-again max chs a h.1)

-- Every channel asked for is in the set or was refused, and nothing else is added.
pub admit_all-seen :
    (max : ℕ) (chs : List String) (a : Admission) (d : String)
    → let b = foldl (admit max) a chs in
      (HashSet.contains d b.subscriptions || HashSet.contains d b.over_limit) ≡ (
        HashSet.contains d a.subscriptions
        || HashSet.contains d a.over_limit
        || HashSet.contains d chs)
unfolding admit HashSet.contains
admit_all-seen max [] a d = ground arith
admit_all-seen max (ch ∷ chs) a d = ground (
  arith,
  admit_all-seen max chs (admit max a ch) d,
  HashSet.contains-insert ch d a.subscriptions,
  contains-append d a.over_limit (ch ∷ []),
  contains_one d ch,
)

pub record Withdraws (old : HashSet String) (w : Withdrawal) : Type 0 where
  pub left :
      (d : String)
      → HashSet.contains d w.subscriptions
        ≡ (HashSet.contains d old && not (HashSet.contains d w.removed))
  pub held : (d : String) → HashSet.contains d w.removed ≡ true → HashSet.contains d old ≡ true
  pub distinct : HashSet.Distinct w.subscriptions

pub withdraw-Withdraws :
    (old : HashSet String) (w : Withdrawal) (ch : String)
    → Withdraws old w
    → Withdraws old (withdraw w ch)
unfolding withdraw
withdraw-Withdraws old w ch h = elim (Bool-cases (HashSet.contains ch w.subscriptions)) [
  | inr absent ↦ rw (absent, withdraw) h
  | inl present ↦
      rw (present, withdraw)
        (record {
          left = λ d. ground (
            arith,
            HashSet.contains-remove ch d w.subscriptions,
            h.left d,
            contains-append d w.removed (ch ∷ []),
            contains_one d ch,
          );
          held = λ d e.
              ground (
                arith,
                h.left d,
                h.held d,
                contains-append d w.removed (ch ∷ []),
                contains_one d ch,
              );
          distinct = HashSet.remove-Distinct ch w.subscriptions h.distinct;
        })
]

pub withdrawal-Withdraws :
    (old : HashSet String) → HashSet.Distinct old → Withdraws old (withdrawal old)
unfolding HashSet.contains
withdrawal-Withdraws old d = record {
  left = λ ch. ground arith;
  held = λ ch e. ground arith;
  distinct = d;
}

pub withdraw_all-Withdraws :
    (old : HashSet String) (chs : List String) (w : Withdrawal)
    → Withdraws old w
    → Withdraws old (foldl withdraw w chs)
withdraw_all-Withdraws old [] w h = h
withdraw_all-Withdraws old (ch ∷ chs) w h =
    withdraw_all-Withdraws old chs (withdraw w ch) (withdraw-Withdraws old w ch h)

-- The loop takes out what it is given.
pub withdraw_all-removed :
    (chs : List String) (w : Withdrawal) (d : String)
    → HashSet.contains d (foldl withdraw w chs).subscriptions
      ≡ (HashSet.contains d w.subscriptions && not (HashSet.contains d chs))
unfolding withdraw HashSet.contains
withdraw_all-removed [] w d = ground arith
withdraw_all-removed (ch ∷ chs) w d = ground (
  arith,
  withdraw_all-removed chs (withdraw w ch) d,
  HashSet.contains-remove ch d w.subscriptions,
)

pub length-withdraw_all-le :
    (chs : List String) (w : Withdrawal)
    → length (foldl withdraw w chs).subscriptions ≤ length w.subscriptions
unfolding withdraw
length-withdraw_all-le [] w = omega arith
length-withdraw_all-le (ch ∷ chs) w =
    ground (
      arith,
      length-withdraw_all-le chs (withdraw w ch),
      HashSet.length-remove-le ch w.subscriptions,
    )
