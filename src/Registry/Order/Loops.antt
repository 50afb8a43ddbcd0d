-- ===== src/Registry/Order/Loops.antt =====
-- The loops of `subscribe` and `unsubscribe`, src/registry.rs, on two sets with the same members.
use ws_fanout.Prelude.{ℕ, ◌≡◌, refl, String, List, [], ◌∷◌, foldl, arith, length, nat_eq, string_eq}
use ws_fanout.Collections.HashSet
use ws_fanout.Collections.HashSet.{HashSet}
use ws_fanout.Registry.{Admission, admission, admit, Withdrawal, withdraw}
use ws_fanout.Registry.Order.{SameMembers, SameMembers-length}

pub record SameAdmission (a a' : Admission) : Type 0 where
  pub held : SameMembers a.subscriptions a'.subscriptions
  pub size : length a.subscriptions ≡ length a'.subscriptions
  pub added : a.added ≡ a'.added
  pub over_limit : a.over_limit ≡ a'.over_limit

pub record SameWithdrawal (w w' : Withdrawal) : Type 0 where
  pub held : SameMembers w.subscriptions w'.subscriptions
  pub removed : w.removed ≡ w'.removed

admit-Same :
    (max : ℕ) (a a' : Admission) (ch : String)
    → SameAdmission a a'
    → SameAdmission (admit max a ch) (admit max a' ch)
unfolding admit
admit-Same max a a' ch h = record {
  held = λ d. ground (
    arith,
    h.held d,
    h.held ch,
    h.size,
    HashSet.contains-insert ch d a.subscriptions,
    HashSet.contains-insert ch d a'.subscriptions,
  );
  size = ground (
    arith,
    h.held ch,
    h.size,
    HashSet.length-insert ch a.subscriptions,
    HashSet.length-insert ch a'.subscriptions,
  );
  added = ground (arith, h.held ch, h.size, h.added);
  over_limit = ground (arith, h.held ch, h.size, h.over_limit);
}

pub admit_all-Same :
    (max : ℕ) (chs : List String) (a a' : Admission)
    → SameAdmission a a'
    → SameAdmission (foldl (admit max) a chs) (foldl (admit max) a' chs)
admit_all-Same max [] a a' h = h
admit_all-Same max (ch ∷ chs) a a' h =
    admit_all-Same max chs (admit max a ch) (admit max a' ch) (admit-Same max a a' ch h)

withdraw-Same :
    (w w' : Withdrawal) (ch : String)
    → SameWithdrawal w w'
    → SameWithdrawal (withdraw w ch) (withdraw w' ch)
unfolding withdraw
withdraw-Same w w' ch h = record {
  held = λ d. ground (
    arith,
    h.held d,
    h.held ch,
    HashSet.contains-remove ch d w.subscriptions,
    HashSet.contains-remove ch d w'.subscriptions,
  );
  removed = ground (arith, h.held ch, h.removed);
}

pub withdraw_all-Same :
    (chs : List String) (w w' : Withdrawal)
    → SameWithdrawal w w'
    → SameWithdrawal (foldl withdraw w chs) (foldl withdraw w' chs)
withdraw_all-Same [] w w' h = h
withdraw_all-Same (ch ∷ chs) w w' h =
    withdraw_all-Same chs (withdraw w ch) (withdraw w' ch) (withdraw-Same w w' ch h)

pub admission-Same :
    (s s' : HashSet String)
    → HashSet.Distinct s
    → HashSet.Distinct s'
    → SameMembers s s'
    → SameAdmission (admission s) (admission s')
admission-Same s s' d d' h = record {
  held = h;
  size = SameMembers-length s s' d d' h;
  added = refl;
  over_limit = refl;
}
