-- ===== src/Registry/Order.antt =====
-- The order in which the maps and the sets of src/registry.rs list what they hold. Rust leaves it
-- open, and it may differ between two runs; here two registries are compared that may differ in it.
use ws_fanout.Prelude.{
  ℕ, suc, ◌+◌, ◌-◌, ◌*◌, ◌%◌, ◌≤◌, ◌<◌, ◌≡◌, ◌≢◌, ◌↔◌, refl, Bool, true, false, ◌||◌, ◌&&◌, not,
  Option, none, some, String, List, [], ◌∷◌, ◌++◌, map, foldl, arith, Eq, ◌==◌, leb, ltb,
  if◌then◌else◌, length, is_empty, All, Bool-cases, Option-cases, inl, inr, ◌⊎◌, ◌∙◌, ap, sym,
  nat_eq, string_eq, wrapping_add, wrapping_sub, u64_mod, wrapping_add_exact, wrapping_add-lt,
  ==_refl, ==_iff, ==_comm, Result, ok, err, Result-cases, filter_b, filter_b-All, All-filter_b,
  partition, Bool-ext, All-append, length-append, length-map,
}
use ws_fanout.Collections.HashMap
use ws_fanout.Collections.HashMap.{HashMap, keys}
use ws_fanout.Collections.HashSet
use ws_fanout.Collections.HashSet.{HashSet}
use ws_fanout.Collections.Keys.{contains-keys, keys-Distinct}
use ws_fanout.Registry.{Registry, Connection, ConnectionId}
use ws_fanout.Registry.Counts.{counts, counts-congr, counts-same, counts-length}
use ws_fanout.Registry.Index.{subscribed, linked, members, linked-members, members-Distinct}
use ws_fanout.Registry.Invariant.{IsValid}
pub mod Loops
pub mod Entries
pub mod Tally
pub mod Metrics
pub mod Runs

-- Two sets with the same members.
abbrev pub SameMembers {ℓ} : {A : Type ℓ} ⦃e : Eq A⦄ → HashSet A → HashSet A → Type ℓ
SameMembers {A = A} s s' = (a : A) → HashSet.contains a s ≡ HashSet.contains a s'

pub SameMembers-length {ℓ} :
    {A : Type ℓ} ⦃e : Eq A⦄ (s s' : HashSet A)
    → HashSet.Distinct s
    → HashSet.Distinct s'
    → SameMembers s s'
    → length s ≡ length s'
SameMembers-length s s' d d' h =
    sym (counts-length (λ a. true) s (λ a m. refl))
    ∙ counts-same (λ a. true) s s' d d' (λ a. ground (arith, h a))
    ∙ counts-length (λ a. true) s' (λ a m. refl)

module _ {Tx : Type 0} where
  -- Two entries that differ at most in the order of the set.
  pub record Alike (c c' : Connection Tx) : Type 0 where
    pub subject : c.subject ≡ c'.subject
    pub tx : c.tx ≡ c'.tx
    pub dropped : c.dropped ≡ c'.dropped
    pub held : SameMembers c.subscriptions c'.subscriptions

  unfoldable pub AlikeEntry : Option (Connection Tx) → Option (Connection Tx) → Type 0
  AlikeEntry none none = Unit
  AlikeEntry none (some c') = ⊥
  AlikeEntry (some c) none = ⊥
  AlikeEntry (some c) (some c') = Alike c c'

  -- Two registries that hold the same, each in an order of its own. That the indexes list the same
  -- follows, since in a valid registry the connections' sets determine them.
  pub record Similar (r r' : Registry Tx) : Type 0 where
    pub valid : IsValid r
    pub valid' : IsValid r'
    pub ids : r.next_id ≡ r'.next_id
    pub metrics : r.metrics ≡ r'.metrics
    pub entries :
        (k : ConnectionId) → AlikeEntry (HashMap.get k r.connections) (HashMap.get k r'.connections)

  pub Alike-refl : (c : Connection Tx) → Alike c c
  Alike-refl c = record { subject = refl; tx = refl; dropped = refl; held = λ a. refl }

  pub AlikeEntry-refl : (o : Option (Connection Tx)) → AlikeEntry o o
  unfolding AlikeEntry
  AlikeEntry-refl none = tt
  AlikeEntry-refl (some c) = Alike-refl c

  pub AlikeEntry-trans :
      (o p q : Option (Connection Tx)) → AlikeEntry o p → AlikeEntry p q → AlikeEntry o q
  unfolding AlikeEntry
  AlikeEntry-trans none none none h k = tt
  AlikeEntry-trans none none (some e) h k = elim k [ ]
  AlikeEntry-trans none (some d) q h k = elim h [ ]
  AlikeEntry-trans (some c) none q h k = elim h [ ]
  AlikeEntry-trans (some c) (some d) none h k = elim k [ ]
  AlikeEntry-trans (some c) (some d) (some e) h k = record {
    subject = h.subject ∙ k.subject;
    tx = h.tx ∙ k.tx;
    dropped = h.dropped ∙ k.dropped;
    held = λ a. h.held a ∙ k.held a;
  }

  -- What a test of the entry answers, where it answers the same for two that are alike.
  pub on_entry {ℓ} :
      {B : Type ℓ} (b : B) (p : Connection Tx → B) (o o' : Option (Connection Tx))
      → ((c c' : Connection Tx) → Alike c c' → p c ≡ p c')
      → AlikeEntry o o'
      → (elim o [ none ↦ b | some c ↦ p c ]) ≡ (elim o' [ none ↦ b | some c ↦ p c ])
  unfolding AlikeEntry
  on_entry b p none none h k = refl
  on_entry b p none (some c') h k = elim k [ ]
  on_entry b p (some c) none h k = elim k [ ]
  on_entry b p (some c) (some c') h k = h c c' k

  module _ (r r' : Registry Tx) (h : Similar r r') where
    pub subscribed-Similar :
        (id : ConnectionId) (ch : String)
        → subscribed id ch r.connections ≡ subscribed id ch r'.connections
    unfolding subscribed
    subscribed-Similar id ch =
        on_entry false (λ c. HashSet.contains ch c.subscriptions) (HashMap.get id r.connections)
          (HashMap.get id r'.connections) (λ c c' k. k.held ch) (h.entries id)

    pub keys-Similar : SameMembers (keys r.connections) (keys r'.connections)
    keys-Similar id =
        contains-keys id r.connections
        ∙ on_entry false (λ c. true) (HashMap.get id r.connections) (HashMap.get id r'.connections)
            (λ c c' k. refl) (h.entries id)
        ∙ sym (contains-keys id r'.connections)

    pub length-Similar : length r.connections ≡ length r'.connections
    length-Similar =
        sym (length-map r.connections (λ e. e.0))
        ∙ SameMembers-length (keys r.connections) (keys r'.connections)
            (keys-Distinct r.connections h.valid.unique)
            (keys-Distinct r'.connections h.valid'.unique) keys-Similar
        ∙ length-map r'.connections (λ e. e.0)

    pub members-Similar :
        (ch : String) → SameMembers (members ch r.by_channel) (members ch r'.by_channel)
    members-Similar ch id =
        sym (linked-members id ch r.by_channel)
        ∙ h.valid.agree id ch
        ∙ subscribed-Similar id ch
        ∙ sym (h.valid'.agree id ch)
        ∙ linked-members id ch r'.by_channel

    -- As many connections of either pass a test that answers the same for both.
    pub counts-Similar :
        (w w' : ConnectionId → Bool)
        → ((id : ConnectionId) → w id ≡ w' id)
        → counts w (keys r.connections) ≡ counts w' (keys r'.connections)
    counts-Similar w w' e =
        counts-same w (keys r.connections) (keys r'.connections)
          (keys-Distinct r.connections h.valid.unique)
          (keys-Distinct r'.connections h.valid'.unique) (λ id. ground (arith, keys-Similar id))
        ∙ counts-congr w w' (keys r'.connections) (λ id m. e id)
