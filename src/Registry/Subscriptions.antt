-- ===== src/Registry/Subscriptions.antt =====
-- What `subscribe`, `unsubscribe`, `remove` and `subscribers` of src/registry.rs do to the relation
-- "this connection holds that channel".
use ws_fanout.Prelude.{
  ℕ, ◌+◌, ◌≤◌, ◌≡◌, Bool, true, false, ◌||◌, ◌&&◌, not, none, some, String, List, [], ◌∷◌, foldl,
  arith, ◌==◌, length, All, Option-cases, inl, inr, ◌⊎◌, ◌∙◌, sym, nat_eq, string_eq, ==_refl,
}
use ws_fanout.Collections.HashMap
use ws_fanout.Collections.HashMap.{HashMap, keys}
use ws_fanout.Collections.HashSet
use ws_fanout.Collections.HashSet.{HashSet}
use ws_fanout.Collections.Keys.{keys-Distinct}
use ws_fanout.Registry.{
  Registry, Connection, ConnectionId, admission, admit, withdrawal, withdraw, subscribe,
  unsubscribe, remove, subscribers,
}
use ws_fanout.Registry.Counts.{counts, counts-same, counts-length}
use ws_fanout.Registry.Index.{
  subscribed, subscribed-known, members, linked-members, members-Distinct,
}
use ws_fanout.Registry.Invariant.{
  IsValid, subscribed-insert, subscribed-remove, subscribed-get, subscribed-absent,
}
use ws_fanout.Registry.Loops.{
  admit-All-again, admit_all-seen, Admits, admit_all-Admits, admission-Admits, withdraw_all-removed,
}

module _ {Tx : Type 0} where
  -- Whether the connection holds the channel.
  abbrev pub holds : Registry Tx → ConnectionId → String → Bool
  holds r id ch = subscribed id ch r.connections

  pub subscribe-holds :
      (r : Registry Tx) (id j : ConnectionId) (chs : List String) (max : ℕ) (d : String)
      → IsValid r
      → holds (subscribe r id chs max).0 j d
        ≡ (holds r j d || (id == j && HashSet.contains d (subscribe r id chs max).1))
  unfolding subscribe HashSet.contains
  subscribe-holds r id j chs max d v = elim (Option-cases (HashMap.get id r.connections)) [
    | inl e ↦ ground (arith, e)
    | inr (c, e) ↦
        let a = foldl (admit max) (admission c.subscriptions) chs in
        let h : Admits c.subscriptions max a =
          admit_all-Admits c.subscriptions max chs (admission c.subscriptions)
            (admission-Admits c.subscriptions max (v.sets id c e)) in
        ground (
          arith,
          e,
          h.held d,
          subscribed-insert id j d (record c { subscriptions = a.subscriptions }) r.connections,
          subscribed-get id d c r.connections,
        )
  ]

  -- After unsubscribe every connection holds what it held before, less, for the connection of the
  -- call, the channels named.
  pub unsubscribe-holds :
      (r : Registry Tx) (id j : ConnectionId) (chs : List String) (d : String)
      → holds (unsubscribe r id chs).0 j d
        ≡ (holds r j d && not (id == j && HashSet.contains d chs))
  unfolding unsubscribe HashSet.contains
  unsubscribe-holds r id j chs d = elim (Option-cases (HashMap.get id r.connections)) [
    | inl e ↦ ground (arith, e, subscribed-absent id d r.connections)
    | inr (c, e) ↦
        let w = foldl withdraw (withdrawal c.subscriptions) chs in
        ground (
          arith,
          e,
          withdraw_all-removed chs (withdrawal c.subscriptions) d,
          subscribed-insert id j d (record c { subscriptions = w.subscriptions }) r.connections,
          subscribed-get id d c r.connections,
        )
  ]

  pub remove-holds :
      (r : Registry Tx) (id j : ConnectionId) (d : String)
      → holds (remove r id) j d ≡ (holds r j d && not (id == j))
  unfolding remove
  remove-holds r id j d = elim (Option-cases (HashMap.get id r.connections)) [
    | inl e ↦ ground (arith, e, subscribed-absent id d r.connections)
    | inr (c, e) ↦ ground (arith, e, subscribed-remove id j d r.connections)
  ]

  -- In a valid registry, subscribers, which reads the index, is the number of connections that
  -- hold the channel.
  subscribers-counts :
      (r : Registry Tx) (ch : String)
      → IsValid r
      → subscribers r ch ≡ counts (λ id. holds r id ch) (keys r.connections)
  subscribers-counts r ch v =
      members-length
      ∙ sym (
          counts-length (λ id. holds r id ch) ids
            (λ id h. ground (arith, v.agree id ch, linked-members id ch r.by_channel)))
      ∙ counts-same (λ id. holds r id ch) ids (keys r.connections)
          (members-Distinct ch r.by_channel v.tidy) (keys-Distinct r.connections v.unique)
          (λ id. ground (
            arith,
            v.agree id ch,
            linked-members id ch r.by_channel,
            subscribed-known id ch r.connections,
          ))
    where
      ids : HashSet ConnectionId
      ids = members ch r.by_channel

      members-length : subscribers r ch ≡ length (members ch r.by_channel)
      members-length = unfold subscribers members in ground arith

  -- How many channels the connection holds.
  unfoldable pub held : Registry Tx → ConnectionId → ℕ
  held r id = elim (HashMap.get id r.connections) [ none ↦ 0 | some c ↦ length c.subscriptions ]

  module _ (r : Registry Tx) (id : ConnectionId) (chs : List String) (max : ℕ) (v : IsValid r) where
    -- A connection of a valid registry holds after subscribe exactly what it held before and every
    -- channel asked for that is not reported as over the limit.
    pub subscribe-asked :
        (c : Connection Tx) (d : String)
        → HashMap.get id r.connections ≡ some c
        → holds (subscribe r id chs max).0 id d ≡ (
            holds r id d
            || (HashSet.contains d chs && not (HashSet.contains d (subscribe r id chs max).2)))
    unfolding subscribe HashSet.contains
    subscribe-asked c d e =
        let a = foldl (admit max) (admission c.subscriptions) chs in
        let h : Admits c.subscriptions max a =
          admit_all-Admits c.subscriptions max chs (admission c.subscriptions)
            (admission-Admits c.subscriptions max (v.sets id c e)) in
        ground (
          arith,
          e,
          h.held d,
          h.apart d,
          admit_all-seen max chs (admission c.subscriptions) d,
          subscribed-insert id id d (record c { subscriptions = a.subscriptions }) r.connections,
          subscribed-get id d c r.connections,
          ==_refl id,
        )

    -- What was added was not held before.
    pub subscribe-new :
        (d : String) → HashSet.contains d (subscribe r id chs max).1 ≡ true → holds r id d ≡ false
    unfolding subscribe HashSet.contains
    subscribe-new d q = elim (Option-cases (HashMap.get id r.connections)) [
      | inl e ↦ ground (arith, e)
      | inr (c, e) ↦
          let a = foldl (admit max) (admission c.subscriptions) chs in
          let h : Admits c.subscriptions max a =
            admit_all-Admits c.subscriptions max chs (admission c.subscriptions)
              (admission-Admits c.subscriptions max (v.sets id c e)) in
          ground (arith, e, h.new d, subscribed-get id d c r.connections)
    ]

    -- What was added was asked for.
    pub subscribe-added :
        (d : String)
        → HashSet.contains d (subscribe r id chs max).1 ≡ true
        → HashSet.contains d chs ≡ true
    unfolding subscribe HashSet.contains
    subscribe-added d q = elim (Option-cases (HashMap.get id r.connections)) [
      | inl e ↦ ground (arith, e)
      | inr (c, e) ↦
          let a = foldl (admit max) (admission c.subscriptions) chs in
          let h : Admits c.subscriptions max a =
            admit_all-Admits c.subscriptions max chs (admission c.subscriptions)
              (admission-Admits c.subscriptions max (v.sets id c e)) in
          ground (arith, e, h.new d, h.held d, admit_all-seen max chs (admission c.subscriptions) d)
    ]

    -- In a valid registry, to unsubscribe from what a subscribe call has added leaves every
    -- connection holding what it held before the two calls.
    pub unsubscribe-subscribe :
        (j : ConnectionId) (d : String)
        → let (r', added, _) = subscribe r id chs max in
          holds (unsubscribe r' id added).0 j d ≡ holds r j d
    unsubscribe-subscribe j d = ground (
      arith,
      unsubscribe-holds (subscribe r id chs max).0 id j (subscribe r id chs max).1 d,
      subscribe-holds r id j chs max d v,
      subscribe-new d,
    )

    -- For a connection of a valid registry that is within the limit, subscribe leaves it within
    -- the limit, with as many channels more as were added, and either at the limit or with no
    -- channel refused.
    pub subscribe-held :
        (c : Connection Tx)
        → HashMap.get id r.connections ≡ some c
        → length c.subscriptions ≤ max
        → (held (subscribe r id chs max).0 id ≤ max)
          × (held (subscribe r id chs max).0 id ≡ held r id + length (subscribe r id chs max).1)
          × ((held (subscribe r id chs max).0 id ≡ max) ⊎ ((subscribe r id chs max).2 ≡ []))
    unfolding subscribe held
    subscribe-held c e fits =
        let a = foldl (admit max) (admission c.subscriptions) chs in
        let h : Admits c.subscriptions max a =
          admit_all-Admits c.subscriptions max chs (admission c.subscriptions)
            (admission-Admits c.subscriptions max (v.sets id c e)) in
        let at =
          HashMap.get-insert id id (record c { subscriptions = a.subscriptions }) r.connections in
        (
          ground (arith, e, h.room, h.counted, at, ==_refl id),
          ground (arith, e, h.room, h.counted, at, ==_refl id),
          ground (arith, e, h.room, h.refused, h.counted, at, ==_refl id),
        )

All-imp :
    (P Q : String → Type 0) (chs : List String) → ((d : String) → P d → Q d) → All P chs → All Q chs
All-imp P Q [] f h = tt
All-imp P Q (ch ∷ chs) f h = (f ch h.0, All-imp P Q chs f h.1)

module _ {Tx : Type 0} where
  -- To ask for channels that are all held is answered by two empty lists.
  pub subscribe-again :
      (r : Registry Tx) (id : ConnectionId) (chs : List String) (max : ℕ)
      → All (λ d. holds r id d ≡ true) chs
      → ((subscribe r id chs max).1 ≡ []) × ((subscribe r id chs max).2 ≡ [])
  unfolding subscribe
  subscribe-again r id chs max h = elim (Option-cases (HashMap.get id r.connections)) [
    | inl e ↦ (ground (arith, e), ground (arith, e))
    | inr (c, e) ↦
        let same =
          admit-All-again max chs (admission c.subscriptions)
            (All-imp _ _ chs (λ d q. sym (subscribed-get id d c r.connections e) ∙ q) h) in
        (ground (arith, e, same), ground (arith, e, same))
  ]

  -- The entry of the connection after `subscribe`: only its set has changed.
  pub subscribe-entry :
      (r : Registry Tx) (id : ConnectionId) (chs : List String) (max : ℕ) (c : Connection Tx)
      → HashMap.get id r.connections ≡ some c
      → (s : HashSet String) × (HashMap.get id (subscribe r id chs max).0.connections
          ≡ some (record c { subscriptions = s }))
  unfolding subscribe
  subscribe-entry r id chs max c e =
      let a = foldl (admit max) (admission c.subscriptions) chs in
      (
        a.subscriptions,
        ground (
          arith,
          e,
          HashMap.get-insert id id (record c { subscriptions = a.subscriptions }) r.connections,
          ==_refl id,
        ),
      )
