-- ===== src/Registry/Invariant.antt =====
-- The well-formedness of src/registry.rs's registry between two calls, for the calls that change
-- connections or subscriptions.
use ws_fanout.Prelude.{
  ℕ, ◌+◌, ◌%◌, ◌≤◌, ◌<◌, ◌≡◌, refl, false, none, some, String, List, arith, ◌==◌, if◌then◌else◌,
  nat_eq, string_eq, Option-cases, inl, inr, length, foldl, u64_mod, wrapping_add, wrapping_sub,
}
use ws_fanout.Collections.HashMap
use ws_fanout.Collections.HashMap.{HashMap}
use ws_fanout.Collections.HashSet
use ws_fanout.Collections.HashSet.{HashSet}
use ws_fanout.Registry.{
  Registry, Connection, ConnectionId, admit, withdraw, new, no_metrics, joined, admission,
  withdrawal, add, remove, subscribe, unsubscribe, link, unlink,
}
use ws_fanout.Registry.Index.{
  Index, IsTidy, linked, subscribed, linked-link_all, linked-unlink_all, link_all-IsTidy,
  unlink_all-IsTidy,
}
use ws_fanout.Registry.Loops.{
  Admits, admission-Admits, withdrawal-Withdraws, admit_all-Admits, Withdraws,
  withdraw_all-Withdraws,
}

pub record IsValid {Tx : Type 0} (r : Registry Tx) : Type 0 where
  -- The index and the connections' sets say the same.
  pub agree :
      (id : ConnectionId) (ch : String) → linked id ch r.by_channel ≡ subscribed id ch r.connections
  pub tidy : IsTidy r.by_channel
  pub sets :
      (id : ConnectionId) (c : Connection Tx)
      → HashMap.get id r.connections ≡ some c
      → HashSet.Distinct c.subscriptions
  pub unique : HashMap.Distinct r.connections
  -- Ids from `next_id` on are unused.
  pub fresh : (id : ConnectionId) → r.next_id ≤ id → HashMap.get id r.connections ≡ none
  pub counted : r.metrics.connections_active ≡ length r.connections % u64_mod

module _ {Tx : Type 0} where
  pub new-IsValid : IsValid (new {Tx = Tx} no_metrics)
  unfolding new linked subscribed HashMap.get
  new-IsValid = record {
    agree = λ id ch. refl;
    tidy = record { no_empty = λ ch e. ground arith; distinct = λ ch s e. ground arith };
    sets = λ id c e. ground arith;
    unique = tt;
    fresh = λ id h. refl;
    counted = refl;
  }

  -- The connections of a registry after one entry has been written.
  pub subscribed-insert :
      (id j : ConnectionId) (d : String) (c : Connection Tx)
      (m : HashMap ConnectionId (Connection Tx))
      → subscribed j d (HashMap.insert id c m)
        ≡ (if id == j then HashSet.contains d c.subscriptions else subscribed j d m)
  unfolding subscribed
  subscribed-insert id j d c m = ground (arith, HashMap.get-insert id j c m)

  pub subscribed-remove :
      (id j : ConnectionId) (d : String) (m : HashMap ConnectionId (Connection Tx))
      → subscribed j d (HashMap.remove id m) ≡ (if id == j then false else subscribed j d m)
  unfolding subscribed
  subscribed-remove id j d m = ground (arith, HashMap.get-remove id j m)

  pub subscribed-get :
      (id : ConnectionId) (d : String) (c : Connection Tx)
      (m : HashMap ConnectionId (Connection Tx))
      → HashMap.get id m ≡ some c
      → subscribed id d m ≡ HashSet.contains d c.subscriptions
  unfolding subscribed
  subscribed-get id d c m e = rw (e, subscribed)

  pub subscribed-absent :
      (id : ConnectionId) (d : String) (m : HashMap ConnectionId (Connection Tx))
      → HashMap.get id m ≡ none
      → subscribed id d m ≡ false
  unfolding subscribed
  subscribed-absent id d m e = rw (e, subscribed)

  pub add-IsValid :
      (r : Registry Tx) (subject : String) (tx : Tx)
      → r.next_id + 1 < u64_mod
      → IsValid r
      → IsValid (add r subject tx).0
  unfolding add wrapping_add HashSet.contains
  add-IsValid r subject tx room v = record {
    agree = λ j d. ground (
      arith,
      v.agree j d,
      subscribed-insert r.next_id j d c r.connections,
      subscribed-absent r.next_id d r.connections,
      v.fresh r.next_id,
    );
    tidy = v.tidy;
    sets = λ j c' e. ground (arith, HashMap.get-insert r.next_id j c r.connections, v.sets j c');
    unique = HashMap.insert-Distinct r.next_id c r.connections v.unique;
    fresh = λ j h. ground (arith, HashMap.get-insert r.next_id j c r.connections, v.fresh j);
    counted =
        ground (
          arith,
          v.counted,
          HashMap.length-insert_new r.next_id c r.connections,
          v.fresh r.next_id,
        );
  }
    where
      c : Connection Tx
      c = joined subject tx

  remove_known-IsValid :
      (r : Registry Tx) (id : ConnectionId) (c : Connection Tx)
      → HashMap.get id r.connections ≡ some c
      → IsValid r
      → IsValid (remove r id)
  unfolding remove wrapping_sub
  remove_known-IsValid r id c e v =
      rw (e, remove)
        (record {
          agree = λ j d. ground (
            arith,
            v.agree j d,
            linked-unlink_all id j d c.subscriptions r.by_channel,
            subscribed-remove id j d r.connections,
            subscribed-get id d c r.connections,
          );
          tidy = unlink_all-IsTidy id c.subscriptions r.by_channel v.tidy;
          sets = λ j c' e. ground (arith, HashMap.get-remove id j r.connections, v.sets j c');
          unique = HashMap.remove-Distinct id r.connections v.unique;
          fresh = λ j h. ground (arith, HashMap.get-remove id j r.connections, v.fresh j);
          counted = ground (arith, v.counted, HashMap.length-remove id c r.connections v.unique e);
        })

  pub remove-IsValid : (r : Registry Tx) (id : ConnectionId) → IsValid r → IsValid (remove r id)
  unfolding remove
  remove-IsValid r id v = elim (Option-cases (HashMap.get id r.connections)) [
    | inl e ↦ rw (e, remove) v
    | inr (c, e) ↦ remove_known-IsValid r id c e v
  ]

  -- One connection's set and the index change together.
  resubscribe-IsValid :
      (r : Registry Tx) (id : ConnectionId) (c : Connection Tx) (s : HashSet String) (index : Index)
      → HashMap.get id r.connections ≡ some c
      → HashSet.Distinct s
      → IsTidy index
      → ((j : ConnectionId) (d : String)
          → linked j d index ≡ (if id == j then HashSet.contains d s else linked j d r.by_channel))
      → IsValid r
      → IsValid (record r {
        inner = record {
          connections = HashMap.insert id (record c { subscriptions = s }) r.connections;
          by_channel = index;
        };
      })
  resubscribe-IsValid r id c s index e ds t same v = record {
    agree = λ j d. ground (arith, v.agree j d, same j d, subscribed-insert id j d c' r.connections);
    tidy = t;
    sets = λ j c'' q. ground (arith, HashMap.get-insert id j c' r.connections, v.sets j c'');
    unique = HashMap.insert-Distinct id c' r.connections v.unique;
    fresh = λ j h. ground (arith, HashMap.get-insert id j c' r.connections, v.fresh j);
    counted = ground (arith, v.counted, HashMap.length-insert_old id c' c r.connections e);
  }
    where
      c' : Connection Tx
      c' = record c { subscriptions = s }

  pub subscribe-IsValid :
      (r : Registry Tx) (id : ConnectionId) (chs : List String) (max : ℕ)
      → IsValid r
      → IsValid (subscribe r id chs max).0
  unfolding subscribe
  subscribe-IsValid r id chs max v = elim (Option-cases (HashMap.get id r.connections)) [
    | inl e ↦ rw (e, subscribe) v
    | inr (c, e) ↦
        let a = foldl (admit max) (admission c.subscriptions) chs in
        let h : Admits c.subscriptions max a =
          admit_all-Admits c.subscriptions max chs (admission c.subscriptions)
            (admission-Admits c.subscriptions max (v.sets id c e)) in
        rw (e, subscribe)
          (resubscribe-IsValid r id c a.subscriptions (foldl (link id) r.by_channel a.added) e
            h.distinct (link_all-IsTidy id a.added r.by_channel v.tidy)
            (λ j d. ground (
              arith,
              linked-link_all id j d a.added r.by_channel,
              h.held d,
              v.agree id d,
              subscribed-get id d c r.connections,
            ))
            v)
  ]

  pub unsubscribe-IsValid :
      (r : Registry Tx) (id : ConnectionId) (chs : List String)
      → IsValid r
      → IsValid (unsubscribe r id chs).0
  unfolding unsubscribe
  unsubscribe-IsValid r id chs v = elim (Option-cases (HashMap.get id r.connections)) [
    | inl e ↦ rw (e, unsubscribe) v
    | inr (c, e) ↦
        let w = foldl withdraw (withdrawal c.subscriptions) chs in
        let h : Withdraws c.subscriptions w =
          withdraw_all-Withdraws c.subscriptions chs (withdrawal c.subscriptions)
            (withdrawal-Withdraws c.subscriptions (v.sets id c e)) in
        rw (e, unsubscribe)
          (resubscribe-IsValid r id c w.subscriptions (foldl (unlink id) r.by_channel w.removed) e
            h.distinct (unlink_all-IsTidy id w.removed r.by_channel v.tidy)
            (λ j d. ground (
              arith,
              linked-unlink_all id j d w.removed r.by_channel,
              h.left d,
              v.agree id d,
              subscribed-get id d c r.connections,
            ))
            v)
  ]
