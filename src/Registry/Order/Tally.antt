-- ===== src/Registry/Order/Tally.antt =====
-- What `publish` and `broadcast` of src/registry.rs return and count, as numbers of connections, which
-- do not depend on the order of the deliveries.
use ws_fanout.Prelude.{
  ℕ, zero, suc, ◌≡◌, refl, Bool, true, false, ◌&&◌, none, some, String, List, [], ◌∷◌, arith, ◌==◌,
  if◌then◌else◌, Option-cases, inl, inr, ◌∙◌, nat_eq, string_eq, wrapping_add, ==_refl,
}
use ws_fanout.Collections.HashMap
use ws_fanout.Collections.HashMap.{HashMap, keys}
use ws_fanout.Collections.HashSet
use ws_fanout.Collections.HashSet.{HashSet}
use ws_fanout.Collections.Keys.{contains-keys, keys-Distinct}
use ws_fanout.Protocol.{Frame}
use ws_fanout.Mpsc.{Mpsc, full}
use ws_fanout.Registry.{Registry, Connection, ConnectionId, Metrics}
use ws_fanout.Registry.Counts.{counts, counts-congr, counts-same}
use ws_fanout.Registry.Deliver.{verdict, has_room, send-get, deliver-received, try_send-verdict}
use ws_fanout.Registry.Deliveries.{deliver, send, publish, publish_loop, broadcast, broadcast_loop}
use ws_fanout.Registry.Index.{
  subscribed, subscribed-known, members, linked-members, members-Distinct,
}
use ws_fanout.Registry.Invariant.{IsValid}
use ws_fanout.Registry.Publish.{publish-members}

-- A counter that has been counted up so many times.
unfoldable pub bump : ℕ → ℕ → ℕ
bump zero n = n
bump (suc times) n = bump times (wrapping_add n 1)

-- The counters after so many frames that were queued, and so many that were dropped.
unfoldable pub tallied : ℕ → ℕ → Metrics → Metrics
unfolding bump
tallied queued spilt m = record m {
  frames_sent = bump queued m.frames_sent;
  frames_dropped = bump spilt m.frames_dropped;
}

tallied-add :
    (a b : Bool) (n k : ℕ) (m : Metrics)
    → tallied n k (tallied (if a then 1 else 0) (if b then 1 else 0) m)
      ≡ tallied (if a then suc n else n) (if b then suc k else k) m
unfolding tallied bump
tallied-add true true n k m = refl
tallied-add true false n k m = refl
tallied-add false true n k m = refl
tallied-add false false n k m = refl

module _ {Tx : Type 0} ⦃mpsc : Mpsc Tx⦄ where
  -- Whether a frame for the queue would be dropped, the queue being full.
  unfoldable pub is_full : Tx → Bool
  unfolding verdict
  is_full t = elim (verdict t) [ full ↦ true | _ ↦ false ]

  -- Whether the queue of the connection passes a test.
  unfoldable pub queue_test :
      (Tx → Bool) → HashMap ConnectionId (Connection Tx) → ConnectionId → Bool
  queue_test p conns id = elim (HashMap.get id conns) [ none ↦ false | some c ↦ p c.tx ]

  deliver-tallied :
      (m : Metrics) (c : Connection Tx) (f : Frame)
      → (deliver m c f).metrics
        ≡ tallied (if has_room c.tx then 1 else 0) (if is_full c.tx then 1 else 0) m
  unfolding deliver tallied bump has_room is_full
  deliver-tallied m c f = ground (arith, try_send-verdict c.tx f)

  pub send-tallied :
      (r : Registry Tx) (id : ConnectionId) (f : Frame)
      → (send r id f).0.metrics
        ≡ tallied
            (if queue_test has_room r.connections id then 1 else 0)
            (if queue_test is_full r.connections id then 1 else 0)
            r.metrics
  unfolding send queue_test
  send-tallied r id f = elim (Option-cases (HashMap.get id r.connections)) [
    | inl e ↦ rw (e, send, queue_test) (unfold tallied bump in refl)
    | inr (c, e) ↦ rw (e, send, queue_test) (deliver-tallied r.metrics c f)
  ]

  -- A delivery to another connection changes nothing in the test.
  queue_test-send :
      (p : Tx → Bool) (r : Registry Tx) (id j : ConnectionId) (f : Frame)
      → (id == j) ≡ false
      → queue_test p (send r id f).0.connections j ≡ queue_test p r.connections j
  unfolding queue_test
  queue_test-send p r id j f h = ground (arith, send-get r id j f)

  publish_loop-tallied :
      (f : Frame) (ids : List ConnectionId) (r : Registry Tx)
      → HashSet.Distinct ids
      → (publish_loop f ids r).0.metrics
        ≡ tallied
            (counts (queue_test has_room r.connections) ids)
            (counts (queue_test is_full r.connections) ids)
            r.metrics
  unfolding publish_loop counts HashSet.contains
  publish_loop-tallied f [] r d = unfold tallied bump in refl
  publish_loop-tallied f (id ∷ ids) r d =
      let others : (p : Tx → Bool)
          → counts (queue_test p (send r id f).0.connections) ids
            ≡ counts (queue_test p r.connections) ids =
        λ p.
          counts-congr (queue_test p (send r id f).0.connections) (queue_test p r.connections) ids
            (λ j h. queue_test-send p r id j f (ground (arith, d.0, h))) in
      publish_loop-tallied f ids (send r id f).0 d.1
      ∙ rw (others has_room, others is_full, send-tallied r id f)
          (tallied-add (queue_test has_room r.connections id) (queue_test is_full r.connections id)
            (counts (queue_test has_room r.connections) ids)
            (counts (queue_test is_full r.connections) ids) r.metrics)

  -- Whether the connection holds the channel and its queue passes the test.
  abbrev pub addressed : (Tx → Bool) → Registry Tx → String → ConnectionId → Bool
  addressed p r ch id = subscribed id ch r.connections && queue_test p r.connections id

  counts-members :
      (p : Tx → Bool) (r : Registry Tx) (ch : String)
      → IsValid r
      → counts (queue_test p r.connections) (members ch r.by_channel)
        ≡ counts (addressed p r ch) (keys r.connections)
  counts-members p r ch v =
      let ids = members ch r.by_channel in
      counts-congr (queue_test p r.connections) (addressed p r ch) ids
        (λ id h. ground (arith, v.agree id ch, linked-members id ch r.by_channel, h))
      ∙ counts-same (addressed p r ch) ids (keys r.connections)
          (members-Distinct ch r.by_channel v.tidy) (keys-Distinct r.connections v.unique)
          (λ id. ground (
            arith,
            v.agree id ch,
            linked-members id ch r.by_channel,
            subscribed-known id ch r.connections,
          ))

  pub publish-tallied :
      (r : Registry Tx) (ch : String) (f : Frame)
      → IsValid r
      → (publish r ch f).0.metrics
        ≡ tallied
            (counts (addressed has_room r ch) (keys r.connections))
            (counts (addressed is_full r ch) (keys r.connections))
            r.metrics
  publish-tallied r ch f v = rw (publish-members r ch f) (
      publish_loop-tallied f (members ch r.by_channel) r (members-Distinct ch r.by_channel v.tidy)
      ∙ rw (counts-members has_room r ch v, counts-members is_full r ch v) refl)

  -- The other connections of a map, seen without its first entry.
  counts-rest :
      (p : Tx → Bool) (id : ConnectionId) (c : Connection Tx)
      (m : HashMap ConnectionId (Connection Tx))
      → HashMap.get id m ≡ none
      → counts (queue_test p ((id, c) ∷ m)) (keys m) ≡ counts (queue_test p m) (keys m)
  unfolding queue_test HashMap.get
  counts-rest p id c m h =
      counts-congr (queue_test p ((id, c) ∷ m)) (queue_test p m) (keys m)
        (λ j q. ground (arith, h, q, contains-keys j m))

  broadcast_loop-counts :
      (f : Frame) (m : HashMap ConnectionId (Connection Tx)) (k : Metrics)
      → HashMap.Distinct m
      → (broadcast_loop f m k).2 ≡ counts (queue_test has_room m) (keys m)
  unfolding broadcast_loop counts queue_test HashMap.get
  broadcast_loop-counts f [] k d = refl
  broadcast_loop-counts f ((id, c) ∷ m) k d = ground (
    arith,
    broadcast_loop-counts f m (deliver k c f).metrics d.1,
    deliver-received k c f,
    counts-rest has_room id c m d.0,
    ==_refl id,
  )

  broadcast_loop-tallied :
      (f : Frame) (m : HashMap ConnectionId (Connection Tx)) (k : Metrics)
      → HashMap.Distinct m
      → (broadcast_loop f m k).1
        ≡ tallied
            (counts (queue_test has_room m) (keys m))
            (counts (queue_test is_full m) (keys m))
            k
  unfolding broadcast_loop counts
  broadcast_loop-tallied f [] k d = unfold tallied bump in refl
  broadcast_loop-tallied f ((id, c) ∷ m) k d =
      let here : (p : Tx → Bool) → queue_test p ((id, c) ∷ m) id ≡ p c.tx =
        λ p. unfold queue_test HashMap.get in ground (arith, ==_refl id) in
      broadcast_loop-tallied f m (deliver k c f).metrics d.1
      ∙ rw
          (
            deliver-tallied k c f,
            counts-rest has_room id c m d.0,
            counts-rest is_full id c m d.0,
            here has_room,
            here is_full,
          )
          (tallied-add (has_room c.tx) (is_full c.tx) (counts (queue_test has_room m) (keys m))
            (counts (queue_test is_full m) (keys m)) k)

  pub broadcast-counts :
      (r : Registry Tx) (f : Frame)
      → IsValid r
      → (broadcast r f).1 ≡ counts (queue_test has_room r.connections) (keys r.connections)
  unfolding broadcast
  broadcast-counts r f v = broadcast_loop-counts f r.connections r.metrics v.unique

  pub broadcast-tallied :
      (r : Registry Tx) (f : Frame)
      → IsValid r
      → (broadcast r f).0.metrics
        ≡ tallied
            (counts (queue_test has_room r.connections) (keys r.connections))
            (counts (queue_test is_full r.connections) (keys r.connections))
            r.metrics
  unfolding broadcast
  broadcast-tallied r f v = broadcast_loop-tallied f r.connections r.metrics v.unique
