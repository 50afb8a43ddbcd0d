-- ===== src/Registry/Keeps.antt =====
-- What `send`, `publish` and `broadcast` of src/registry.rs, and the two counters that src/server.rs
-- counts up, leave as it was.
use ws_fanout.Prelude.{
  ◌≡◌, refl, Option, none, some, String, List, [], ◌∷◌, arith, length, Option-cases, inl, inr, ◌∙◌,
  ap, sym, nat_eq, string_eq,
}
use mathlib.Core.Option
use mathlib.Core.Path.{subst}
use ws_fanout.Registry.Counters.{count_timeout, count_refused}
use ws_fanout.Collections.HashMap
use ws_fanout.Collections.HashMap.{HashMap, keys}
use ws_fanout.Collections.HashSet
use ws_fanout.Collections.HashSet.{HashSet}
use ws_fanout.Protocol.{Frame}
use ws_fanout.Mpsc.{Mpsc}
use ws_fanout.Registry.{Inner, Registry, Connection, ConnectionId, Metrics}
use ws_fanout.Registry.Deliveries.{deliver, send, publish, publish_loop, broadcast, broadcast_loop}
use ws_fanout.Registry.Deliver.{after_delivery, deliver-connection}
use ws_fanout.Registry.Queues.{deliver-fixed}
use ws_fanout.Registry.Index.{subscribed}
use ws_fanout.Registry.Invariant.{IsValid}

module _ {Tx : Type 0} where
  -- The set of a connection, if it is there.
  unfoldable pub set_of :
      ConnectionId → HashMap ConnectionId (Connection Tx) → Option (HashSet String)
  set_of id m = elim (HashMap.get id m) [ none ↦ none | some c ↦ some c.subscriptions ]

  -- What no delivery touches.
  pub record Keeps (r r' : Registry Tx) : Type 0 where
    pub index : r'.by_channel ≡ r.by_channel
    pub ids : r'.next_id ≡ r.next_id
    pub active : r'.metrics.connections_active ≡ r.metrics.connections_active
    pub size : length r'.connections ≡ length r.connections
    pub unique : HashMap.Distinct r.connections → HashMap.Distinct r'.connections
    pub sets : (j : ConnectionId) → set_of j r'.connections ≡ set_of j r.connections

  pub Keeps-refl : (r : Registry Tx) → Keeps r r
  Keeps-refl r = record {
    index = refl;
    ids = refl;
    active = refl;
    size = refl;
    unique = λ d. d;
    sets = λ j. refl;
  }

  pub Keeps-trans : (r s t : Registry Tx) → Keeps r s → Keeps s t → Keeps r t
  Keeps-trans r s t h k = record {
    index = k.index ∙ h.index;
    ids = k.ids ∙ h.ids;
    active = k.active ∙ h.active;
    size = k.size ∙ h.size;
    unique = λ d. k.unique (h.unique d);
    sets = λ j. k.sets j ∙ h.sets j;
  }

  pub Keeps-IsValid : (r r' : Registry Tx) → Keeps r r' → IsValid r → IsValid r'
  unfolding set_of subscribed
  Keeps-IsValid r r' k v = record {
    agree = λ id ch. rw k.index (ground (arith, v.agree id ch, k.sets id));
    tidy = rw k.index v.tidy;
    sets = λ id c e. ground (arith, k.sets id, known id c.subscriptions);
    unique = k.unique v.unique;
    fresh = λ id h. ground (arith, k.sets id, v.fresh id, k.ids);
    counted = ground (arith, v.counted, k.active, k.size);
  }
    where
      known :
          (id : ConnectionId) (s : HashSet String)
          → set_of id r.connections ≡ some s
          → HashSet.Distinct s
      known id s e = elim (Option-cases (HashMap.get id r.connections)) [
        | inl q ↦ absurd (ground (arith, q, e))
        | inr (c, q) ↦ ground (arith, q, e, v.sets id c)
      ]

  pub Keeps-holds :
      (r s : Registry Tx) (j : ConnectionId) (d : String)
      → Keeps r s
      → subscribed j d s.connections ≡ subscribed j d r.connections
  unfolding set_of subscribed
  Keeps-holds r s j d k = ground (arith, k.sets j)

  -- Only a counter other than `connections_active` has changed.
  same_index :
      (r s : Registry Tx)
      → s.inner ≡ r.inner
      → s.next_id ≡ r.next_id
      → s.metrics.connections_active ≡ r.metrics.connections_active
      → Keeps r s
  same_index r s i n a = record {
    index = ap (λ (x : Inner Tx). x.by_channel) i;
    ids = n;
    active = a;
    size = ap (λ (x : Inner Tx). length x.connections) i;
    unique = λ d. subst (λ (x : Inner Tx). HashMap.Distinct x.connections) (sym i) d;
    sets = λ j. ap (λ (x : Inner Tx). set_of j x.connections) i;
  }

  pub count_timeout-Keeps : (r : Registry Tx) → Keeps r (count_timeout r)
  unfolding count_timeout
  count_timeout-Keeps r = same_index r (count_timeout r) refl refl refl

  pub count_refused-Keeps : (r : Registry Tx) → Keeps r (count_refused r)
  unfolding count_refused
  count_refused-Keeps r = same_index r (count_refused r) refl refl refl

module _ {Tx : Type 0} ⦃mpsc : Mpsc Tx⦄ where
  deliver-active :
      (m : Metrics) (c : Connection Tx) (f : Frame)
      → (deliver m c f).metrics.connections_active ≡ m.connections_active
  unfolding deliver
  deliver-active m c f = ground arith

  pub send-Keeps : (r : Registry Tx) (id : ConnectionId) (f : Frame) → Keeps r (send r id f).0
  unfolding send set_of
  send-Keeps r id f = elim (Option-cases (HashMap.get id r.connections)) [
    | inl e ↦ rw (e, send) (Keeps-refl r)
    | inr (c, e) ↦
        let c' = (deliver r.metrics c f).connection in
        rw (e, send)
          (record {
            index = refl;
            ids = refl;
            active = deliver-active r.metrics c f;
            size = HashMap.length-insert_old id c' c r.connections e;
            unique = HashMap.insert-Distinct id c' r.connections;
            sets = λ j. ground (
              arith,
              e,
              HashMap.get-insert id j c' r.connections,
              deliver-connection r.metrics c f,
              deliver-fixed c f,
            );
          })
  ]

  publish_loop-Keeps :
      (f : Frame) (ids : List ConnectionId) (r : Registry Tx) → Keeps r (publish_loop f ids r).0
  unfolding publish_loop
  publish_loop-Keeps f [] r = Keeps-refl r
  publish_loop-Keeps f (id ∷ ids) r =
      Keeps-trans r (send r id f).0 (publish_loop f ids (send r id f).0).0 (send-Keeps r id f)
        (publish_loop-Keeps f ids (send r id f).0)

  pub publish-Keeps : (r : Registry Tx) (ch : String) (f : Frame) → Keeps r (publish r ch f).0
  unfolding publish
  publish-Keeps r ch f = elim (Option-cases (HashMap.get ch r.by_channel)) [
    | inl e ↦ rw (e, publish) (Keeps-refl r)
    | inr (ids, e) ↦ rw (e, publish) (publish_loop-Keeps f ids r)
  ]

  -- The loop of broadcast makes exactly one delivery to every connection, and adds and removes
  -- none.
  pub broadcast_loop-get :
      (f : Frame) (m : HashMap ConnectionId (Connection Tx)) (k : Metrics) (j : ConnectionId)
      → HashMap.get j (broadcast_loop f m k).0 ≡ Option.map (after_delivery f) (HashMap.get j m)
  unfolding broadcast_loop HashMap.get
  broadcast_loop-get f [] k j = refl
  broadcast_loop-get f ((id, c) ∷ m) k j =
      ground (arith, broadcast_loop-get f m (deliver k c f).metrics j, deliver-connection k c f)

  broadcast_loop-length :
      (f : Frame) (m : HashMap ConnectionId (Connection Tx)) (k : Metrics)
      → length (broadcast_loop f m k).0 ≡ length m
  unfolding broadcast_loop
  broadcast_loop-length f [] k = refl
  broadcast_loop-length f ((id, c) ∷ m) k =
      ground (arith, broadcast_loop-length f m (deliver k c f).metrics)

  broadcast_loop-active :
      (f : Frame) (m : HashMap ConnectionId (Connection Tx)) (k : Metrics)
      → (broadcast_loop f m k).1.connections_active ≡ k.connections_active
  unfolding broadcast_loop
  broadcast_loop-active f [] k = refl
  broadcast_loop-active f ((id, c) ∷ m) k =
      ground (arith, broadcast_loop-active f m (deliver k c f).metrics, deliver-active k c f)

  broadcast_loop-Distinct :
      (f : Frame) (m : HashMap ConnectionId (Connection Tx)) (k : Metrics)
      → HashMap.Distinct m
      → HashMap.Distinct (broadcast_loop f m k).0
  unfolding broadcast_loop
  broadcast_loop-Distinct f [] k d = tt
  broadcast_loop-Distinct f ((id, c) ∷ m) k d = ground (
    arith,
    broadcast_loop-get f m (deliver k c f).metrics id,
    broadcast_loop-Distinct f m (deliver k c f).metrics,
  )

  pub broadcast-Keeps : (r : Registry Tx) (f : Frame) → Keeps r (broadcast r f).0
  unfolding broadcast set_of
  broadcast-Keeps r f = record {
    index = refl;
    ids = refl;
    active = broadcast_loop-active f r.connections r.metrics;
    size = broadcast_loop-length f r.connections r.metrics;
    unique = broadcast_loop-Distinct f r.connections r.metrics;
    sets = λ j. elim (Option-cases (HashMap.get j r.connections)) [
      | inl e ↦ ground (arith, e, broadcast_loop-get f r.connections r.metrics j)
      | inr (c, e) ↦
          ground (arith, e, broadcast_loop-get f r.connections r.metrics j, deliver-fixed c f)
    ];
  }
