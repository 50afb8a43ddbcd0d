-- ===== src/Registry/Order/Metrics.antt =====
-- The counters of src/registry.rs after a call, in two registries that differ at most in the order of
-- what they hold.
use ws_fanout.Prelude.{
  ℕ, ◌≡◌, refl, Bool, false, Option, none, some, String, arith, Option-cases, inl, inr, ◌⊎◌, ◌∙◌,
  ap, sym, nat_eq, string_eq,
}
use ws_fanout.Collections.HashMap
use ws_fanout.Collections.HashMap.{keys}
use ws_fanout.Mpsc.{Mpsc}
use ws_fanout.Registry.{Registry, Connection, ConnectionId, add, remove, subscribe, unsubscribe}
use ws_fanout.Registry.Counters.{count_timeout, count_refused}
use ws_fanout.Registry.Counts.{counts}
use ws_fanout.Registry.Deliver.{has_room}
use ws_fanout.Registry.Calls.{
  Call, join, leave, subscribing, unsubscribing, publishing, broadcasting, sending, receiving,
  hanging_up, timing_out, refusing, received, perform,
}
use ws_fanout.Registry.Receiver.{with_tx, receive, hang_up}
use ws_fanout.Registry.Order.{
  Alike, AlikeEntry, Similar, on_entry, subscribed-Similar, counts-Similar,
}
use ws_fanout.Registry.Order.Tally.{
  is_full, queue_test, addressed, send-tallied, publish-tallied, broadcast-tallied,
}

module _ {Tx : Type 0} where
  -- Two entries that are alike are both there or both not.
  pub entry-cases :
      (o o' : Option (Connection Tx))
      → AlikeEntry o o'
      → ((o ≡ none) × (o' ≡ none))
        ⊎ ((c : Connection Tx) × (c' : Connection Tx) × (o ≡ some c) × (o' ≡ some c') × Alike c c')
  unfolding AlikeEntry
  entry-cases none none h = inl (refl, refl)
  entry-cases none (some c') h = elim h [ ]
  entry-cases (some c) none h = elim h [ ]
  entry-cases (some c) (some c') h = inr (c, c', refl, refl, h)

  remove-metrics :
      (r r' : Registry Tx) (id : ConnectionId)
      → Similar r r'
      → (remove r id).metrics ≡ (remove r' id).metrics
  unfolding remove
  remove-metrics r r' id h =
      elim (entry-cases (HashMap.get id r.connections) (HashMap.get id r'.connections)
        (h.entries id)) [
          | inl (e, e') ↦ ground (arith, e, e', h.metrics)
          | inr (c, c', e, e', k) ↦ ground (arith, e, e', h.metrics)
        ]

module _ {Tx : Type 0} ⦃mpsc : Mpsc Tx⦄ where
  received-metrics : (r : Registry Tx) (id : ConnectionId) → (received r id).metrics ≡ r.metrics
  unfolding received receive with_tx
  received-metrics r id = elim (Option-cases (HashMap.get id r.connections)) [
    | inl e ↦ ground (arith, e)
    | inr (c, e) ↦ elim (Option-cases (mpsc.recv c.tx)) [
      | inl q ↦ ground (arith, e, q)
      | inr ((f, t), q) ↦ ground (arith, e, q)
    ]
  ]

  hang_up-metrics : (r : Registry Tx) (id : ConnectionId) → (hang_up r id).metrics ≡ r.metrics
  unfolding hang_up with_tx
  hang_up-metrics r id = ground arith

  module _ (r r' : Registry Tx) (h : Similar r r') where
    pub queue_test-Similar :
        (p : Tx → Bool) (id : ConnectionId)
        → queue_test p r.connections id ≡ queue_test p r'.connections id
    unfolding queue_test
    queue_test-Similar p id =
        on_entry false (λ c. p c.tx) (HashMap.get id r.connections) (HashMap.get id r'.connections)
          (λ c c' k. ap p k.tx) (h.entries id)

    pub tests-Similar :
        (p : Tx → Bool)
        → counts (queue_test p r.connections) (keys r.connections)
          ≡ counts (queue_test p r'.connections) (keys r'.connections)
    tests-Similar p = counts-Similar r r' h _ _ (queue_test-Similar p)

    pub addressed-Similar :
        (p : Tx → Bool) (ch : String)
        → counts (addressed p r ch) (keys r.connections)
          ≡ counts (addressed p r' ch) (keys r'.connections)
    addressed-Similar p ch =
        counts-Similar r r' h _ _
          (λ id. rw (subscribed-Similar r r' h id ch, queue_test-Similar p id) refl)

    pub perform-metrics :
        (max cap : ℕ) (x : Call) → (perform max cap x r).metrics ≡ (perform max cap x r').metrics
    unfolding perform
    perform-metrics max cap (join subject) = unfold add in ground (arith, h.metrics)
    perform-metrics max cap (leave id) = remove-metrics r r' id h
    perform-metrics max cap (subscribing id chs) = unfold subscribe in ground (arith, h.metrics)
    perform-metrics max cap (unsubscribing id chs) = unfold unsubscribe in ground (arith, h.metrics)
    perform-metrics max cap (publishing ch f) =
        publish-tallied r ch f h.valid
        ∙ rw (addressed-Similar has_room ch, addressed-Similar is_full ch, h.metrics) refl
        ∙ sym (publish-tallied r' ch f h.valid')
    perform-metrics max cap (broadcasting f) =
        broadcast-tallied r f h.valid
        ∙ rw (tests-Similar has_room, tests-Similar is_full, h.metrics) refl
        ∙ sym (broadcast-tallied r' f h.valid')
    perform-metrics max cap (sending id f) =
        send-tallied r id f
        ∙ rw (queue_test-Similar has_room id, queue_test-Similar is_full id, h.metrics) refl
        ∙ sym (send-tallied r' id f)
    perform-metrics max cap (receiving id) =
        received-metrics r id ∙ h.metrics ∙ sym (received-metrics r' id)
    perform-metrics max cap (hanging_up id) =
        hang_up-metrics r id ∙ h.metrics ∙ sym (hang_up-metrics r' id)
    perform-metrics max cap timing_out = unfold count_timeout in ground (arith, h.metrics)
    perform-metrics max cap refusing = unfold count_refused in ground (arith, h.metrics)
