-- ===== src/Registry/Calls/Entries.antt =====
-- One call on the registry of src/registry.rs, seen from each connection's entry.
use ws_fanout.Prelude.{
  ℕ, ◌+◌, ◌<◌, u64_mod, ◌≡◌, refl, none, some, foldl, arith, ◌==◌, if◌then◌else◌, Option-cases, inl,
  inr, nat_eq, string_eq,
}
use mathlib.Core.Option
use ws_fanout.Collections.HashMap
use ws_fanout.Collections.HashMap.{HashMap}
use ws_fanout.Mpsc.{Mpsc}
use ws_fanout.Registry.{
  Connection, Registry, ConnectionId, joined, admit, admission, withdraw, withdrawal, add, remove,
  subscribe, unsubscribe,
}
use ws_fanout.Registry.Counters.{count_timeout, count_refused}
use ws_fanout.Registry.Deliver.{send-get}
use ws_fanout.Registry.Deliveries.{broadcast}
use ws_fanout.Registry.Index.{subscribed}
use ws_fanout.Registry.Invariant.{
  IsValid, add-IsValid, remove-IsValid, subscribe-IsValid, unsubscribe-IsValid,
}
use ws_fanout.Registry.Keeps.{
  Keeps, Keeps-refl, Keeps-IsValid, send-Keeps, publish-Keeps, broadcast-Keeps, broadcast_loop-get,
  count_timeout-Keeps, count_refused-Keeps,
}
use ws_fanout.Registry.Publish.{publish-get}
use ws_fanout.Registry.Reach.{
  Step, Step-IsValid, joins, leaves, subscribes, unsubscribes, publishes, broadcasts, sends,
  receives, hangs_up, times_out, refuses,
}
use ws_fanout.Registry.Receiver.{with_tx, receive, hang_up}
use ws_fanout.Registry.Receiver.Keeps.{with_tx-Keeps, hang_up-Keeps}
use ws_fanout.Registry.Calls.{
  Call, join, leave, subscribing, unsubscribing, publishing, broadcasting, sending, receiving,
  hanging_up, timing_out, refusing, received, drained, perform, ids_after, entry_after,
}

-- A call that writes the entry of one connection over, if it is there.
written-get :
    {Tx : Type 0} (g : Connection Tx → Connection Tx) (r s : Registry Tx) (id k : ConnectionId)
    → (HashMap.get id r.connections ≡ none → s.connections ≡ r.connections)
    → ((c : Connection Tx)
        → HashMap.get id r.connections ≡ some c
        → s.connections ≡ HashMap.insert id (g c) r.connections)
    → HashMap.get k s.connections ≡ (
        if id == k then Option.map g (HashMap.get k r.connections) else HashMap.get k r.connections)
written-get g r s id k absent known = elim (Option-cases (HashMap.get id r.connections)) [
  | inl e ↦ ground (arith, e, absent e)
  | inr (c, e) ↦ ground (arith, e, known c e, HashMap.get-insert id k (g c) r.connections)
]

module _ {Tx : Type 0} ⦃mpsc : Mpsc Tx⦄ where
  received-get :
      (r : Registry Tx) (id k : ConnectionId)
      → HashMap.get k (received r id).connections ≡ (
          if id == k
          then Option.map drained (HashMap.get k r.connections)
          else HashMap.get k r.connections)
  unfolding received receive drained with_tx
  received-get r id k = elim (Option-cases (HashMap.get id r.connections)) [
    | inl e ↦ ground (arith, e)
    | inr (c, e) ↦ elim (Option-cases (mpsc.recv c.tx)) [
      | inl q ↦ ground (arith, e, q)
      | inr ((f, t), q) ↦
          ground (arith, e, q, HashMap.get-insert id k (record c { tx = t }) r.connections)
    ]
  ]

  pub received-Keeps : (r : Registry Tx) (id : ConnectionId) → Keeps r (received r id)
  unfolding received receive
  received-Keeps r id = elim (Option-cases (HashMap.get id r.connections)) [
    | inl e ↦ rw (e, received) (Keeps-refl r)
    | inr (c, e) ↦ elim (Option-cases (mpsc.recv c.tx)) [
      | inl q ↦ rw (e, q, received) (Keeps-refl r)
      | inr ((f, t), q) ↦ rw (e, q, received) (with_tx-Keeps r id c t e)
    ]
  ]

  module _ (max cap : ℕ) where
    pub perform-get :
        (c : Call) (r : Registry Tx) (k : ConnectionId)
        → IsValid r
        → HashMap.get k (perform max cap c r).connections
          ≡ entry_after max cap c r.next_id k (HashMap.get k r.connections)
    unfolding perform entry_after
    perform-get (join subject) r k v =
        unfold add in
        HashMap.get-insert r.next_id k (joined subject (mpsc.channel cap)) r.connections
    perform-get (leave id) r k v =
        unfold remove in
        elim (Option-cases (HashMap.get id r.connections)) [
          | inl e ↦ ground (arith, e)
          | inr (c, e) ↦ ground (arith, e, HashMap.get-remove id k r.connections)
        ]
    perform-get (subscribing id chs) r k v =
        written-get
          (λ c. record c {
            subscriptions = (foldl (admit max) (admission c.subscriptions) chs).subscriptions;
          })
          r (subscribe r id chs max).0 id k (λ e. unfold subscribe in ground (arith, e))
          (λ c e. unfold subscribe in ground (arith, e))
    perform-get (unsubscribing id chs) r k v =
        written-get
          (λ c. record c {
            subscriptions = (foldl withdraw (withdrawal c.subscriptions) chs).subscriptions;
          })
          r (unsubscribe r id chs).0 id k (λ e. unfold unsubscribe in ground (arith, e))
          (λ c e. unfold unsubscribe in ground (arith, e))
    perform-get (publishing ch f) r k v =
        unfold subscribed in ground (arith, publish-get r ch f k v)
    perform-get (broadcasting f) r k v =
        unfold broadcast in broadcast_loop-get f r.connections r.metrics k
    perform-get (sending id f) r k v = send-get r id k f
    perform-get (receiving id) r k v = received-get r id k
    perform-get (hanging_up id) r k v =
        written-get (λ c. record c { tx = mpsc.close c.tx }) r (hang_up r id) id k
          (λ e. unfold hang_up in ground (arith, e))
          (λ c e. unfold hang_up with_tx in ground (arith, e))
    perform-get timing_out r k v = unfold count_timeout in refl
    perform-get refusing r k v = unfold count_refused in refl

    pub perform-ids :
        (c : Call) (r : Registry Tx) → (perform max cap c r).next_id ≡ ids_after c r.next_id
    unfolding perform ids_after
    perform-ids (join subject) r = unfold add in refl
    perform-ids (leave id) r = unfold remove in ground arith
    perform-ids (subscribing id chs) r = unfold subscribe in ground arith
    perform-ids (unsubscribing id chs) r = unfold unsubscribe in ground arith
    perform-ids (publishing ch f) r = (publish-Keeps r ch f).ids
    perform-ids (broadcasting f) r = (broadcast-Keeps r f).ids
    perform-ids (sending id f) r = (send-Keeps r id f).ids
    perform-ids (receiving id) r = (received-Keeps r id).ids
    perform-ids (hanging_up id) r = (hang_up-Keeps r id).ids
    perform-ids timing_out r = unfold count_timeout in refl
    perform-ids refusing r = unfold count_refused in refl

    pub perform-IsValid :
        (c : Call) (r : Registry Tx)
        → r.next_id + 1 < u64_mod
        → IsValid r
        → IsValid (perform max cap c r)
    unfolding perform
    perform-IsValid (join subject) r room v = Step-IsValid max cap (joins subject room) v
    perform-IsValid (leave id) r room v = Step-IsValid max cap (leaves id) v
    perform-IsValid (subscribing id chs) r room v = Step-IsValid max cap (subscribes id chs) v
    perform-IsValid (unsubscribing id chs) r room v = Step-IsValid max cap (unsubscribes id chs) v
    perform-IsValid (publishing ch f) r room v = Step-IsValid max cap (publishes ch f) v
    perform-IsValid (broadcasting f) r room v = Step-IsValid max cap (broadcasts f) v
    perform-IsValid (sending id f) r room v = Step-IsValid max cap (sends id f) v
    perform-IsValid (receiving id) r room v = Keeps-IsValid r _ (received-Keeps r id) v
    perform-IsValid (hanging_up id) r room v = Step-IsValid max cap (hangs_up id) v
    perform-IsValid timing_out r room v = Step-IsValid max cap times_out v
    perform-IsValid refusing r room v = Step-IsValid max cap refuses v

    -- The call that a step is.
    unfoldable pub call_of : {r s : Registry Tx} → Step max cap r s → Call
    call_of (joins subject room) = join subject
    call_of (leaves id) = leave id
    call_of (subscribes id chs) = subscribing id chs
    call_of (unsubscribes id chs) = unsubscribing id chs
    call_of (publishes ch f) = publishing ch f
    call_of (broadcasts f) = broadcasting f
    call_of (sends id f) = sending id f
    call_of (receives id f e) = receiving id
    call_of (hangs_up id) = hanging_up id
    call_of times_out = timing_out
    call_of refuses = refusing

    pub perform-call_of :
        {r s : Registry Tx} (st : Step max cap r s) → perform max cap (call_of st) r ≡ s
    unfolding perform call_of
    perform-call_of (joins subject room) = refl
    perform-call_of (leaves id) = refl
    perform-call_of (subscribes id chs) = refl
    perform-call_of (unsubscribes id chs) = refl
    perform-call_of (publishes ch f) = refl
    perform-call_of (broadcasts f) = refl
    perform-call_of (sends id f) = refl
    perform-call_of (receives id f e) = unfold received in ground (arith, e)
    perform-call_of (hangs_up id) = refl
    perform-call_of times_out = refl
    perform-call_of refuses = refl

    -- The call of a step, where another registry is.
    pub call_of-IsValid :
        {r s : Registry Tx} (st : Step max cap r s) (r' : Registry Tx)
        → r'.next_id ≡ r.next_id
        → IsValid r'
        → IsValid (perform max cap (call_of st) r')
    unfolding perform call_of
    call_of-IsValid (joins subject room) r' n v =
        add-IsValid r' subject (mpsc.channel cap) (omega (arith, room, n)) v
    call_of-IsValid (leaves id) r' n v = remove-IsValid r' id v
    call_of-IsValid (subscribes id chs) r' n v = subscribe-IsValid r' id chs max v
    call_of-IsValid (unsubscribes id chs) r' n v = unsubscribe-IsValid r' id chs v
    call_of-IsValid (publishes ch f) r' n v = Keeps-IsValid r' _ (publish-Keeps r' ch f) v
    call_of-IsValid (broadcasts f) r' n v = Keeps-IsValid r' _ (broadcast-Keeps r' f) v
    call_of-IsValid (sends id f) r' n v = Keeps-IsValid r' _ (send-Keeps r' id f) v
    call_of-IsValid (receives id f e) r' n v = Keeps-IsValid r' _ (received-Keeps r' id) v
    call_of-IsValid (hangs_up id) r' n v = Keeps-IsValid r' _ (hang_up-Keeps r' id) v
    call_of-IsValid times_out r' n v = Keeps-IsValid r' _ (count_timeout-Keeps r') v
    call_of-IsValid refuses r' n v = Keeps-IsValid r' _ (count_refused-Keeps r') v
