-- ===== src/Registry/Stream.antt =====
-- The frames that wait in a connection's queue, src/registry.rs, over calls that leave its receiving
-- end alone.
use ws_fanout.Prelude.{
  ℕ, ◌≡◌, refl, true, false, Option, none, some, List, [], ◌∷◌, ◌++◌, arith, ◌==◌, ltb, length,
  Bool-cases, inl, inr, ◌∙◌, ap, sym, nat_eq, string_eq, ==_iff,
}
use mathlib.Core.List.{append-nil, append_assoc}
use ws_fanout.Collections.HashMap
use ws_fanout.Collections.HashSet
use ws_fanout.Collections.HashMap.{HashMap}
use ws_fanout.Protocol.{Frame}
use ws_fanout.Mpsc.{Mpsc}
use ws_fanout.Registry.{Registry, Connection, ConnectionId}
use ws_fanout.Registry.Calls.{
  Call, join, leave, subscribing, unsubscribing, publishing, broadcasting, sending, receiving,
  hanging_up, timing_out, refusing, perform, entry_after,
}
use ws_fanout.Registry.Calls.Entries.{perform-get, call_of, perform-call_of}
use ws_fanout.Registry.Deliver.{after_delivery}
use ws_fanout.Registry.Deliveries.{deliver}
use ws_fanout.Registry.Invariant.{IsValid}
use ws_fanout.Registry.Reach.{Step, Step-IsValid}

-- The call does not receive for the connection, hang up or take it away.
abbrev pub LeavesQueue : ConnectionId → Call → Type 0
LeavesQueue id (join subject) = Unit {0}
LeavesQueue id (leave j) = (j == id) ≡ false
LeavesQueue id (subscribing j chs) = Unit {0}
LeavesQueue id (unsubscribing j chs) = Unit {0}
LeavesQueue id (publishing ch f) = Unit {0}
LeavesQueue id (broadcasting f) = Unit {0}
LeavesQueue id (sending j f) = Unit {0}
LeavesQueue id (receiving j) = (j == id) ≡ false
LeavesQueue id (hanging_up j) = (j == id) ≡ false
LeavesQueue id timing_out = Unit {0}
LeavesQueue id refusing = Unit {0}

-- The list goes on as the other does.
abbrev pub Extends : List Frame → List Frame → Type 0
Extends fs gs = (new : List Frame) × (gs ≡ fs ++ new)

pub Extends-refl : (fs : List Frame) → Extends fs fs
Extends-refl fs = ([], sym (append-nil fs))

pub Extends-trans : (fs gs hs : List Frame) → Extends fs gs → Extends gs hs → Extends fs hs
Extends-trans fs gs hs (a, p) (b, q) = (a ++ b, q ∙ ap (λ x. x ++ b) p ∙ append_assoc fs a b)

module _ {Tx : Type 0} ⦃mpsc : Mpsc Tx⦄ where
  unfoldable pub waiting : Option (Connection Tx) → List Frame
  waiting none = []
  waiting (some c) = mpsc.queued c.tx

  abbrev pub queue_of : ConnectionId → Registry Tx → List Frame
  queue_of id r = waiting (HashMap.get id r.connections)

  delivery-Extends :
      (c : Connection Tx) (f : Frame)
      → Extends (mpsc.queued c.tx) (mpsc.queued (after_delivery f c).tx)
  unfolding after_delivery deliver
  delivery-Extends c f = elim (Bool-cases (mpsc.is_closed c.tx)) [
    | inl shut ↦
        ([], ground (arith, shut, mpsc.try_send_closed c.tx f, append-nil (mpsc.queued c.tx)))
    | inr unshut ↦ elim (Bool-cases (ltb (length (mpsc.queued c.tx)) (mpsc.capacity c.tx))) [
      | inl room ↦ (f ∷ [], ground (arith, unshut, room, mpsc.try_send_sent c.tx f))
      | inr stuck ↦ (
        [],
        ground (arith, unshut, stuck, mpsc.try_send_full c.tx f, append-nil (mpsc.queued c.tx)),
      )
    ]
  ]

  entry-Extends :
      (max cap : ℕ) (id : ConnectionId) (c : Call) (n : ℕ) (o : Option (Connection Tx))
      → LeavesQueue id c
      → ((n == id) ≡ true → o ≡ none)
      → Extends (waiting o) (waiting (entry_after max cap c n id o))
  unfolding entry_after waiting
  entry-Extends max cap id c n none q fresh = (waiting (entry_after max cap c n id none), refl)
  entry-Extends max cap id (join subject) n (some e) q fresh =
      ([], ground (arith, fresh, append-nil (mpsc.queued e.tx)))
  entry-Extends max cap id (leave j) n (some e) q fresh =
      ([], ground (arith, q, append-nil (mpsc.queued e.tx)))
  entry-Extends max cap id (subscribing j chs) n (some e) q fresh =
      ([], ground (arith, append-nil (mpsc.queued e.tx)))
  entry-Extends max cap id (unsubscribing j chs) n (some e) q fresh =
      ([], ground (arith, append-nil (mpsc.queued e.tx)))
  entry-Extends max cap id (publishing ch f) n (some e) q fresh =
      elim (Bool-cases (HashSet.contains ch e.subscriptions)) [
        | inl held ↦ let (new, x) = delivery-Extends e f in (new, ground (arith, held, x))
        | inr other ↦ ([], ground (arith, other, append-nil (mpsc.queued e.tx)))
      ]
  entry-Extends max cap id (broadcasting f) n (some e) q fresh = delivery-Extends e f
  entry-Extends max cap id (sending j f) n (some e) q fresh = elim (Bool-cases (j == id)) [
    | inl own ↦ let (new, x) = delivery-Extends e f in (new, ground (arith, own, x))
    | inr other ↦ ([], ground (arith, other, append-nil (mpsc.queued e.tx)))
  ]
  entry-Extends max cap id (receiving j) n (some e) q fresh =
      ([], ground (arith, q, append-nil (mpsc.queued e.tx)))
  entry-Extends max cap id (hanging_up j) n (some e) q fresh =
      ([], ground (arith, q, append-nil (mpsc.queued e.tx)))
  entry-Extends max cap id timing_out n (some e) q fresh = Extends-refl (mpsc.queued e.tx)
  entry-Extends max cap id refusing n (some e) q fresh = Extends-refl (mpsc.queued e.tx)

  pub perform-Extends :
      (max cap : ℕ) (id : ConnectionId) (c : Call) (r : Registry Tx)
      → LeavesQueue id c
      → IsValid r
      → Extends (queue_of id r) (queue_of id (perform max cap c r))
  perform-Extends max cap id c r q v =
      let e =
        entry-Extends max cap id c r.next_id (HashMap.get id r.connections) q
          (λ h. ground (arith, h, ==_iff r.next_id id, v.fresh id)) in
      (e.0, ap waiting (perform-get max cap c r id v) ∙ e.1)

module _ {Tx : Type 0} ⦃mpsc : Mpsc Tx⦄ (max cap : ℕ) (id : ConnectionId) where
  -- Any number of steps that leave the connection's receiving end alone.
  pub data Undisturbed (r : Registry Tx) : Registry Tx → Type 0 where
    stay : Undisturbed r r
    next :
        {s t : Registry Tx}
        → Undisturbed r s
        → (st : Step max cap s t) → LeavesQueue id (call_of max cap st)
        → Undisturbed r t

  pub Undisturbed-IsValid : {r s : Registry Tx} → Undisturbed r s → IsValid r → IsValid s
  Undisturbed-IsValid stay v = v
  Undisturbed-IsValid (next before st q) v = Step-IsValid max cap st (Undisturbed-IsValid before v)

  pub Undisturbed-Extends :
      {r s : Registry Tx} → Undisturbed r s → IsValid r → Extends (queue_of id r) (queue_of id s)
  Undisturbed-Extends {r} stay v = Extends-refl (queue_of id r)
  Undisturbed-Extends {r} (next {s = m} before st q) v =
      let (new, e) =
        perform-Extends max cap id (call_of max cap st) m q (Undisturbed-IsValid before v) in
      Extends-trans (queue_of id r) (queue_of id m) _ (Undisturbed-Extends before v)
        (new, ap (queue_of id) (sym (perform-call_of max cap st)) ∙ e)
