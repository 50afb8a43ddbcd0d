-- ===== src/Registry/Within.antt =====
-- The limits of src/server.rs's `Config` on a connection of src/registry.rs: the frames in its queue
-- and the channels in its set.
use ws_fanout.Prelude.{
  ℕ, ◌≤◌, ◌≡◌, Bool, true, some, String, List, [], ◌∷◌, foldl, arith, ◌==◌, if◌then◌else◌, length,
  Bool-cases, Option-cases, inl, inr, nat_eq, string_eq,
}
use mathlib.Core.Option
use ws_fanout.Collections.HashMap
use ws_fanout.Collections.HashMap.{HashMap}
use ws_fanout.Protocol.{Frame}
use ws_fanout.Mpsc.{Mpsc}
use ws_fanout.Registry.{
  Registry, Connection, ConnectionId, joined, add, remove, subscribe, unsubscribe, admit, admission,
  withdraw, withdrawal,
}
use ws_fanout.Registry.Deliveries.{send, publish, publish_loop, broadcast}
use ws_fanout.Registry.Deliver.{after_delivery, send-get}
use ws_fanout.Registry.Queues.{deliver-fixed, deliver-bounded}
use ws_fanout.Registry.Keeps.{broadcast_loop-get}
use ws_fanout.Registry.Invariant.{IsValid}
use ws_fanout.Registry.Loops.{Admits, admission-Admits, admit_all-Admits, length-withdraw_all-le}
use ws_fanout.Registry.Receiver.{with_tx}

-- Each connection's queue has the configured capacity and never more frames, and its set has no
-- more than the configured number of channels.
pub record IsWithin {Tx : Type 0} ⦃mpsc : Mpsc Tx⦄ (max cap : ℕ) (c : Connection Tx) : Type 0 where
  pub capacity : mpsc.capacity c.tx ≡ cap
  pub queue : length (mpsc.queued c.tx) ≤ cap
  pub set : length c.subscriptions ≤ max

-- It holds of every connection of the registry.
abbrev pub AllWithin :
    {Tx : Type 0} ⦃mpsc : Mpsc Tx⦄ → ℕ → ℕ → HashMap ConnectionId (Connection Tx) → Type 0
AllWithin {Tx} max cap m =
    (id : ConnectionId) (c : Connection Tx) → HashMap.get id m ≡ some c → IsWithin max cap c

module _ {Tx : Type 0} ⦃mpsc : Mpsc Tx⦄ (max cap : ℕ) where
  after_delivery-IsWithin :
      (f : Frame) (c : Connection Tx) → IsWithin max cap c → IsWithin max cap (after_delivery f c)
  after_delivery-IsWithin f c w = ground (arith, deliver-fixed c f, deliver-bounded c f)

  -- Writing an entry that is within the limits keeps all within them.
  insert-AllWithin :
      (m : HashMap ConnectionId (Connection Tx)) (id : ConnectionId) (c : Connection Tx)
      → IsWithin max cap c
      → AllWithin max cap m
      → AllWithin max cap (HashMap.insert id c m)
  insert-AllWithin m id c w h j d e = elim (Bool-cases (id == j)) [
    | inl same ↦ ground (arith, HashMap.get-insert id j c m, w)
    | inr other ↦ h j d (ground (arith, HashMap.get-insert id j c m))
  ]

  -- Every entry of `s` is an entry of `r`, perhaps after a delivery.
  deliveries-AllWithin :
      (f : Frame) (r s : Registry Tx) (reached : ConnectionId → Bool)
      → ((j : ConnectionId)
          → HashMap.get j s.connections ≡ (
              if reached j
              then Option.map (after_delivery f) (HashMap.get j r.connections)
              else HashMap.get j r.connections))
      → AllWithin max cap r.connections
      → AllWithin max cap s.connections
  deliveries-AllWithin f r s reached q h j d e = elim (Option-cases (HashMap.get j r.connections)) [
    | inl absent ↦ absurd (ground (arith, q j, absent))
    | inr (c, known) ↦ ground (arith, q j, known, h j c, after_delivery-IsWithin f c)
  ]

  pub send-AllWithin :
      (r : Registry Tx) (id : ConnectionId) (f : Frame)
      → AllWithin max cap r.connections
      → AllWithin max cap (send r id f).0.connections
  send-AllWithin r id f =
      deliveries-AllWithin f r (send r id f).0 (λ j. id == j) (λ j. send-get r id j f)

  publish_loop-AllWithin :
      (f : Frame) (ids : List ConnectionId) (r : Registry Tx)
      → AllWithin max cap r.connections
      → AllWithin max cap (publish_loop f ids r).0.connections
  unfolding publish_loop
  publish_loop-AllWithin f [] r h = h
  publish_loop-AllWithin f (id ∷ ids) r h =
      publish_loop-AllWithin f ids (send r id f).0 (send-AllWithin r id f h)

  pub publish-AllWithin :
      (r : Registry Tx) (ch : String) (f : Frame)
      → AllWithin max cap r.connections
      → AllWithin max cap (publish r ch f).0.connections
  unfolding publish
  publish-AllWithin r ch f h = elim (Option-cases (HashMap.get ch r.by_channel)) [
    | inl e ↦ rw (e, publish) h
    | inr (ids, e) ↦ rw (e, publish) (publish_loop-AllWithin f ids r h)
  ]

  pub broadcast-AllWithin :
      (r : Registry Tx) (f : Frame)
      → AllWithin max cap r.connections
      → AllWithin max cap (broadcast r f).0.connections
  unfolding broadcast
  broadcast-AllWithin r f =
      deliveries-AllWithin f r (broadcast r f).0 (λ j. true)
        (λ j. broadcast_loop-get f r.connections r.metrics j)

  pub add-AllWithin :
      (r : Registry Tx) (subject : String)
      → AllWithin max cap r.connections
      → AllWithin max cap (add r subject (mpsc.channel cap)).0.connections
  unfolding add
  add-AllWithin r subject =
      insert-AllWithin r.connections r.next_id (joined subject (mpsc.channel cap))
        (ground (arith, mpsc.channel_lem cap))

  pub remove-AllWithin :
      (r : Registry Tx) (id : ConnectionId)
      → AllWithin max cap r.connections
      → AllWithin max cap (remove r id).connections
  unfolding remove
  remove-AllWithin r id h j d e = elim (Option-cases (HashMap.get id r.connections)) [
    | inl absent ↦ h j d (ground (arith, absent))
    | inr (c, known) ↦ h j d (ground (arith, known, HashMap.get-remove id j r.connections))
  ]

  pub subscribe-AllWithin :
      (r : Registry Tx) (id : ConnectionId) (chs : List String)
      → IsValid r
      → AllWithin max cap r.connections
      → AllWithin max cap (subscribe r id chs max).0.connections
  unfolding subscribe
  subscribe-AllWithin r id chs v h = elim (Option-cases (HashMap.get id r.connections)) [
    | inl e ↦ rw (e, subscribe) h
    | inr (c, e) ↦
        let a = foldl (admit max) (admission c.subscriptions) chs in
        let g : Admits c.subscriptions max a =
          admit_all-Admits c.subscriptions max chs (admission c.subscriptions)
            (admission-Admits c.subscriptions max (v.sets id c e)) in
        rw (e, subscribe)
          (insert-AllWithin r.connections id (record c { subscriptions = a.subscriptions })
            (ground (arith, h id c e, g.room, g.counted)) h)
  ]

  pub unsubscribe-AllWithin :
      (r : Registry Tx) (id : ConnectionId) (chs : List String)
      → AllWithin max cap r.connections
      → AllWithin max cap (unsubscribe r id chs).0.connections
  unfolding unsubscribe
  unsubscribe-AllWithin r id chs h = elim (Option-cases (HashMap.get id r.connections)) [
    | inl e ↦ rw (e, unsubscribe) h
    | inr (c, e) ↦
        let w = foldl withdraw (withdrawal c.subscriptions) chs in
        rw (e, unsubscribe)
          (insert-AllWithin r.connections id (record c { subscriptions = w.subscriptions })
            (ground (arith, h id c e, length-withdraw_all-le chs (withdrawal c.subscriptions))) h)
  ]

  pub with_tx-AllWithin :
      (r : Registry Tx) (id : ConnectionId) (c : Connection Tx) (t : Tx)
      → HashMap.get id r.connections ≡ some c
      → mpsc.capacity t ≡ mpsc.capacity c.tx
      → length (mpsc.queued t) ≤ length (mpsc.queued c.tx)
      → AllWithin max cap r.connections
      → AllWithin max cap (with_tx r id c t).connections
  unfolding with_tx
  with_tx-AllWithin r id c t e same less h =
      insert-AllWithin r.connections id (record c { tx = t }) (ground (arith, h id c e)) h
