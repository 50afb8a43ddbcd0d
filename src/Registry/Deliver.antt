-- ===== src/Registry/Deliver.antt =====
-- What a delivery does, src/registry.rs: `deliver`, `send` and the loop of `publish`.
use ws_fanout.Prelude.{
  ◌≡◌, refl, Bool, true, false, none, some, List, [], ◌∷◌, arith, ◌==◌, leb, if◌then◌else◌, length,
  Option-cases, inl, inr, nat_eq, string_eq,
}
use mathlib.Core.Option
use ws_fanout.Collections.HashMap
use ws_fanout.Collections.HashMap.{HashMap}
use ws_fanout.Collections.HashSet
use ws_fanout.Protocol.{Frame}
use ws_fanout.Mpsc.{Mpsc, TrySend, sent, full, closed}
use ws_fanout.Registry.{Registry, Connection, ConnectionId, Metrics, no_metrics}
use ws_fanout.Registry.Deliveries.{deliver, send, publish_loop}
use ws_fanout.Registry.Counts.{counts, counts-congr}

module _ {Tx : Type 0} ⦃mpsc : Mpsc Tx⦄ where
  -- How the channel must answer, from what can be seen of it.
  unfoldable pub verdict : Tx → TrySend
  verdict t =
      if mpsc.is_closed t
      then closed
      else if leb (mpsc.capacity t) (length (mpsc.queued t))
      then full
      else sent

  unfoldable pub has_room : Tx → Bool
  unfolding verdict
  has_room t = elim (verdict t) [ sent ↦ true | _ ↦ false ]

  pub try_send-verdict : (t : Tx) (f : Frame) → (mpsc.try_send t f).0 ≡ verdict t
  unfolding verdict
  try_send-verdict t f =
      ground (arith, mpsc.try_send_closed t f, mpsc.try_send_full t f, mpsc.try_send_sent t f)

  -- The connection after the delivery, which does not depend on the counters.
  unfoldable pub after_delivery : Frame → Connection Tx → Connection Tx
  unfolding deliver
  after_delivery f c = (deliver no_metrics c f).connection

  pub deliver-connection :
      (m : Metrics) (c : Connection Tx) (f : Frame)
      → (deliver m c f).connection ≡ after_delivery f c
  unfolding deliver after_delivery
  deliver-connection m c f = ground arith

  pub deliver-received :
      (m : Metrics) (c : Connection Tx) (f : Frame) → (deliver m c f).received ≡ has_room c.tx
  unfolding deliver has_room
  deliver-received m c f = ground (arith, try_send-verdict c.tx f)

  pub send-get :
      (r : Registry Tx) (id j : ConnectionId) (f : Frame)
      → HashMap.get j (send r id f).0.connections ≡ (
          if id == j
          then Option.map (after_delivery f) (HashMap.get j r.connections)
          else HashMap.get j r.connections)
  unfolding send
  send-get r id j f = elim (Option-cases (HashMap.get id r.connections)) [
    | inl e ↦ ground (arith, e)
    | inr (c, e) ↦ ground (
      arith,
      e,
      HashMap.get-insert id j (deliver r.metrics c f).connection r.connections,
      deliver-connection r.metrics c f,
    )
  ]

  unfoldable pub takes : Registry Tx → ConnectionId → Bool
  takes r id = elim (HashMap.get id r.connections) [ none ↦ false | some c ↦ has_room c.tx ]

  pub send-takes : (r : Registry Tx) (id : ConnectionId) (f : Frame) → (send r id f).1 ≡ takes r id
  unfolding send takes
  send-takes r id f = elim (Option-cases (HashMap.get id r.connections)) [
    | inl e ↦ ground (arith, e)
    | inr (c, e) ↦ ground (arith, e, deliver-received r.metrics c f)
  ]

  pub send-by_channel :
      (r : Registry Tx) (id : ConnectionId) (f : Frame) → (send r id f).0.by_channel ≡ r.by_channel
  unfolding send
  send-by_channel r id f = ground arith

  pub publish_loop-get :
      (f : Frame) (ids : List ConnectionId) (r : Registry Tx) (j : ConnectionId)
      → HashSet.Distinct ids
      → HashMap.get j (publish_loop f ids r).0.connections ≡ (
          if HashSet.contains j ids
          then Option.map (after_delivery f) (HashMap.get j r.connections)
          else HashMap.get j r.connections)
  unfolding publish_loop HashSet.contains
  publish_loop-get f [] r j d = refl
  publish_loop-get f (id ∷ ids) r j d =
      ground (arith, publish_loop-get f ids (send r id f).0 j d.1, send-get r id j f)

  takes-send :
      (r : Registry Tx) (id j : ConnectionId) (f : Frame)
      → (id == j) ≡ false
      → takes (send r id f).0 j ≡ takes r j
  unfolding takes
  takes-send r id j f h = ground (arith, send-get r id j f)

  pub publish_loop-counts :
      (f : Frame) (ids : List ConnectionId) (r : Registry Tx)
      → HashSet.Distinct ids
      → (publish_loop f ids r).1 ≡ counts (takes r) ids
  unfolding publish_loop counts HashSet.contains
  publish_loop-counts f [] r d = refl
  publish_loop-counts f (id ∷ ids) r d = ground (
    arith,
    publish_loop-counts f ids (send r id f).0 d.1,
    send-takes r id f,
    counts-congr (takes (send r id f).0) (takes r) ids (λ j h. takes-send r id j f (ground arith)),
  )
