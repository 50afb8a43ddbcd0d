-- ===== src/Registry/Full.antt =====
-- `publish` of src/registry.rs to a subscriber whose queue is full.
use ws_fanout.Prelude.{
  ℕ, ◌+◌, ◌<◌, ◌≡◌, true, some, String, List, [], ◌∷◌, arith, length, ◌∙◌, ap, nat_eq, string_eq,
  wrapping_add, u64_mod, wrapping_add_exact,
}
use ws_fanout.Collections.HashMap
use ws_fanout.Protocol.{Frame}
use ws_fanout.Mpsc.{Mpsc, full}
use ws_fanout.Registry.{Registry, Connection, ConnectionId, no_metrics}
use ws_fanout.Registry.Deliveries
use ws_fanout.Registry.Deliveries.{deliver}
use ws_fanout.Registry.Deliver.{verdict, after_delivery}
use ws_fanout.Registry.Invariant.{IsValid}
use ws_fanout.Registry.Keeps.{publish-Keeps, Keeps-IsValid, Keeps-holds}
use ws_fanout.Registry.Publish.{publish-get}
use ws_fanout.Registry.Queues.{deliver-Settled}
use ws_fanout.Registry.Subscriptions.{holds}

module _ {Tx : Type 0} ⦃mpsc : Mpsc Tx⦄ where
  -- One frame after another on the channel.
  unfoldable pub publish_all : String → List Frame → Registry Tx → Registry Tx
  publish_all ch [] r = r
  publish_all ch (f ∷ fs) r = publish_all ch fs (Deliveries.publish r ch f).0

  full-after_delivery :
      (f : Frame) (c : Connection Tx)
      → verdict c.tx ≡ full
      → after_delivery f c ≡ record c { dropped = wrapping_add c.dropped 1 }
  unfolding after_delivery
  full-after_delivery f c h =
      let settled = deliver-Settled no_metrics c f in ground (arith, rw h at settled)

  pub publish_all-dropped :
      (ch : String) (fs : List Frame) (r : Registry Tx) (id : ConnectionId) (c : Connection Tx)
      → IsValid r
      → HashMap.get id r.connections ≡ some c
      → holds r id ch ≡ true
      → verdict c.tx ≡ full
      → c.dropped + length fs < u64_mod
      → HashMap.get id (publish_all ch fs r).connections
        ≡ some (record c { dropped = c.dropped + length fs })
  unfolding publish_all
  publish_all-dropped ch [] r id c v known held stuck fits =
      known ∙ ap (λ (d : ℕ). some (record c { dropped = d })) (omega arith)
  publish_all-dropped ch (f ∷ fs) r id c v known held stuck fits =
      let kept = publish-Keeps r ch f in
      let r' = (Deliveries.publish r ch f).0 in
      let c' = record c { dropped = wrapping_add c.dropped 1 } in
      let one : wrapping_add c.dropped 1 ≡ c.dropped + 1 =
        wrapping_add_exact c.dropped 1 (omega (arith, fits)) in
      let now : HashMap.get id r'.connections ≡ some c' =
        ground (arith, publish-get r ch f id v, held, known, full-after_delivery f c stuck) in
      publish_all-dropped ch fs r' id (record c { dropped = c.dropped + 1 })
        (Keeps-IsValid r r' kept v) (now ∙ ap (λ (d : ℕ). some (record c { dropped = d })) one)
        (Keeps-holds r r' id ch kept ∙ held) stuck (omega (arith, fits))
      ∙ ap (λ (d : ℕ). some (record c { dropped = d })) (omega arith)
