-- ===== src/Registry/Publish.antt =====
-- `publish` of src/registry.rs against a scan of every connection, and its count.
use ws_fanout.Prelude.{
  ◌≡◌, refl, Bool, ◌&&◌, String, [], ◌∷◌, arith, if◌then◌else◌, ◌∙◌, nat_eq, string_eq,
}
use mathlib.Core.Option
use ws_fanout.Collections.HashMap
use ws_fanout.Collections.HashMap.{HashMap, keys}
use ws_fanout.Collections.HashSet
use ws_fanout.Collections.HashSet.{HashSet}
use ws_fanout.Collections.Keys.{keys-Distinct}
use ws_fanout.Protocol.{Frame}
use ws_fanout.Mpsc.{Mpsc}
use ws_fanout.Registry.{Registry, Connection, ConnectionId}
use ws_fanout.Registry.Deliveries.{publish, publish_loop}
use ws_fanout.Registry.Counts.{counts, counts-congr, counts-same}
use ws_fanout.Registry.Deliver.{after_delivery, takes, publish_loop-get, publish_loop-counts}
use ws_fanout.Registry.Index.{
  subscribed, subscribed-known, members, linked-members, members-Distinct,
}
use ws_fanout.Registry.Invariant.{IsValid}

-- The reference: go through all connections and deliver to those that hold the channel.
unfoldable pub scan :
    {Tx : Type 0} ⦃mpsc : Mpsc Tx⦄
    → Frame
    → String
    → HashMap ConnectionId (Connection Tx)
    → HashMap ConnectionId (Connection Tx)
scan f ch [] = []
scan f ch ((id, c) ∷ rest) =
    (id, if HashSet.contains ch c.subscriptions then after_delivery f c else c) ∷ scan f ch rest

module _ {Tx : Type 0} ⦃mpsc : Mpsc Tx⦄ where
  scan-get :
      (f : Frame) (ch : String) (m : HashMap ConnectionId (Connection Tx)) (j : ConnectionId)
      → HashMap.get j (scan f ch m) ≡ (
          if subscribed j ch m
          then Option.map (after_delivery f) (HashMap.get j m)
          else HashMap.get j m)
  unfolding scan subscribed HashMap.get
  scan-get f ch [] j = refl
  scan-get f ch ((id, c) ∷ m) j = ground (arith, scan-get f ch m j)

  pub publish-members :
      (r : Registry Tx) (ch : String) (f : Frame)
      → publish r ch f ≡ publish_loop f (members ch r.by_channel) r
  unfolding publish members publish_loop
  publish-members r ch f = ground arith

  -- In a valid registry, publish, which looks the subscribers up in the index, leaves every
  -- connection as a scan of all connections does that delivers to those whose set has the channel.
  pub publish-scan :
      (r : Registry Tx) (ch : String) (f : Frame) (j : ConnectionId)
      → IsValid r
      → HashMap.get j (publish r ch f).0.connections ≡ HashMap.get j (scan f ch r.connections)
  publish-scan r ch f j v = rw publish-members (
      ground (
        arith,
        v.agree j ch,
        linked-members j ch r.by_channel,
        scan-get f ch r.connections j,
        publish_loop-get f ids r j (members-Distinct ch r.by_channel v.tidy),
      ))
    where
      ids : HashSet ConnectionId
      ids = members ch r.by_channel

  -- The entry of each connection after `publish`.
  pub publish-get :
      (r : Registry Tx) (ch : String) (f : Frame) (j : ConnectionId)
      → IsValid r
      → HashMap.get j (publish r ch f).0.connections ≡ (
          if subscribed j ch r.connections
          then Option.map (after_delivery f) (HashMap.get j r.connections)
          else HashMap.get j r.connections)
  publish-get r ch f j v = publish-scan r ch f j v ∙ scan-get f ch r.connections j

  -- Whether `publish` on the channel reaches the connection.
  abbrev pub reaches : Registry Tx → String → ConnectionId → Bool
  reaches r ch id = subscribed id ch r.connections && takes r id

  -- In a valid registry, publish returns the number of connections that hold the channel and whose
  -- queue is open and has room.
  pub publish-counts :
      (r : Registry Tx) (ch : String) (f : Frame)
      → IsValid r
      → (publish r ch f).1 ≡ counts (reaches r ch) (keys r.connections)
  publish-counts r ch f v = rw publish-members (
      publish_loop-counts f ids r d
      ∙ counts-congr (takes r) (reaches r ch) ids
          (λ id h. ground (arith, v.agree id ch, linked-members id ch r.by_channel))
      ∙ counts-same (reaches r ch) ids (keys r.connections) d (keys-Distinct r.connections v.unique)
          (λ id. ground (
            arith,
            v.agree id ch,
            linked-members id ch r.by_channel,
            subscribed-known id ch r.connections,
          )))
    where
      ids : HashSet ConnectionId
      ids = members ch r.by_channel

      d : HashSet.Distinct ids
      d = members-Distinct ch r.by_channel v.tidy
