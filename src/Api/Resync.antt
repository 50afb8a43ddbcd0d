-- ===== src/Api/Resync.antt =====
-- The deliveries that a `resync` of src/lib.rs makes.
use ws_fanout.Prelude.{
  ◌≡◌, refl, String, List, [], ◌∷◌, arith, if◌then◌else◌, ◌∙◌, nat_eq, string_eq,
}
use mathlib.Core.Option
use ws_fanout.Api.{resync_loop, resync}
use ws_fanout.Collections.HashMap
use ws_fanout.Protocol.{ServerMessage, Serde, Frame, to_frame}
use ws_fanout.Mpsc.{Mpsc}
use ws_fanout.Registry.{Registry, ConnectionId}
use ws_fanout.Registry.Deliveries
use ws_fanout.Registry.Invariant.{IsValid}
use ws_fanout.Registry.Keeps.{publish-Keeps, Keeps-IsValid, Keeps-holds}
use ws_fanout.Registry.Publish.{publish-get}
use ws_fanout.Registry.Subscriptions.{holds}
use ws_fanout.Server.Handle.Acknowledges.{after_deliveries}

module _ {RawValue : Type 0} {Tx : Type 0} ⦃mpsc : Mpsc Tx⦄ (serde : Serde RawValue) where
  -- The frame, once for each of the channels that the connection holds.
  unfoldable pub notices : Registry Tx → ConnectionId → Frame → List String → List Frame
  notices r j f [] = []
  notices r j f (ch ∷ chs) = let rest = notices r j f chs in if holds r j ch then f ∷ rest else rest

  notices-same :
      (r s : Registry Tx) (j : ConnectionId) (f : Frame) (chs : List String)
      → ((d : String) → holds s j d ≡ holds r j d)
      → notices s j f chs ≡ notices r j f chs
  unfolding notices
  notices-same r s j f [] h = refl
  notices-same r s j f (ch ∷ chs) h = ground (arith, h ch, notices-same r s j f chs h)

  resync_loop-get :
      (f : Frame) (chs : List String) (r : Registry Tx) (j : ConnectionId)
      → IsValid r
      → HashMap.get j (resync_loop serde f chs r).0.connections
        ≡ Option.map (after_deliveries (notices r j f chs)) (HashMap.get j r.connections)
  unfolding resync_loop notices after_deliveries
  resync_loop-get f [] r j v = ground arith
  resync_loop-get f (ch ∷ chs) r j v =
      let r' = (Deliveries.publish r ch f).0 in
      let kept = publish-Keeps r ch f in
      resync_loop-get f chs r' j (Keeps-IsValid r r' kept v)
      ∙ ground (
        arith,
        notices-same r r' j f chs (λ d. Keeps-holds r r' j d kept),
        publish-get r ch f j v,
      )

  -- In a valid registry, resync delivers its frame to a connection once for each of the named
  -- channels that it holds, and to no other connection.
  pub resync-get :
      (r : Registry Tx) (channels : List String) (j : ConnectionId)
      → IsValid r
      → HashMap.get j (resync serde r channels).0.connections
        ≡ Option.map
            (after_deliveries
              (notices r j (to_frame serde (ServerMessage.resync channels)) channels))
            (HashMap.get j r.connections)
  unfolding resync
  resync-get r channels j v =
      resync_loop-get (to_frame serde (ServerMessage.resync channels)) channels r j v
