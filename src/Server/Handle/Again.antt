-- ===== src/Server/Handle/Again.antt =====
-- A second `subscribe` for channels that are held, in src/server.rs.
use ws_fanout.Prelude.{
  ◌≡◌, arith, Bool, leb, not, ◌&&◌, filter_b, true, String, List, [], ◌∷◌, All, ◌∙◌, ap, nat_eq,
  string_eq, All-filter_b, partition,
}
use mathlib.Core.Option
use ws_fanout.Auth.{Claims}
use Prim.Native.String.{len}
use ws_fanout.Collections.HashMap
use ws_fanout.Collections.HashSet
use ws_fanout.Protocol.{ServerMessage, Frame, to_frame}
use ws_fanout.Mpsc.{Mpsc}
use ws_fanout.Registry.{Registry, ConnectionId}
use ws_fanout.Registry.Subscriptions.{holds, subscribe-again}
use ws_fanout.Server.Handle.{Services, rejections, sized, allowed, handle_subscribe}
use ws_fanout.Server.Handle.Acknowledges.{
  permitted, answer, snapshot_frames, after_deliveries, handle_subscribe-get, names,
  names-rejections,
}
use ws_fanout.Server.Task.{run}

module _ {IoError WsError RawValue Value : Type 0} {Tx : Type 0} ⦃mpsc : Mpsc Tx⦄
    (services : Services IoError WsError RawValue Value) (claims : Claims Value) (r : Registry Tx)
    (id : ConnectionId) (channels : List String) where
  open services use {serde, config, authorizer}

  -- The acknowledgement that such a request gets.
  abbrev pub empty_acknowledgement : Frame
  empty_acknowledgement = to_frame serde (
      ServerMessage.subscribed [] (
        rejections (sized services channels).1
          (allowed services claims (sized services channels).0).1 []))

  no_frames :
      (added over_limit : List String)
      → added ≡ []
      → over_limit ≡ []
      → to_frame serde (
            ServerMessage.subscribed added (
              rejections
                (sized services channels).1
                (allowed services claims (sized services channels).0).1
                over_limit))
          ∷ snapshot_frames services claims added
        ≡ empty_acknowledgement ∷ []
  unfolding snapshot_frames
  no_frames added over_limit p q = rw (p, q)

  -- If the connection holds every requested channel, handling the subscribe message with no other
  -- task in between delivers one frame to it, and no snapshot: an acknowledgement that lists no
  -- channel as added, and as rejected exactly those of the requested channels that are too long or
  -- that the authorizer does not let through.
  pub resubscribe-silent :
      (d : String)
      → All (λ ch. holds r id ch ≡ true) channels
      → (HashMap.get id
            (run id config.max_subscriptions
              (handle_subscribe services claims channels)
              r).0.connections
          ≡ Option.map
              (after_deliveries (empty_acknowledgement ∷ []))
              (HashMap.get id (answer services claims r id channels).0.connections))
        × (HashSet.contains d (
              names (
                rejections
                  (sized services channels).1
                  (allowed services claims (sized services channels).0).1
                  []))
            ≡ (HashSet.contains d channels
                && not (leb (len d) config.max_channel_len && authorizer claims d)))
  unfolding sized allowed partition snapshot_frames HashSet.contains
  resubscribe-silent d h =
      let (none_added, none_refused) =
        subscribe-again r id (permitted services claims channels) config.max_subscriptions
          (All-filter_b _ _ _ (All-filter_b _ _ channels h)) in
      (
        handle_subscribe-get services claims r id channels
            ∙ ap
                (λ fs.
                  Option.map (after_deliveries fs)
                    (HashMap.get id (answer services claims r id channels).0.connections))
                (no_frames (answer services claims r id channels).1
                  (answer services claims r id channels).2 none_added none_refused),
        ground (
          arith,
          names-rejections d (sized services channels).1
              (allowed services claims (sized services channels).0).1 [],
          HashSet.contains-filter (λ ch. not (short ch)) d channels,
          HashSet.contains-filter (λ ch. not (authorizer claims ch)) d (filter_b short channels),
          HashSet.contains-filter short d channels,
        ),
      )
    where
      short : String → Bool
      short ch = leb (len ch) config.max_channel_len
