-- ===== src/Server/Handle/Acknowledges.antt =====
-- What a `subscribe` message makes `handle` of src/server.rs queue for its client, and what the
-- acknowledgement says of the requested channels.
use ws_fanout.Prelude.{
  ℕ, ◌≡◌, refl, Bool, ◌||◌, ◌&&◌, not, none, some, String, List, [], ◌∷◌, ◌++◌, map, arith, leb,
  Option-cases, inl, inr, ◌∙◌, ap, nat_eq, string_eq, ==_refl, filter_b, partition,
}
use mathlib.Core.Option
use Prim.Native.String.{len}
use ws_fanout.Auth.{Claims}
use ws_fanout.Collections.HashMap
use ws_fanout.Collections.HashMap.{HashMap}
use ws_fanout.Collections.HashSet
use ws_fanout.Protocol.{ServerMessage, Rejected, Frame, to_frame}
use ws_fanout.Mpsc.{Mpsc}
use ws_fanout.Registry.{Registry, Connection, ConnectionId}
use ws_fanout.Registry
use ws_fanout.Registry.Deliveries
use ws_fanout.Registry.Deliver.{after_delivery, send-get}
use ws_fanout.Registry.Invariant.{IsValid}
use ws_fanout.Registry.Keeps.{Keeps, Keeps-refl, Keeps-trans, send-Keeps, Keeps-holds}
use ws_fanout.Registry.Loops.{contains-append}
use ws_fanout.Registry.Subscriptions.{
  holds, subscribe-asked, subscribe-holds, subscribe-entry, subscribe-new,
}
use ws_fanout.Server.Handle.{
  Services, because, rejections, sized, allowed, send_snapshots, handle_subscribe,
}
use ws_fanout.Server.Task.{ret, run, ◌>>◌}
use ws_fanout.Server.Task.Runs.{run->>=}

-- Deliveries to one connection, one after another.
unfoldable pub after_deliveries :
    {Tx : Type 0} ⦃mpsc : Mpsc Tx⦄ → List Frame → Connection Tx → Connection Tx
after_deliveries [] c = c
after_deliveries (f ∷ fs) c = after_deliveries fs (after_delivery f c)

abbrev pub names : List Rejected → List String
names = map (λ (x : Rejected). x.channel)

names-because :
    (reason d : String) (chs : List String)
    → HashSet.contains d (names (map (because reason) chs)) ≡ HashSet.contains d chs
unfolding HashSet.contains
names-because reason d [] = refl
names-because reason d (ch ∷ chs) = ground (arith, names-because reason d chs)

names-append : (xs ys : List Rejected) → names (xs ++ ys) ≡ names xs ++ names ys
names-append [] ys = refl
names-append (x ∷ xs) ys = ap (◌∷◌ x.channel) (names-append xs ys)

pub names-rejections :
    (d : String) (xs ys zs : List String)
    → HashSet.contains d (names (rejections xs ys zs))
      ≡ (HashSet.contains d xs || HashSet.contains d ys || HashSet.contains d zs)
unfolding rejections
names-rejections d xs ys zs = simp (names-append, contains-append, names-because)

module _ {IoError WsError RawValue Value : Type 0}
    (services : Services IoError WsError RawValue Value) (claims : Claims Value) where
  open services use {serde, config, authorizer, snapshots}

  -- The channels that the request hands on to the registry.
  abbrev pub permitted : List String → List String
  permitted channels = (allowed services claims (sized services channels).0).0

  -- The snapshots of the channels that have one, in order.
  unfoldable pub snapshot_frames : List String → List Frame
  snapshot_frames [] = []
  snapshot_frames (ch ∷ chs) =
      let rest = snapshot_frames chs in
      elim (snapshots ch) [
        | none ↦ rest
        | some payload ↦ to_frame serde (ServerMessage.snapshot ch payload) ∷ rest
      ]

  module _ {Tx : Type 0} (r : Registry Tx) (id : ConnectionId) (channels : List String) where
    -- What the registry answers.
    abbrev pub answer : Registry Tx × List String × List String
    answer = Registry.subscribe r id (permitted channels) config.max_subscriptions

    -- What the acknowledgement reports as rejected.
    abbrev pub rejected : List Rejected
    rejected =
        rejections (sized services channels).1
          (allowed services claims (sized services channels).0).1 answer.2

    abbrev pub acknowledgement : Frame
    acknowledgement = to_frame serde (ServerMessage.subscribed answer.1 rejected)

  module _ {Tx : Type 0} ⦃mpsc : Mpsc Tx⦄ (id : ConnectionId) (max : ℕ) where
    send_snapshots-Keeps :
        (chs : List String) (r : Registry Tx)
        → Keeps r (run id max (send_snapshots services chs) r).0
    unfolding send_snapshots run ◌>>◌
    send_snapshots-Keeps [] r = Keeps-refl r
    send_snapshots-Keeps (ch ∷ chs) r = elim (Option-cases (snapshots ch)) [
      | inl e ↦ rw (e, send_snapshots) (send_snapshots-Keeps chs r)
      | inr (payload, e) ↦
          let f = to_frame serde (ServerMessage.snapshot ch payload) in
          rw (e, send_snapshots)
            (Keeps-trans r (Deliveries.send r id f).0 _ (send-Keeps r id f)
              (send_snapshots-Keeps chs (Deliveries.send r id f).0))
    ]

    pub send_snapshots-get :
        (chs : List String) (r : Registry Tx)
        → HashMap.get id (run id max (send_snapshots services chs) r).0.connections
          ≡ Option.map (after_deliveries (snapshot_frames chs)) (HashMap.get id r.connections)
    unfolding send_snapshots run ◌>>◌ snapshot_frames after_deliveries
    send_snapshots-get [] r = ground arith
    send_snapshots-get (ch ∷ chs) r = elim (Option-cases (snapshots ch)) [
      | inl e ↦ rw (e, send_snapshots, snapshot_frames) (send_snapshots-get chs r)
      | inr (payload, e) ↦
          let f = to_frame serde (ServerMessage.snapshot ch payload) in
          rw (e, send_snapshots, snapshot_frames)
            (send_snapshots-get chs (Deliveries.send r id f).0
              ∙ ground (arith, send-get r id id f, ==_refl id))
    ]

  module _ {Tx : Type 0} ⦃mpsc : Mpsc Tx⦄ (r : Registry Tx) (id : ConnectionId)
      (channels : List String) where
    handle_subscribe-Keeps :
        Keeps
          (answer r id channels).0
          (run id config.max_subscriptions (handle_subscribe services claims channels) r).0
    unfolding handle_subscribe run
    handle_subscribe-Keeps =
        rw
          (run->>= id config.max_subscriptions (send_snapshots services added) (λ _. ret none)
            acked)
          (Keeps-trans (answer r id channels).0 acked _
            (send-Keeps (answer r id channels).0 id (acknowledgement r id channels))
            (send_snapshots-Keeps id config.max_subscriptions added acked))
      where
        added : List String
        added = (answer r id channels).1

        acked : Registry Tx
        acked = (Deliveries.send (answer r id channels).0 id (acknowledgement r id channels)).0

    -- After a subscribe message is handled with no other task in between, the connection is as the
    -- registry's subscribe left it, with the acknowledgement and then the snapshots of the added
    -- channels delivered, in order.
    pub handle_subscribe-get :
        HashMap.get id
          (run id config.max_subscriptions
            (handle_subscribe services claims channels)
            r).0.connections
        ≡ Option.map
            (after_deliveries
              (acknowledgement r id channels ∷ snapshot_frames (answer r id channels).1))
            (HashMap.get id (answer r id channels).0.connections)
    unfolding handle_subscribe run after_deliveries
    handle_subscribe-get =
        rw
          (run->>= id config.max_subscriptions (send_snapshots services added) (λ _. ret none)
            acked)
          (send_snapshots-get id config.max_subscriptions added acked
            ∙ ground (
              arith,
              send-get (answer r id channels).0 id id (acknowledgement r id channels),
              ==_refl id,
            ))
      where
        added : List String
        added = (answer r id channels).1

        acked : Registry Tx
        acked = (Deliveries.send (answer r id channels).0 id (acknowledgement r id channels)).0

    subscribe-accounts :
        (c : Connection Tx) (d : String)
        → IsValid r
        → HashMap.get id r.connections ≡ some c
        → holds
            (run id config.max_subscriptions (handle_subscribe services claims channels) r).0
            id
            d
          ≡ (holds r id d
              || (HashSet.contains d channels
                  && not (HashSet.contains d (names (rejected r id channels)))))
    unfolding sized allowed partition
    subscribe-accounts c d v e =
        Keeps-holds (answer r id channels).0 _ id d handle_subscribe-Keeps
        ∙ ground (
          arith,
          subscribe-asked r id (permitted channels) config.max_subscriptions v c d e,
          names-rejections d (sized services channels).1
              (allowed services claims (sized services channels).0).1 (answer r id channels).2,
          HashSet.contains-filter short d channels,
          HashSet.contains-filter (λ ch. not (short ch)) d channels,
          HashSet.contains-filter (authorizer claims) d (filter_b short channels),
          HashSet.contains-filter (λ ch. not (authorizer claims ch)) d (filter_b short channels),
        )
      where
        short : String → Bool
        short ch = leb (len ch) config.max_channel_len

    -- For a connection of a valid registry, after a subscribe message is handled with no other
    -- task in between: the connection was delivered an acknowledgement, with a list of added and a
    -- list of rejected channels, and behind it the snapshots of the added ones; it holds exactly
    -- what it held before and every requested channel that the acknowledgement does not list as
    -- rejected; and a channel is one that it holds and did not hold before exactly if the
    -- acknowledgement lists it as added.
    pub subscribe-acknowledges :
        (c : Connection Tx) (d : String)
        → IsValid r
        → HashMap.get id r.connections ≡ some c
        → let after =
            (run id config.max_subscriptions (handle_subscribe services claims channels) r).0 in
          (added : List String) × (refused : List Rejected) × (s : HashSet.HashSet String)
          × (HashMap.get id after.connections
              ≡ some (
                  after_deliveries
                    (to_frame serde (ServerMessage.subscribed added refused)
                      ∷ snapshot_frames added)
                    (record c { subscriptions = s })))
          × (holds after id d ≡ (
              holds r id d
              || (HashSet.contains d channels && not (HashSet.contains d (names refused)))))
          × ((not (holds r id d) && holds after id d) ≡ HashSet.contains d added)
    subscribe-acknowledges c d v e =
        let (s, entry) = subscribe-entry r id (permitted channels) config.max_subscriptions c e in
        (
          (answer r id channels).1,
          rejected r id channels,
          s,
          handle_subscribe-get ∙ ground (arith, entry),
          subscribe-accounts c d v e,
          account,
        )
      where
        account :
            (not (holds r id d)
              && holds
                  (run id config.max_subscriptions (handle_subscribe services claims channels) r).0
                  id
                  d)
            ≡ HashSet.contains d (answer r id channels).1
        account = ground (
          arith,
          Keeps-holds (answer r id channels).0 _ id d handle_subscribe-Keeps,
          ==_refl id,
          subscribe-holds r id id (permitted channels) config.max_subscriptions d v,
          subscribe-new r id (permitted channels) config.max_subscriptions v d,
        )
