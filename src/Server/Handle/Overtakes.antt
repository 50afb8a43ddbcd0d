-- ===== src/Server/Handle/Overtakes.antt =====
-- Between `subscribe` and the `send` of the acknowledgement, in src/server.rs's `handle`, the registry's
-- lock is free: another task's `publish` in that place.
use ws_fanout.Prelude.{
  ◌+◌, ◌≤◌, ◌<◌, ◌≡◌, refl, ◌⊎◌, true, false, Option, none, some, String, List, [], ◌∷◌, ◌++◌,
  arith, length, Bool-cases, inl, inr, ◌∙◌, ap, sym, nat_eq, string_eq, ==_refl, length-append,
}
use mathlib.Core.Path.{subst}
use mathlib.Core.List.{append-nil, append_assoc}
use ws_fanout.Auth.{Claims}
use ws_fanout.Collections.HashMap
use ws_fanout.Collections.HashSet
use ws_fanout.Protocol.{Frame}
use ws_fanout.Mpsc.{Mpsc}
use ws_fanout.Registry.{Registry, Connection, ConnectionId}
use ws_fanout.Registry.Deliveries.{deliver}
use ws_fanout.Registry.Deliveries
use ws_fanout.Registry.Deliver.{has_room, after_delivery, send-get}
use ws_fanout.Registry.Invariant.{IsValid, subscribe-IsValid}
use ws_fanout.Registry.Publish.{publish-get}
use ws_fanout.Registry.Subscriptions.{holds, subscribe-holds, subscribe-entry, subscribe-new}
use ws_fanout.Server.Handle.{Services, send_snapshots, handle_subscribe, sized, allowed}
use ws_fanout.Server.Handle.Acknowledges.{
  permitted, answer, acknowledgement, snapshot_frames, after_deliveries, send_snapshots-get,
}
use ws_fanout.Server.Task.{Task, ret, run, Among, run-Among, ◌>>=◌, ◌>>◌}
use ws_fanout.Server.Task.Runs.{run->>=}

module _ {Tx : Type 0} ⦃mpsc : Mpsc Tx⦄ where
  -- With room, the frame goes to the end of the queue and the channel stays open.
  pub room-delivery :
      (f : Frame) (c : Connection Tx)
      → mpsc.is_closed c.tx ≡ false
      → length (mpsc.queued c.tx) < mpsc.capacity c.tx
      → (mpsc.queued (after_delivery f c).tx ≡ mpsc.queued c.tx ++ f ∷ [])
        × (mpsc.capacity (after_delivery f c).tx ≡ mpsc.capacity c.tx)
        × (mpsc.is_closed (after_delivery f c).tx ≡ false)
  unfolding after_delivery deliver
  room-delivery f c open_c room = ground (arith, mpsc.try_send_sent c.tx f)

  delivered :
      (f : Frame) (c : Connection Tx)
      → has_room c.tx ≡ true
      → mpsc.queued (after_delivery f c).tx ≡ mpsc.queued c.tx ++ f ∷ []
  unfolding after_delivery deliver has_room
  delivered f c room = ground (arith, mpsc.try_send_sent c.tx f)

  kept :
      (f : Frame) (c : Connection Tx)
      → has_room c.tx ≡ false
      → mpsc.queued (after_delivery f c).tx ≡ mpsc.queued c.tx
  unfolding after_delivery deliver has_room
  kept f c no_room = ground (arith, mpsc.try_send_closed c.tx f, mpsc.try_send_full c.tx f)

  -- A delivery only adds to the end of the queue.
  delivery-extend :
      (f : Frame) (c : Connection Tx)
      → (rest : List Frame) × (mpsc.queued (after_delivery f c).tx ≡ mpsc.queued c.tx ++ rest)
  delivery-extend f c = elim (Bool-cases (has_room c.tx)) [
    | inl room ↦ (f ∷ [], delivered f c room)
    | inr no_room ↦ ([], kept f c no_room ∙ sym (append-nil (mpsc.queued c.tx)))
  ]

  -- Later deliveries only add to the end of the queue.
  pub deliveries-extend :
      (fs : List Frame) (c : Connection Tx)
      → (rest : List Frame) × (mpsc.queued (after_deliveries fs c).tx ≡ mpsc.queued c.tx ++ rest)
  unfolding after_deliveries
  deliveries-extend [] c = ([], sym (append-nil (mpsc.queued c.tx)))
  deliveries-extend (f ∷ fs) c =
      let (one, e) = delivery-extend f c in
      let (rest, q) = deliveries-extend fs (after_delivery f c) in
      (one ++ rest, q ∙ ap (λ qs. qs ++ rest) e ∙ append_assoc (mpsc.queued c.tx) one rest)

module _ {IoError WsError RawValue Value : Type 0} {Tx : Type 0} ⦃mpsc : Mpsc Tx⦄
    (services : Services IoError WsError RawValue Value) (claims : Claims Value) (r : Registry Tx)
    (id : ConnectionId) (channels : List String) (ch : String) (f : Frame) where
  open services use {config}

  -- The registry after `subscribe`, then a publisher's call, then the acknowledgement.
  abbrev subscribed_r : Registry Tx
  subscribed_r = (answer services claims r id channels).0

  abbrev published_r : Registry Tx
  published_r = (Deliveries.publish subscribed_r ch f).0

  abbrev acked_r : Registry Tx
  acked_r = (Deliveries.send published_r id (acknowledgement services claims r id channels)).0

  -- What others do: nothing, or one publish of the frame on the channel.
  abbrev pub PublishesOnce : Registry Tx → Registry Tx → Type 0
  PublishesOnce x y = (y ≡ x) ⊎ (y ≡ (Deliveries.publish x ch f).0)

  -- The rest of `handle_subscribe`.
  abbrev rest_of : Task (Option Frame)
  rest_of = send_snapshots services (answer services claims r id channels).1 >>= λ _. ret none

  acked-get :
      (c : Connection Tx)
      → IsValid r
      → HashMap.get id r.connections ≡ some c
      → HashSet.contains ch (answer services claims r id channels).1 ≡ true
      → (s : HashSet.HashSet String) × (HashMap.get id acked_r.connections
          ≡ some (
              after_delivery
                (acknowledgement services claims r id channels)
                (after_delivery f (record c { subscriptions = s }))))
  acked-get c v e new =
      let (s, entry) =
        subscribe-entry r id (permitted services claims channels) config.max_subscriptions c e in
      (
        s,
        ground (
          arith,
          entry,
          ==_refl id,
          send-get published_r id id (acknowledgement services claims r id channels),
          publish-get subscribed_r ch f id (
              subscribe-IsValid r id (permitted services claims channels) config.max_subscriptions
                v),
          subscribe-holds r id id (permitted services claims channels) config.max_subscriptions ch
              v,
        ),
      )

  -- `handle_subscribe` where another task publishes once, after the first call.
  overtaken :
      Among PublishesOnce id config.max_subscriptions
        (handle_subscribe services claims channels)
        r
        (run id config.max_subscriptions rest_of acked_r).0
        (run id config.max_subscriptions rest_of acked_r).1
  unfolding handle_subscribe ◌>>=◌ ◌>>◌ sized allowed
  overtaken = (
    r,
    inl refl,
    (
      published_r,
      inr refl,
      run-Among PublishesOnce (λ x. inl refl) id config.max_subscriptions rest_of acked_r,
    ),
  )

  rest-none : run id config.max_subscriptions rest_of acked_r ≡ (
    (run id config.max_subscriptions
        (send_snapshots services (answer services claims r id channels).1)
        acked_r).0,
    none,
  )
  unfolding run ◌>>=◌
  rest-none =
      run->>= id config.max_subscriptions
        (send_snapshots services (answer services claims r id channels).1) (λ _. ret none) acked_r

  -- In a valid registry, where the connection's queue is open with room for two more frames, and
  -- the request adds the channel: the connection does not hold the channel before, and there is an
  -- execution of the handling of the request, in which others do nothing but publish the frame on
  -- the channel, at most once before each of its calls and behind the last, that queues the frame
  -- directly before the acknowledgement.
  pub overtakes :
      (c : Connection Tx)
      → IsValid r
      → HashMap.get id r.connections ≡ some c
      → HashSet.contains ch (answer services claims r id channels).1 ≡ true
      → mpsc.is_closed c.tx ≡ false
      → length (mpsc.queued c.tx) + 2 ≤ mpsc.capacity c.tx
      → (holds r id ch ≡ false)
        × (s : Registry Tx) × (c' : Connection Tx) × (rest : List Frame) × Among PublishesOnce id
            config.max_subscriptions
            (handle_subscribe services claims channels)
            r
            s
            none
        × (HashMap.get id s.connections ≡ some c')
        × (mpsc.queued c'.tx
            ≡ mpsc.queued c.tx ++ f ∷ acknowledgement services claims r id channels ∷ rest)
  overtakes c v e new open_c room =
      let (subs, got) = acked-get c v e new in
      let ack = acknowledgement services claims r id channels in
      let one = after_delivery f (record c { subscriptions = subs }) in
      let two = after_delivery ack one in
      let frames = snapshot_frames services claims (answer services claims r id channels).1 in
      let (q1, cap1, open1) =
        room-delivery f (record c { subscriptions = subs }) open_c (ground (arith, room)) in
      let (q2, cap2, open2) =
        room-delivery ack one open1
          (ground (arith, room, q1, cap1, length-append (mpsc.queued c.tx) (f ∷ []))) in
      let (rest, q3) = deliveries-extend frames two in
      (
        subscribe-new r id (permitted services claims channels) config.max_subscriptions v ch new,
        (run id config.max_subscriptions rest_of acked_r).0,
        after_deliveries frames two,
        rest,
        subst
            (λ b.
              Among PublishesOnce id config.max_subscriptions
                (handle_subscribe services claims channels) r
                (run id config.max_subscriptions rest_of acked_r).0 b)
            (ap (λ x. x.1) rest-none) overtaken,
        ground (
          arith,
          rest-none,
          got,
          send_snapshots-get services claims id config.max_subscriptions
              (answer services claims r id channels).1 acked_r,
        ),
        q3
            ∙ ap (λ qs. qs ++ rest) (q2 ∙ ap (λ qs. qs ++ ack ∷ []) q1)
            ∙ append_assoc (mpsc.queued c.tx ++ f ∷ []) (ack ∷ []) rest
            ∙ append_assoc (mpsc.queued c.tx) (f ∷ []) (ack ∷ rest),
      )
