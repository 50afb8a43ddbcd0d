-- ===== src/Registry/Reach.antt =====
-- Histories of src/registry.rs: any number of connections and publishers, in any order of their calls,
-- each taken as one step. Calls that only read the lock can run at once; a `publish` is then the
-- `send`s of its loop, which are steps of their own. Ids are taken not to run out.
use ws_fanout.Prelude.{
  ℕ, ◌+◌, ◌≤◌, ◌<◌, ◌≡◌, refl, some, String, List, [], ◌∷◌, arith, length, nat_eq, string_eq,
  u64_mod,
}
use ws_fanout.Collections.HashMap
use ws_fanout.Collections.HashMap.{HashMap}
use ws_fanout.Protocol.{Frame}
use ws_fanout.Mpsc.{Mpsc}
use ws_fanout.Registry.{
  Registry, Connection, ConnectionId, no_metrics, new, add, remove, subscribe, unsubscribe,
}
use ws_fanout.Registry.Deliveries.{send, publish, broadcast}
use ws_fanout.Registry.Keeps.{
  count_timeout-Keeps, count_refused-Keeps, Keeps-IsValid, send-Keeps, publish-Keeps,
  broadcast-Keeps,
}
use ws_fanout.Registry.Invariant.{
  IsValid, new-IsValid, add-IsValid, remove-IsValid, subscribe-IsValid, unsubscribe-IsValid,
}
use ws_fanout.Registry.Counters.{count_timeout, count_refused}
use ws_fanout.Registry.Receiver.{with_tx, receive, hang_up}
use ws_fanout.Registry.Receiver.Keeps.{with_tx-Keeps, receive-with_tx, hang_up_cases, hang_up-Keeps}
use ws_fanout.Registry.Within.{
  IsWithin, AllWithin, add-AllWithin, remove-AllWithin, send-AllWithin, publish-AllWithin,
  broadcast-AllWithin, subscribe-AllWithin, unsubscribe-AllWithin, with_tx-AllWithin,
}

module _ {Tx : Type 0} ⦃mpsc : Mpsc Tx⦄ (max cap : ℕ) where
  -- `max` is `Config::max_subscriptions`, `cap` is `Config::send_queue`.
  pub data Step (r : Registry Tx) : Registry Tx → Type 0 where
    joins :
        (subject : String) → r.next_id + 1 < u64_mod → Step r (add r subject (mpsc.channel cap)).0
    leaves : (id : ConnectionId) → Step r (remove r id)
    subscribes : (id : ConnectionId) (chs : List String) → Step r (subscribe r id chs max).0
    unsubscribes : (id : ConnectionId) (chs : List String) → Step r (unsubscribe r id chs).0
    publishes : (ch : String) (f : Frame) → Step r (publish r ch f).0
    broadcasts : (f : Frame) → Step r (broadcast r f).0
    sends : (id : ConnectionId) (f : Frame) → Step r (send r id f).0
    receives :
        (id : ConnectionId) (f : Frame) {s : Registry Tx} → receive r id ≡ some (f, s) → Step r s
    hangs_up : (id : ConnectionId) → Step r (hang_up r id)
    times_out : Step r (count_timeout r)
    refuses : Step r (count_refused r)

  -- Any number of steps.
  pub data Steps (r : Registry Tx) : Registry Tx → Type 0 where
    stay : Steps r r
    next : {s t : Registry Tx} → Steps r s → Step s t → Steps r t

  pub data Reach : Registry Tx → Type 0 where
    start : Reach (new no_metrics)
    later : {r s : Registry Tx} → Reach r → Step r s → Reach s

  recv-shrinks :
      (t u : Tx) (f : Frame) (fs : List Frame)
      → mpsc.recv t ≡ some (f, u)
      → mpsc.queued t ≡ fs
      → (mpsc.capacity u ≡ mpsc.capacity t) × (length (mpsc.queued u) ≤ length fs)
  recv-shrinks t u f [] e q = absurd (ground (arith, mpsc.recv_empty t q))
  recv-shrinks t u f (g ∷ fs) e q =
      let (u', got, rest, same, _) = mpsc.recv_next t g fs q in ground (arith, got, rest, same)

  pub Step-IsValid : {r s : Registry Tx} → Step r s → IsValid r → IsValid s
  unfolding count_timeout count_refused
  Step-IsValid {r} (joins subject room) v = add-IsValid r subject (mpsc.channel cap) room v
  Step-IsValid {r} (leaves id) v = remove-IsValid r id v
  Step-IsValid {r} (subscribes id chs) v = subscribe-IsValid r id chs max v
  Step-IsValid {r} (unsubscribes id chs) v = unsubscribe-IsValid r id chs v
  Step-IsValid {r} (publishes ch f) v = Keeps-IsValid r (publish r ch f).0 (publish-Keeps r ch f) v
  Step-IsValid {r} (broadcasts f) v = Keeps-IsValid r (broadcast r f).0 (broadcast-Keeps r f) v
  Step-IsValid {r} (sends id f) v = Keeps-IsValid r (send r id f).0 (send-Keeps r id f) v
  Step-IsValid {r} {s} (receives id f e) v =
      let (c, t, known, _, q) = receive-with_tx r s id f e in
      rw q (Keeps-IsValid r (with_tx r id c t) (with_tx-Keeps r id c t known) v)
  Step-IsValid {r} (hangs_up id) v = Keeps-IsValid r (hang_up r id) (hang_up-Keeps r id) v
  Step-IsValid {r} times_out v = Keeps-IsValid r (count_timeout r) (count_timeout-Keeps r) v
  Step-IsValid {r} refuses v = Keeps-IsValid r (count_refused r) (count_refused-Keeps r) v

  pub Step-AllWithin :
      {r s : Registry Tx}
      → Step r s
      → IsValid r
      → AllWithin max cap r.connections
      → AllWithin max cap s.connections
  unfolding count_timeout count_refused
  Step-AllWithin {r} (joins subject room) v h = add-AllWithin max cap r subject h
  Step-AllWithin {r} (leaves id) v h = remove-AllWithin max cap r id h
  Step-AllWithin {r} (subscribes id chs) v h = subscribe-AllWithin max cap r id chs v h
  Step-AllWithin {r} (unsubscribes id chs) v h = unsubscribe-AllWithin max cap r id chs h
  Step-AllWithin {r} (publishes ch f) v h = publish-AllWithin max cap r ch f h
  Step-AllWithin {r} (broadcasts f) v h = broadcast-AllWithin max cap r f h
  Step-AllWithin {r} (sends id f) v h = send-AllWithin max cap r id f h
  Step-AllWithin {r} {s} (receives id f e) v h =
      let (c, t, known, got, q) = receive-with_tx r s id f e in
      let (same, less) = recv-shrinks c.tx t f (mpsc.queued c.tx) got refl in
      rw q (with_tx-AllWithin max cap r id c t known same less h)
  Step-AllWithin {r} (hangs_up id) v h =
      hang_up_cases (λ s. AllWithin max cap s.connections) r id h
        λ c known.
          let (_, same, empty) = mpsc.close_lem c.tx in
          with_tx-AllWithin max cap r id c (mpsc.close c.tx) known same (ground (arith, empty)) h
  Step-AllWithin {r} times_out v h = h
  Step-AllWithin {r} refuses v h = h

  pub Steps-Reach : {r s : Registry Tx} → Reach r → Steps r s → Reach s
  Steps-Reach reach stay = reach
  Steps-Reach reach (next before st) = later (Steps-Reach reach before) st

  pub Steps-trans : {r s t : Registry Tx} → Steps r s → Steps s t → Steps r t
  Steps-trans before stay = before
  Steps-trans before (next after st) = next (Steps-trans before after) st

  -- Whatever calls connections and publishers make, in whatever order, the registry is valid: the
  -- channel index and the connections' sets say the same, neither has doubles or empty sets, ids
  -- from next_id on are unused, and connections_active is the number of connections (mod 2^64).
  -- Ids are taken not to run out.
  pub Reach-IsValid : {r : Registry Tx} → Reach r → IsValid r
  Reach-IsValid start = new-IsValid
  Reach-IsValid (later reach st) = Step-IsValid st (Reach-IsValid reach)

  pub Reach-AllWithin : {r : Registry Tx} → Reach r → AllWithin max cap r.connections
  unfolding new HashMap.get
  Reach-AllWithin start = λ id c e. ground arith
  Reach-AllWithin (later reach st) = Step-AllWithin st (Reach-IsValid reach) (Reach-AllWithin reach)

  -- Whatever calls are made, in whatever order, a connection that is in the registry has a queue
  -- of capacity send_queue with no more frames than that, and at most max_subscriptions channels.
  -- Ids are taken not to run out.
  pub Reach-IsWithin :
      {r : Registry Tx} (id : ConnectionId) (c : Connection Tx)
      → Reach r
      → HashMap.get id r.connections ≡ some c
      → IsWithin max cap c
  Reach-IsWithin id c reach e = Reach-AllWithin reach id c e
