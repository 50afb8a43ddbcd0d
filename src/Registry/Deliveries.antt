-- ===== src/Registry/Deliveries.antt =====
-- The delivery of frames in src/registry.rs: `deliver`, `send`, `publish` and `broadcast`.
use ws_fanout.Prelude.{
  ℕ, ◌+◌, Bool, true, false, none, some, String, List, [], ◌∷◌, if◌then◌else◌, wrapping_add, nat_eq,
  string_eq,
}
use ws_fanout.Collections.HashMap
use ws_fanout.Collections.HashMap.{HashMap, values}
use ws_fanout.Protocol.{Frame}
use ws_fanout.Mpsc.{Mpsc, TrySend, sent, full, closed}
use ws_fanout.Registry.{Registry, Connection, ConnectionId, Metrics}

-- What `deliver` leaves behind: the counters, the connection, and whether the frame was queued.
pub record Delivery (Tx : Type 0) : Type 0 where
  pub metrics : Metrics
  pub connection : Connection Tx
  pub received : Bool

module _ {Tx : Type 0} where
  -- The three arms of the match on `try_send`.
  settle : TrySend → Metrics → Connection Tx → Delivery Tx
  settle sent m c = record {
    metrics = record m { frames_sent = wrapping_add m.frames_sent 1 };
    connection = record c { dropped = 0 };
    received = true;
  }
  settle full m c = record {
    metrics = record m { frames_dropped = wrapping_add m.frames_dropped 1 };
    connection = record c { dropped = wrapping_add c.dropped 1 };
    received = false;
  }
  settle closed m c = record { metrics = m; connection = c; received = false }

  module _ ⦃mpsc : Mpsc Tx⦄ where
    unfoldable pub deliver : Metrics → Connection Tx → Frame → Delivery Tx
    unfolding settle
    deliver m c frame =
        let (outcome, tx) = mpsc.try_send c.tx frame in settle outcome m (record c { tx = tx })

    -- Deliver to one connection. It is also the body of the loop of `publish`.
    unfoldable pub send : Registry Tx → ConnectionId → Frame → Registry Tx × Bool
    send r id frame = elim (HashMap.get id r.connections) [
      | none ↦ (r, false)
      | some conn ↦
          let d = deliver r.metrics conn frame in
          (
            record r {
              inner = record r.inner { connections = HashMap.insert id d.connection r.connections };
              metrics = d.metrics;
            },
            d.received,
          )
    ]

    unfoldable pub publish_loop : Frame → List ConnectionId → Registry Tx → Registry Tx × ℕ
    publish_loop frame [] r = (r, 0)
    publish_loop frame (id ∷ ids) r =
        let (r', received) = send r id frame in
        let (r'', delivered) = publish_loop frame ids r' in
        (r'', if received then 1 + delivered else delivered)

    unfoldable pub publish : Registry Tx → String → Frame → Registry Tx × ℕ
    publish r channel frame = elim (HashMap.get channel r.by_channel) [
      | none ↦ (r, 0)
      | some ids ↦ publish_loop frame ids r
    ]

    unfoldable pub broadcast_loop :
        Frame
        → HashMap ConnectionId (Connection Tx)
        → Metrics
        → HashMap ConnectionId (Connection Tx) × Metrics × ℕ
    broadcast_loop frame [] m = ([], m, 0)
    broadcast_loop frame ((id, c) ∷ rest) m =
        let d = deliver m c frame in
        let (rest', m', n) = broadcast_loop frame rest d.metrics in
        ((id, d.connection) ∷ rest', m', if d.received then 1 + n else n)

    unfoldable pub broadcast : Registry Tx → Frame → Registry Tx × ℕ
    broadcast r frame =
        let (connections, metrics, n) = broadcast_loop frame r.connections r.metrics in
        (record r { inner = record r.inner { connections = connections }; metrics = metrics }, n)
