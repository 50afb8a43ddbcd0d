-- ===== src/Registry/Queues.antt =====
-- The bounded queues under delivery, src/registry.rs: what `deliver` does on each answer of the
-- channel, the drop streak, and the counters.
use ws_fanout.Prelude.{
  ℕ, ◌+◌, ◌≤◌, ◌<◌, ◌≡◌, some, String, List, [], ◌∷◌, ◌++◌, arith, if◌then◌else◌, length,
  Option-cases, inl, inr, nat_eq, string_eq, wrapping_add, u64_mod, wrapping_add_exact,
  wrapping_add-lt, ==_refl, length-append,
}
use ws_fanout.Collections.HashMap
use ws_fanout.Collections.HashMap.{HashMap}
use ws_fanout.Protocol.{Frame}
use ws_fanout.Mpsc.{Mpsc, TrySend, sent, full, closed}
use ws_fanout.Registry.{Registry, Connection, ConnectionId, Metrics, drops}
use ws_fanout.Registry.Deliveries.{deliver, send, publish, publish_loop}
use ws_fanout.Registry.Deliver.{verdict, after_delivery, send-get, try_send-verdict}

-- What `deliver` makes of the counters and the connection, by the channel's answer.
abbrev pub Settled :
    {Tx : Type 0} ⦃mpsc : Mpsc Tx⦄
    → TrySend
    → Metrics
    → Connection Tx
    → Frame
    → Metrics
    → Connection Tx
    → Type 0
Settled ⦃mpsc⦄ sent m c f m' c' =
    (mpsc.queued c'.tx ≡ mpsc.queued c.tx ++ f ∷ [])
    × (c'.dropped ≡ 0)
    × (m' ≡ record m { frames_sent = wrapping_add m.frames_sent 1 })
Settled ⦃mpsc⦄ full m c f m' c' =
    (c' ≡ record c { dropped = wrapping_add c.dropped 1 })
    × (m' ≡ record m { frames_dropped = wrapping_add m.frames_dropped 1 })
Settled ⦃mpsc⦄ closed m c f m' c' = (c' ≡ c) × (m' ≡ m)

-- What one delivery makes of the streak.
unfoldable pub streak : TrySend → ℕ → ℕ
streak sent n = 0
streak full n = wrapping_add n 1
streak closed n = n

wrapping_add_assoc : (a n : ℕ) → wrapping_add (wrapping_add a 1) n ≡ wrapping_add a (1 + n)
unfolding wrapping_add
wrapping_add_assoc a n = omega arith

module _ {Tx : Type 0} ⦃mpsc : Mpsc Tx⦄ where
  -- One delivery, by the state of the queue: with room, the frame goes to the end, the streak of
  -- drops is 0 and frames_sent grows; full, only the streak and frames_dropped grow; closed,
  -- nothing changes.
  pub deliver-Settled :
      (m : Metrics) (c : Connection Tx) (f : Frame)
      → Settled (verdict c.tx) m c f (deliver m c f).metrics (deliver m c f).connection
  unfolding deliver verdict
  deliver-Settled m c f =
      ground
        (arith, mpsc.try_send_closed c.tx f, mpsc.try_send_full c.tx f, mpsc.try_send_sent c.tx f)

  -- A delivery changes neither subject nor subscriptions, nor the size of the queue's bound.
  pub deliver-fixed :
      (c : Connection Tx) (f : Frame)
      → ((after_delivery f c).subject ≡ c.subject)
        × ((after_delivery f c).subscriptions ≡ c.subscriptions)
        × (mpsc.capacity (after_delivery f c).tx ≡ mpsc.capacity c.tx)
  unfolding after_delivery deliver
  deliver-fixed c f =
      ground
        (arith, mpsc.try_send_closed c.tx f, mpsc.try_send_full c.tx f, mpsc.try_send_sent c.tx f)

  pub deliver-bounded :
      (c : Connection Tx) (f : Frame)
      → length (mpsc.queued c.tx) ≤ mpsc.capacity c.tx
      → length (mpsc.queued (after_delivery f c).tx) ≤ mpsc.capacity (after_delivery f c).tx
  unfolding after_delivery deliver
  deliver-bounded c f h = ground (
    arith,
    mpsc.try_send_closed c.tx f,
    mpsc.try_send_full c.tx f,
    mpsc.try_send_sent c.tx f,
    length-append (mpsc.queued c.tx) (f ∷ []),
  )

  -- For a connection of the registry, send makes the streak of drops 0 where the queue has room,
  -- one more (mod 2^64) where it is full, and leaves it where the queue is closed.
  drops-send :
      (r : Registry Tx) (id : ConnectionId) (c : Connection Tx) (f : Frame)
      → HashMap.get id r.connections ≡ some c
      → drops (send r id f).0 id ≡ streak (verdict c.tx) (drops r id)
  unfolding drops streak after_delivery deliver
  drops-send r id c f e = ground (arith, e, send-get r id id f, ==_refl id, try_send-verdict c.tx f)

  -- The counters after a call that put `n` frames into queues.
  send-frames_sent :
      (r : Registry Tx) (id : ConnectionId) (f : Frame)
      → (send r id f).0.metrics.frames_sent
        ≡ (if (send r id f).1 then wrapping_add r.metrics.frames_sent 1 else r.metrics.frames_sent)
  unfolding send deliver
  send-frames_sent r id f = ground arith

  publish_loop-frames_sent :
      (f : Frame) (ids : List ConnectionId) (r : Registry Tx)
      → r.metrics.frames_sent < u64_mod
      → (publish_loop f ids r).0.metrics.frames_sent
        ≡ wrapping_add r.metrics.frames_sent (publish_loop f ids r).1
  unfolding publish_loop
  publish_loop-frames_sent f [] r h = ground (arith, wrapping_add_exact r.metrics.frames_sent 0)
  publish_loop-frames_sent f (id ∷ ids) r h = ground (
    arith,
    publish_loop-frames_sent f ids (send r id f).0,
    send-frames_sent r id f,
    wrapping_add-lt r.metrics.frames_sent 1,
    wrapping_add_assoc r.metrics.frames_sent (publish_loop f ids (send r id f).0).1,
  )

  -- If frames_sent is below 2^64, publish adds to it what it returns (mod 2^64).
  publish-frames_sent :
      (r : Registry Tx) (ch : String) (f : Frame)
      → r.metrics.frames_sent < u64_mod
      → (publish r ch f).0.metrics.frames_sent
        ≡ wrapping_add r.metrics.frames_sent (publish r ch f).1
  unfolding publish
  publish-frames_sent r ch f h = elim (Option-cases (HashMap.get ch r.by_channel)) [
    | inl e ↦ ground (arith, e, wrapping_add_exact r.metrics.frames_sent 0)
    | inr (ids, e) ↦ ground (arith, e, publish_loop-frames_sent f ids r)
  ]
