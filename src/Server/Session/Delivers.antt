-- ===== src/Server/Session/Delivers.antt =====
-- A frame from `publish` of src/registry.rs to the socket, by the loop of src/server.rs's `session`.
use ws_fanout.Prelude.{
  ℕ, zero, suc, ◌+◌, ◌<◌, ◌≡◌, refl, true, false, none, some, String, List, [], ◌∷◌, ◌++◌, map,
  arith, leb, length, ◌∙◌, ap, sym, nat_eq, string_eq, ==_refl, length-append,
}
use mathlib.Core.List.{append-nil, append_assoc}
use ws_fanout.Auth.{Claims}
use ws_fanout.Collections.HashMap
use ws_fanout.Protocol.{Frame, to_message}
use ws_fanout.Mpsc.{Mpsc, sent}
use ws_fanout.Registry.{Registry, Connection, ConnectionId, no_metrics}
use ws_fanout.Registry
use ws_fanout.Registry.Deliver.{verdict, after_delivery}
use ws_fanout.Registry.Deliveries.{publish}
use ws_fanout.Registry.Invariant.{IsValid}
use ws_fanout.Registry.Publish.{publish-get}
use ws_fanout.Registry.Queues.{deliver-Settled}
use ws_fanout.Registry.Receiver.{receive, with_tx}
use ws_fanout.Registry.Stream.{queue_of, waiting}
use ws_fanout.Registry.Subscriptions.{holds}
use ws_fanout.Server.Handle.{Services}
use ws_fanout.Server.Session.{
  written, outbound, Session, Flow, continue, finish, send_now, on_outbound, branch, check_drops,
  round,
}
use ws_fanout.Server.Task.{run, ◌>>=◌}

module _ {IoError WsError RawValue Value : Type 0} {Tx : Type 0} ⦃mpsc : Mpsc Tx⦄
    (services : Services IoError WsError RawValue Value) (claims : Claims Value) (id : ConnectionId)
    (max : ℕ) where
  open services use {config}

  -- After a round the loop goes on, unless it has ended.
  goes_round :
      (Session → Registry Tx → Registry Tx × Session × Flow IoError WsError)
      → Registry Tx × (Session × Flow IoError WsError)
      → Registry Tx × Session × Flow IoError WsError
  goes_round rest (r, (s, continue)) = rest s r
  goes_round rest (r, (s, finish result)) = (r, s, finish result)

  -- So many rounds of the loop that each take the next frame of the queue, if there is one, and whose
  -- writes succeed.
  unfoldable pub pump : ℕ → Session → Registry Tx → Registry Tx × Session × Flow IoError WsError
  unfolding goes_round
  pump zero s r = (r, s, continue)
  pump (suc n) s r = elim (receive r id) [
    | none ↦ (r, s, continue)
    | some (f, m) ↦
        goes_round (pump n) (run id max (round services claims s (outbound (some f) written)) m)
  ]

  outbound-round :
      (s : Session) (f : Frame) (r : Registry Tx)
      → leb config.max_consecutive_drops (Registry.drops r id) ≡ false
      → run id max (round services claims s (outbound (some f) written)) r
        ≡ (r, (record s { wire = s.wire ++ to_message f ∷ [] }, continue))
  unfolding run round branch on_outbound send_now check_drops ◌>>=◌
  outbound-round s f r h = ground (arith, h)

  -- The rounds write out the queue, in order.
  pump-queue :
      (fs : List Frame) (s : Session) (r : Registry Tx) (c : Connection Tx)
      → HashMap.get id r.connections ≡ some c
      → mpsc.queued c.tx ≡ fs
      → leb config.max_consecutive_drops c.dropped ≡ false
      → ((pump (length fs) s r).2 ≡ continue)
        × ((pump (length fs) s r).1.wire ≡ s.wire ++ map to_message fs)
        × (queue_of id (pump (length fs) s r).0 ≡ [])
  unfolding pump goes_round
  pump-queue [] s r c known q h =
      (refl, sym (append-nil s.wire), unfold waiting in ground (arith, known, q))
  pump-queue (f ∷ fs) s r c known q h =
      let (u, got, rest, _, _) = mpsc.recv_next c.tx f fs q in
      let m = with_tx r id c u in
      let s' = record s { wire = s.wire ++ to_message f ∷ [] } in
      let there : HashMap.get id m.connections ≡ some (record c { tx = u }) =
        unfold with_tx in
        ground (arith, HashMap.get-insert id id (record c { tx = u }) r.connections, ==_refl id) in
      let next : receive r id ≡ some (f, m) = unfold receive in ground (arith, known, got) in
      let one = outbound-round s f m (unfold Registry.drops in ground (arith, there, h)) in
      let (goes, wire, empty) = pump-queue fs s' m (record c { tx = u }) there rest h in
      let step : pump (suc (length fs)) s r ≡ pump (length fs) s' m =
        rw (next, pump) (ap (goes_round (pump (length fs))) one) in
      rw step (goes, wire ∙ append_assoc s.wire (to_message f ∷ []) (map to_message fs), empty)

  -- For a connection of a valid registry that holds the channel and whose queue is open and has
  -- room: after publish and as many rounds of its session's loop as its queue then has frames,
  -- each taking the next frame and with a successful write, and with no other task in between, the
  -- loop goes on, every frame that was waiting and then the published one has been written to the
  -- socket, and the queue is empty. max_consecutive_drops is not zero.
  pub publish-pump :
      (s : Session) (ch : String) (f : Frame) (r : Registry Tx) (c : Connection Tx)
      → IsValid r
      → HashMap.get id r.connections ≡ some c
      → holds r id ch ≡ true
      → verdict c.tx ≡ sent
      → 0 < config.max_consecutive_drops
      → let (r', s', flow) = pump (length (mpsc.queued c.tx) + 1) s (publish r ch f).0 in
        (flow ≡ continue)
        × (s'.wire ≡ s.wire ++ map to_message (mpsc.queued c.tx ++ f ∷ []))
        × (queue_of id r' ≡ [])
  unfolding after_delivery
  publish-pump s ch f r c v known held room some_drops =
      let settled = deliver-Settled no_metrics c f in
      let (queue, streak, _) = rw room at settled in
      let there : HashMap.get id (publish r ch f).0.connections ≡ some (after_delivery f c) =
        ground (arith, publish-get r ch f id v, held, known) in
      let enough : length (mpsc.queued c.tx ++ f ∷ []) ≡ length (mpsc.queued c.tx) + 1 =
        length-append (mpsc.queued c.tx) (f ∷ []) in
      rw (sym enough) (
        pump-queue (mpsc.queued c.tx ++ f ∷ []) s (publish r ch f).0 (after_delivery f c) there
          queue (ground (arith, streak, some_drops)))
