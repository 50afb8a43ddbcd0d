-- ===== src/Server/System/Refines.antt =====
-- The server with its tasks' code against the counts of src/server.rs's `serve`, and what is left when
-- no task is.
use ws_fanout.Prelude.{
  ltb→lt, ◌+◌, ◌<◌, List, [], ◌∷◌, arith, ltb, length, Bool-cases, Option-cases, inl, inr, ◌∙◌, sym,
  nat_eq, string_eq, u64_mod, Result-cases,
}
use ws_fanout.Auth.{Claims}
use ws_fanout.Mpsc.{Mpsc}
use ws_fanout.Registry.{Registry, Connection, ConnectionId}
use ws_fanout.Registry.Calls.{received}
use ws_fanout.Registry.Receiver.{receive}
use ws_fanout.Registry
use ws_fanout.Server.Connection.{opening}
use ws_fanout.Server.Handle.{Services}
use ws_fanout.Server.Serve.{Semaphore, Running, Moves, Move, start, later, Serves, Call}
use ws_fanout.Server.Serve
use ws_fanout.Server.Session.{Session, Flow, continue, finish}
use ws_fanout.Server.System.{
  System, Action, connects, releases, opens, calls, takes, aborts, departs, publishes, broadcasts,
  boot, proceed, opened, called, frame_taken, aborted, departed, enact, enacts,
}
use ws_fanout.Server.System.Calls.{stage-cases}
use ws_fanout.Server.System.Coherent.{IsCoherent, enact-IsCoherent, enact-ids, boot-IsCoherent}
use ws_fanout.Server.Task.{
  Task, ret, subscribe, unsubscribe, send, drops, heartbeat_timeout, close_sink,
}

module _ {Tx Sem : Type 0} ⦃mpsc : Mpsc Tx⦄ ⦃semaphore : Semaphore Sem⦄ where
  -- At most one move.
  one : {v w : Running Tx Sem} → Move v w → Moves v w
  one m = later start m

  Moves-trans : {u v w : Running Tx Sem} → Moves u v → Moves v w → Moves u w
  Moves-trans before start = before
  Moves-trans before (later after m) = later (Moves-trans before after) m

  -- A call that is one of the registry's, on a running server.
  called-Moves :
      (w : Running Tx Sem) {r : Registry Tx}
      → Call w.registry r
      → Moves w (record w { registry = r })
  called-Moves w c = one (Move.calls c)

  received-Moves :
      (w : Running Tx Sem) (id : ConnectionId)
      → Moves w (record w { registry = received w.registry id })
  unfolding received
  received-Moves w id = elim (Option-cases (receive w.registry id)) [
    | inl e ↦ rw (e, received) start
    | inr ((f, r), e) ↦ rw (e, received) (called-Moves w (Call.receives id f e))
  ]

module _ {Tx Sem IoError WsError RawValue Value : Type 0} ⦃mpsc : Mpsc Tx⦄
    ⦃semaphore : Semaphore Sem⦄ (services : Services IoError WsError RawValue Value) where
  open services use {config}

  proceed-Moves :
      (id : ConnectionId) (claims : Claims Value) (t : Task (Session × Flow IoError WsError))
      (w : Running Tx Sem)
      → Moves w (record w { registry = (proceed services id claims t w.registry).0 })
  unfolding proceed
  proceed-Moves id claims (ret (s, continue)) w = start
  proceed-Moves id claims (ret (s, finish result)) w = called-Moves w (Call.hangs_up id)
  proceed-Moves id claims (subscribe chs k) w =
      called-Moves w (Call.subscribes id chs config.max_subscriptions)
  proceed-Moves id claims (unsubscribe chs k) w = called-Moves w (Call.unsubscribes id chs)
  proceed-Moves id claims (send frame k) w = called-Moves w (Call.sends id frame)
  proceed-Moves id claims (drops k) w = start
  proceed-Moves id claims (close_sink t) w = start
  proceed-Moves id claims (heartbeat_timeout t) w = called-Moves w Call.times_out

  enact-Moves :
      (a : Action WsError) (s : System Tx Sem IoError WsError Value)
      → s.registry.next_id + 1 < u64_mod
      → IsCoherent services s
      → Moves s.running (enact services a s).running
  unfolding enact
  enact-Moves connects s room h = one Move.accepts
  enact-Moves releases s room h = elim (Bool-cases (ltb 0 s.leaving)) [
    | inl some_left ↦ rw (some_left, enact) (one (Move.drops_permit (ltb→lt 0 _ some_left)))
    | inr none_left ↦ rw (none_left, enact) start
  ]
  enact-Moves (opens p) s room h = elim (Bool-cases (ltb 0 s.entering)) [
    | inl some_task ↦ elim (Result-cases (opening services p.handshake p.first p.answer).1) [
      | inl (claims, e) ↦
          unfold opened in
          rw (some_task, e, enact, opened)
            (one (
              Move.joins claims.subject (mpsc.channel config.send_queue) (ltb→lt 0 _ some_task)
                room))
      | inr (x, e) ↦
          unfold opened in
          rw (some_task, e, enact, opened) (one (Move.fails (ltb→lt 0 _ some_task)))
    ]
    | inr no_task ↦ rw (no_task, enact) start
  ]
  enact-Moves (calls id) s room h = elim (stage-cases services id s) [
    | inl e ↦ unfold called in rw (e, called) start
    | inr (inl (claims, e)) ↦ unfold called in rw (e, called) start
    | inr (inr (claims, t, e)) ↦
        unfold called in rw (e, called) (proceed-Moves id claims t s.running)
  ]
  enact-Moves (takes id) s room h = elim (stage-cases services id s) [
    | inl e ↦ unfold frame_taken in rw (e, frame_taken) start
    | inr (inl (claims, e)) ↦ unfold frame_taken in rw (e, frame_taken) start
    | inr (inr (claims, t, e)) ↦
        unfold frame_taken in rw (e, frame_taken) (received-Moves s.running id)
  ]
  enact-Moves (aborts id) s room h = elim (stage-cases services id s) [
    | inl e ↦ unfold aborted in rw (e, aborted) start
    | inr (inl (claims, e)) ↦ unfold aborted in rw (e, aborted) start
    | inr (inr (claims, t, e)) ↦
        unfold aborted in rw (e, aborted) (called-Moves s.running (Call.hangs_up id))
  ]
  enact-Moves (departs id) s room h = elim (stage-cases services id s) [
    | inl e ↦ unfold departed in rw (e, departed) start
    | inr (inl (claims, e)) ↦
        unfold departed in
        rw (e, departed) (one (Move.leaves id (sym (h.same id) ∙ ground (arith, e))))
    | inr (inr (claims, t, e)) ↦ unfold departed in rw (e, departed) start
  ]
  enact-Moves (publishes ch f) s room h = called-Moves s.running (Call.publishes ch f)
  enact-Moves (broadcasts f) s room h = called-Moves s.running (Call.broadcasts f)

  enacts-Moves :
      (actions : List (Action WsError)) (s : System Tx Sem IoError WsError Value)
      → s.registry.next_id + length actions < u64_mod
      → IsCoherent services s
      → Moves s.running (enacts services actions s).running
  unfolding enacts
  enacts-Moves [] s room h = start
  enacts-Moves (a ∷ actions) s room h =
      let fits : s.registry.next_id + 1 < u64_mod = omega (arith, room) in
      Moves-trans (enact-Moves a s fits h) (
        enacts-Moves actions (enact services a s) (omega (arith, room, enact-ids services a s fits))
          (enact-IsCoherent services a s fits h))

  -- After any actions of a server from its start, its registry, permits and counts of tasks are
  -- what moves of the accept loop's relation make from its start with max_connections permits. The
  -- number of actions and 1 are together below 2^64.
  pub enacts-Serves :
      (actions : List (Action WsError))
      → 1 + length actions < u64_mod
      → Serves config.max_connections
          (enacts {Tx = Tx} {Sem = Sem} services actions (boot services)).running
  unfolding boot
  enacts-Serves actions room =
      enacts-Moves actions (boot services) (unfold boot Serve.started Registry.new in room)
        (boot-IsCoherent services)
