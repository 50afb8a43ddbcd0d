-- ===== src/Server/Session/Permits.antt =====
-- Which channels `session` of src/server.rs asks the registry for.
use ws_fanout.Prelude.{
  ℕ, ◌-◌, ◌≡◌, true, Option, none, some, String, List, [], ◌∷◌, leb, ltb, Bool-cases, inl, inr, ◌⊎◌,
  nat_eq, string_eq,
}
use ws_fanout.Auth.{Claims}
use ws_fanout.Protocol.{Message, Frame}
use ws_fanout.Mpsc.{Mpsc}
use ws_fanout.Registry.{Registry, ConnectionId}
use ws_fanout.Registry.Invariant.{IsValid}
use ws_fanout.Registry.Subscriptions.{holds}
use ws_fanout.Server.Handle.{Services, handle}
use ws_fanout.Server.Handle.Permits.{Permitted, handle-Asks}
use ws_fanout.Server.Session.{
  Event, outbound, inbound, tick, ended, broken, received, Write, Session, Flow, continue, finish,
  reply, on_message, on_tick, branch, check_drops, round, session,
}
use ws_fanout.Server.Task.{ret, run, ◌>>=◌, ◌>>◌}
use ws_fanout.Server.Task.Asks.{Asks, >>=-Asks, run-Asks}

reply-Asks : (P : String → Type 0) (answer : Option Frame) → Asks P (reply answer)
unfolding reply
reply-Asks P none = tt
reply-Asks P (some frame) = λ x. tt

module _ {IoError WsError RawValue Value : Type 0}
    (services : Services IoError WsError RawValue Value) (claims : Claims Value) where
  on_message-Asks :
      (s : Session) (m : Message) (w : Write WsError)
      → Asks (Permitted services claims) (on_message services claims s m w)
  unfolding on_message
  on_message-Asks s (Message.text t) w =
      >>=-Asks (Permitted services claims) (handle services claims t) _
        (handle-Asks services claims t)
        (λ answer.
          >>=-Asks (Permitted services claims) (reply answer) _
            (reply-Asks (Permitted services claims) answer) (λ x. tt))
  on_message-Asks s (Message.ping payload) w = tt
  on_message-Asks s (Message.pong payload) w = tt
  on_message-Asks s Message.close w = tt
  on_message-Asks s (Message.binary payload) w = λ x. tt
  on_message-Asks s Message.frame w = tt

  on_tick-Asks :
      (s : Session) (now : ℕ) (w : Write WsError)
      → Asks (Permitted services claims) (on_tick services claims s now w)
  unfolding on_tick
  on_tick-Asks s now w =
      elim (Bool-cases (ltb services.config.heartbeat_timeout (now - s.last_seen))) [
        | inl late ↦ rw (late, on_tick) tt
        | inr heard ↦ rw (heard, on_tick) tt
      ]

  branch-Asks :
      (s : Session) (e : Event WsError)
      → Asks (Permitted services claims) (branch services claims s e)
  unfolding branch
  branch-Asks s (outbound none w) = tt
  branch-Asks s (outbound (some frame) w) = tt
  branch-Asks s (inbound ended now w) = tt
  branch-Asks s (inbound (broken e) now w) = tt
  branch-Asks s (inbound (received m) now w) = on_message-Asks (record s { last_seen = now }) m w
  branch-Asks s (tick now w) = on_tick-Asks s now w

  check_drops-Asks :
      (x : Session × Flow IoError WsError)
      → Asks (Permitted services claims) (check_drops services claims x)
  unfolding check_drops ◌>>=◌ ◌>>◌
  check_drops-Asks (s, continue) = λ n.
      elim (Bool-cases (leb services.config.max_consecutive_drops n)) [
        | inl many ↦ rw many tt
        | inr few ↦ rw few tt
      ]
  check_drops-Asks (s, finish result) = tt

  round-Asks :
      (s : Session) (e : Event WsError)
      → Asks (Permitted services claims) (round services claims s e)
  unfolding round
  round-Asks s e =
      >>=-Asks (Permitted services claims) (branch services claims s e)
        (check_drops services claims) (branch-Asks s e) check_drops-Asks

  pub session-Asks :
      (events : List (Event WsError)) (s : Session)
      → Asks (Permitted services claims) (session services claims events s)
  unfolding session
  session-Asks [] s = tt
  session-Asks (event ∷ events) s =
      >>=-Asks (Permitted services claims) (round services claims s event) _ (round-Asks s event)
        (go (session-Asks events))
    where
      go :
          ((s' : Session) → Asks (Permitted services claims) (session services claims events s'))
          → (x : Session × Flow IoError WsError)
          → Asks (Permitted services claims) (elim x.1 [
            | continue ↦ session services claims events x.0
            | finish result ↦ ret (x.0, finish result)
          ])
      go rest (s', continue) = rest s'
      go rest (s', finish result) = tt

module _ {Tx : Type 0} ⦃mpsc : Mpsc Tx⦄ {IoError WsError RawValue Value : Type 0}
    (services : Services IoError WsError RawValue Value) (claims : Claims Value) where
  -- In a valid registry, what any connection holds after one session has run, whatever its client
  -- sent and however it ends, it held before, or it is the session's own and the channel is short
  -- enough and let through by the authorizer.
  session-Permitted :
      (id : ConnectionId) (events : List (Event WsError)) (s : Session) (r : Registry Tx)
      (j : ConnectionId) (d : String)
      → IsValid r
      → holds (run id services.config.max_subscriptions (session services claims events s) r).0 j d
        ≡ true
      → (holds r j d ≡ true) ⊎ ((j ≡ id) × Permitted services claims d)
  session-Permitted id events s r j d v h =
      run-Asks id services.config.max_subscriptions (Permitted services claims)
        (session services claims events s) r j d (session-Asks services claims events s) v h
