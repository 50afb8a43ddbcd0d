-- ===== src/Server/Session/Stream.antt =====
-- The way of a frame from the queue to the socket: the loop of src/server.rs's `session` while it goes
-- on, the queue's receiving end its own, with other tasks between any two calls.
use ws_fanout.Prelude.{
  ℕ, ◌-◌, ◌≡◌, refl, true, false, Option, none, some, List, [], ◌∷◌, ◌++◌, arith, leb, ltb,
  Bool-cases, inl, inr, ◌∙◌, ap, sym, nat_eq, string_eq,
}
use mathlib.Core.List.{append-nil}
use ws_fanout.Auth.{Claims}
use ws_fanout.Protocol.{Frame, Message, to_message}
use ws_fanout.Server.Handle.{Services, handle}
use ws_fanout.Server.Session.{
  Write, written, timed_out, failed, ended, broken, received, Event, outbound, inbound, tick,
  Session, Flow, continue, finish, send_now, reply, on_message, on_inbound, on_outbound, on_tick,
  branch, check_drops, round,
}
use ws_fanout.Server.Session.Slow.{goes_on}
use ws_fanout.Server.Task.{ret, ◌>>=◌, ◌>>◌}
use ws_fanout.Server.Task.Yields.{Yields, >>=-Yields, Yields-all}

-- The text messages on the wire.
unfoldable pub texts : List Message → List Frame
texts [] = []
texts (Message.text t ∷ ms) = record { text = t } ∷ texts ms
texts (Message.binary _ ∷ ms) = texts ms
texts (Message.ping _ ∷ ms) = texts ms
texts (Message.pong _ ∷ ms) = texts ms
texts (Message.close ∷ ms) = texts ms
texts (Message.frame ∷ ms) = texts ms

texts-append : (ms ns : List Message) → texts (ms ++ ns) ≡ texts ms ++ texts ns
unfolding texts
texts-append [] ns = refl
texts-append (Message.text t ∷ ms) ns = ap (λ x. record { text = t } ∷ x) (texts-append ms ns)
texts-append (Message.binary _ ∷ ms) ns = texts-append ms ns
texts-append (Message.ping _ ∷ ms) ns = texts-append ms ns
texts-append (Message.pong _ ∷ ms) ns = texts-append ms ns
texts-append (Message.close ∷ ms) ns = texts-append ms ns
texts-append (Message.frame ∷ ms) ns = texts-append ms ns

-- The frame that the round takes from the queue.
unfoldable pub taken : {WsError : Type 0} → Event WsError → List Frame
taken (outbound none w) = []
taken (outbound (some f) w) = f ∷ []
taken (inbound i now w) = []
taken (tick now w) = []

module _ {IoError WsError : Type 0} where
  -- If the loop goes on, these texts have been written.
  abbrev Wrote : Session → List Frame → Session × Flow IoError WsError → Type 0
  Wrote s fs x = goes_on x.1 ≡ true → texts x.0.wire ≡ texts s.wire ++ fs

send_now-Wrote :
    {WsError : Type 0} (IoError : Type 0) (s : Session) (m : Message) (w : Write WsError)
    → Wrote {IoError = IoError} s (texts (m ∷ [])) (send_now s m w)
unfolding send_now goes_on
send_now-Wrote IoError s m written goes = texts-append s.wire (m ∷ [])
send_now-Wrote IoError s m timed_out goes = absurd (ground (arith, goes))
send_now-Wrote IoError s m (failed e) goes = absurd (ground (arith, goes))

module _ {IoError WsError RawValue Value : Type 0}
    (services : Services IoError WsError RawValue Value) (claims : Claims Value) where
  open services use {config}

  -- The state after a round that goes on.
  abbrev pub After : Session → List Frame → Session × Flow IoError WsError → Type 0
  After = Wrote

  reply-Wrote :
      (s s' : Session) (answer : Option Frame)
      → texts s'.wire ≡ texts s.wire
      → Yields (After s []) (reply answer >> ret (s', continue))
  unfolding ◌>>◌
  reply-Wrote s s' answer same =
      >>=-Yields (λ _. Unit {0}) (After s []) (reply answer) _
        (Yields-all _ (reply answer) (λ _. tt)) (λ _ _ _. same ∙ sym (append-nil (texts s.wire)))

  message-Wrote :
      (s : Session) (now : ℕ) (m : Message) (w : Write WsError)
      → Yields (After s []) (on_message services claims (record s { last_seen = now }) m w)
  unfolding on_message texts goes_on
  message-Wrote s now (Message.text t) w =
      >>=-Yields (λ _. Unit {0}) (After s []) (handle services claims t) _
        (Yields-all _ (handle services claims t) (λ _. tt))
        (λ answer _. reply-Wrote s (record s { last_seen = now }) answer refl)
  message-Wrote s now (Message.ping payload) w =
      send_now-Wrote IoError (record s { last_seen = now }) (Message.pong payload) w
  message-Wrote s now (Message.pong payload) w = λ _. sym (append-nil (texts s.wire))
  message-Wrote s now Message.close w = λ goes. absurd (ground (arith, goes))
  message-Wrote s now (Message.binary payload) w = λ _ _. sym (append-nil (texts s.wire))
  message-Wrote s now Message.frame w = λ _. sym (append-nil (texts s.wire))

  tick-Wrote :
      (s : Session) (now : ℕ) (w : Write WsError)
      → Yields (After s []) (on_tick services claims s now w)
  unfolding on_tick ◌>>=◌ ◌>>◌ texts goes_on
  tick-Wrote s now w = elim (Bool-cases (ltb config.heartbeat_timeout (now - s.last_seen))) [
    | inl late ↦ rw (late, on_tick) (λ (goes : false ≡ true). absurd (ground (arith, goes)))
    | inr heard ↦ rw (heard, on_tick) (send_now-Wrote IoError s (Message.ping []) w)
  ]

  branch-Wrote :
      (s : Session) (e : Event WsError) → Yields (After s (taken e)) (branch services claims s e)
  unfolding branch on_outbound on_inbound taken goes_on texts to_message
  branch-Wrote s (outbound none w) = λ goes. absurd (ground (arith, goes))
  branch-Wrote s (outbound (some f) w) = send_now-Wrote IoError s (to_message f) w
  branch-Wrote s (inbound ended now w) = λ goes. absurd (ground (arith, goes))
  branch-Wrote s (inbound (broken e) now w) = λ goes. absurd (ground (arith, goes))
  branch-Wrote s (inbound (received m) now w) = message-Wrote s now m w
  branch-Wrote s (tick now w) = tick-Wrote s now w

  check-Wrote :
      (s : Session) (fs : List Frame) (x : Session × Flow IoError WsError)
      → After s fs x
      → Yields (After s fs) (check_drops services claims x)
  unfolding check_drops goes_on
  check-Wrote s fs (s', finish result) h = h
  check-Wrote s fs (s', continue) h = λ n. elim (Bool-cases (leb config.max_consecutive_drops n)) [
    | inl many ↦ rw many (λ (goes : false ≡ true). absurd (ground (arith, goes)))
    | inr few ↦ rw few h
  ]

  pub round-Wrote :
      (s : Session) (e : Event WsError) → Yields (After s (taken e)) (round services claims s e)
  unfolding round
  round-Wrote s e =
      >>=-Yields (After s (taken e)) (After s (taken e)) (branch services claims s e)
        (check_drops services claims) (branch-Wrote s e) (check-Wrote s (taken e))
