-- ===== src/Server/Session/Ends.antt =====
-- A client that is silent, in the loop of src/server.rs's `session`.
use ws_fanout.Prelude.{
  ℕ, ◌-◌, ◌≡◌, refl, Bool, true, false, ◌||◌, none, some, List, [], ◌∷◌, arith, ltb, All,
  Bool-cases, inl, inr, ◌∙◌, ap, nat_eq, string_eq,
}
use ws_fanout.Auth.{Claims}
use ws_fanout.Protocol.{Message, to_message}
use ws_fanout.Mpsc.{Mpsc}
use ws_fanout.Registry.{Registry, ConnectionId}
use ws_fanout.Server.Handle.{Services}
use ws_fanout.Server.Session.{
  Write, written, timed_out, failed, Event, outbound, inbound, tick, Session, Flow, continue,
  finish, send_now, on_outbound, on_tick, branch, check_drops, round, session, Round,
}
use ws_fanout.Server.Session.Slow.{goes_on}
use ws_fanout.Server.Task.{Among, ret, ◌>>=◌, ◌>>◌}
use ws_fanout.Server.Task.Yields.{Yields, >>=-Yields, Among-Yields}

-- Nothing comes from the client.
abbrev pub IsQuiet : {WsError : Type 0} → Event WsError → Type 0
IsQuiet (outbound frame w) = Unit {0}
IsQuiet (inbound i now w) = ⊥
IsQuiet (tick now w) = Unit {0}

-- Whether a heartbeat falls later than the timeout after `last_seen`.
unfoldable pub has_late : {WsError : Type 0} → ℕ → ℕ → List (Event WsError) → Bool
has_late timeout last_seen [] = false
has_late timeout last_seen (outbound frame w ∷ events) = has_late timeout last_seen events
has_late timeout last_seen (inbound i now w ∷ events) = has_late timeout last_seen events
has_late timeout last_seen (tick now w ∷ events) =
    ltb timeout (now - last_seen) || has_late timeout last_seen events

send_now-last_seen :
    {WsError : Type 0} (IoError : Type 0) (s : Session) (m : Message) (w : Write WsError)
    → (send_now {IoError = IoError} s m w).0.last_seen ≡ s.last_seen
unfolding send_now
send_now-last_seen IoError s m written = refl
send_now-last_seen IoError s m timed_out = refl
send_now-last_seen IoError s m (failed e) = refl

module _ {IoError WsError RawValue Value : Type 0}
    (services : Services IoError WsError RawValue Value) (claims : Claims Value) where
  open services use {config}

  -- The client was last heard when it was before.
  abbrev Unheard : Session → Session × Flow IoError WsError → Type 0
  Unheard s x = x.0.last_seen ≡ s.last_seen

  -- The loop has been left.
  abbrev pub Over : Session × Flow IoError WsError → Type 0
  Over x = goes_on x.1 ≡ false

  tick-Unheard :
      (s : Session) (now : ℕ) (w : Write WsError)
      → Yields (Unheard s) (on_tick services claims s now w)
  unfolding on_tick ◌>>=◌ ◌>>◌
  tick-Unheard s now w = elim (Bool-cases (ltb config.heartbeat_timeout (now - s.last_seen))) [
    | inl late ↦ rw (late, on_tick) refl
    | inr heard ↦ rw (heard, on_tick) (send_now-last_seen IoError s (Message.ping []) w)
  ]

  branch-Unheard :
      (s : Session) (e : Event WsError)
      → IsQuiet e
      → Yields (Unheard s) (branch services claims s e)
  unfolding branch on_outbound
  branch-Unheard s (outbound none w) q = refl
  branch-Unheard s (outbound (some frame) w) q = send_now-last_seen IoError s (to_message frame) w
  branch-Unheard s (inbound i now w) q = elim q [ ]
  branch-Unheard s (tick now w) q = tick-Unheard s now w

  check-Unheard :
      (s : Session) (x : Session × Flow IoError WsError)
      → Unheard s x
      → Yields (Unheard s) (check_drops services claims x)
  unfolding check_drops
  check-Unheard s (s', finish result) h = h
  check-Unheard s (s', continue) h = λ n. ground (arith, h)

  round-Unheard :
      (s : Session) (e : Event WsError) → IsQuiet e → Yields (Unheard s) (round services claims s e)
  unfolding round
  round-Unheard s e q =
      >>=-Yields (Unheard s) (Unheard s) (branch services claims s e) (check_drops services claims)
        (branch-Unheard s e q) (check-Unheard s)

  late-Over :
      (s : Session) (now : ℕ) (w : Write WsError)
      → ltb config.heartbeat_timeout (now - s.last_seen) ≡ true
      → Yields Over (round services claims s (tick now w))
  unfolding round branch on_tick ◌>>=◌ ◌>>◌ check_drops goes_on
  late-Over s now w late = rw (late, on_tick) refl

  -- The rest of the loop after a round.
  abbrev after_round : List (Event WsError) → Session × Flow IoError WsError → Round IoError WsError
  after_round events r = elim r.1 [
    | continue ↦ session services claims events r.0
    | finish result ↦ ret (r.0, finish result)
  ]

  after_round-Over :
      (events : List (Event WsError)) (x : Session × Flow IoError WsError)
      → (goes_on x.1 ≡ true → Yields Over (session services claims events x.0))
      → Yields Over (after_round events x)
  unfolding goes_on
  after_round-Over events (s, continue) h = h refl
  after_round-Over events (s, finish result) h = refl

  -- A round with nothing from the client leaves the rest as late as it was.
  silent-after :
      (e : Event WsError) (events : List (Event WsError)) (s : Session)
      → IsQuiet e
      → has_late config.heartbeat_timeout s.last_seen events ≡ true
      → ((s' : Session)
          → has_late config.heartbeat_timeout s'.last_seen events ≡ true
          → Yields Over (session services claims events s'))
      → Yields Over (session services claims (e ∷ events) s)
  unfolding session
  silent-after e events s q late ih =
      >>=-Yields (Unheard s) Over (round services claims s e) (after_round events)
        (round-Unheard s e q)
        (λ x h.
          after_round-Over events x
            (λ _. ih x.0 (ap (λ l. has_late config.heartbeat_timeout l events) h ∙ late)))

  pub session-Over :
      (events : List (Event WsError)) (s : Session)
      → All IsQuiet events
      → has_late config.heartbeat_timeout s.last_seen events ≡ true
      → Yields Over (session services claims events s)
  unfolding has_late session
  session-Over [] s quiet late = absurd (ground (arith, late))
  session-Over (outbound frame w ∷ events) s quiet late =
      silent-after (outbound frame w) events s tt late (λ s' l. session-Over events s' quiet.1 l)
  session-Over (inbound i now w ∷ events) s quiet late = elim quiet.0 [ ]
  session-Over (tick now w ∷ events) s quiet late =
      elim (Bool-cases (ltb config.heartbeat_timeout (now - s.last_seen))) [
        | inl over ↦
            >>=-Yields Over Over (round services claims s (tick now w)) (after_round events)
              (late-Over s now w over)
              (λ x (h : goes_on x.1 ≡ false).
                after_round-Over events x (λ goes. absurd (ground (arith, h, goes))))
        | inr heard ↦
            silent-after (tick now w) events s tt (ground (arith, late, heard))
              (λ s' l. session-Over events s' quiet.1 l)
      ]

  -- If nothing comes from the client in the rounds of a session, and one of its heartbeats falls
  -- later than heartbeat_timeout after the client was last heard from, the session ends, whatever
  -- others do between its calls.
  pub session-silent :
      {Tx : Type 0} ⦃mpsc : Mpsc Tx⦄ (Others : Registry Tx → Registry Tx → Type 0)
      (id : ConnectionId) (max : ℕ) (events : List (Event WsError)) (s : Session)
      (r r' : Registry Tx) (b : Session × Flow IoError WsError)
      → All IsQuiet events
      → has_late config.heartbeat_timeout s.last_seen events ≡ true
      → Among Others id max (session services claims events s) r r' b
      → goes_on b.1 ≡ false
  session-silent Others id max events s r r' b quiet late among =
      Among-Yields id max Others Over (session services claims events s) r r' b
        (session-Over events s quiet late) among
