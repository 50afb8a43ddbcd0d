-- ===== src/Server/Connection.antt =====
-- `authenticate` and `connection` of src/server.rs: from the handshake to the drop of the guard
-- `Registered`, which takes the connection out of the registry however its task ends.
pub mod Lifecycle
pub mod Apart
pub mod Validated
use ws_fanout.Prelude.{
  ℕ, suc, ◌+◌, ◌-◌, ◌*◌, ◌%◌, ◌≤◌, ◌<◌, ◌≡◌, ◌≢◌, ◌↔◌, refl, Bool, true, false, ◌||◌, ◌&&◌, not,
  Option, none, some, String, List, [], ◌∷◌, ◌++◌, map, foldl, arith, Eq, ◌==◌, leb, ltb,
  if◌then◌else◌, length, is_empty, All, Bool-cases, Option-cases, inl, inr, ◌⊎◌, ◌∙◌, ap, sym,
  nat_eq, string_eq, wrapping_add, wrapping_sub, u64_mod, wrapping_add_exact, wrapping_add-lt,
  ==_refl, ==_iff, ==_comm, Result, ok, err, Result-cases, filter_b, filter_b-All, partition,
  Bool-ext, All-append, length-append,
}
use ws_fanout.Auth.{Claims}
use ws_fanout.Error.{Error, from_tungstenite, to_string}
use ws_fanout.Protocol.{ClientMessage, ServerMessage, Message, to_frame, to_message}
use ws_fanout.Mpsc.{Mpsc}
use ws_fanout.Registry.{Registry, ConnectionId}
use ws_fanout.Registry
use ws_fanout.Registry.Receiver.{hang_up}
use ws_fanout.Server.Config.{Config}
use ws_fanout.Server.Handle.{Services}
use ws_fanout.Server.Session.{Event, Session, Flow, continue, finish, session}
use ws_fanout.Server.Task.{run}

-- How the handshake ended, on the auth clock.
pub data Handshake (WsError : Type 0) : Type 0 where
  upgraded timed_out : Handshake WsError
  failed : WsError → Handshake WsError

-- What came first on the new socket, on the auth clock.
pub data First (WsError : Type 0) : Type 0 where
  late ended : First WsError
  broken : WsError → First WsError
  received : Message → First WsError

-- How `ws.send(…)` ended.
pub data Sent (WsError : Type 0) : Type 0 where
  delivered : Sent WsError
  refused : WsError → Sent WsError

-- What the network and the clock give one connection.
pub record Peer (WsError : Type 0) : Type 0 where
  pub handshake : Handshake WsError
  pub first : First WsError
  pub answer : Sent WsError
  pub started : ℕ
  pub events : List (Event WsError)

module _ {IoError WsError RawValue Value : Type 0}
    (services : Services IoError WsError RawValue Value) where
  open services use {serde, config, validator, io_text, ws_text}

  -- The token of the first message.
  unfoldable pub token_of : String → Result (Error IoError WsError) String
  token_of text = elim (serde.from_str text) [
    | ok m ↦ elim m [
      | ClientMessage.auth token ↦ ok token
      | _ ↦ err (Error.unauthenticated "expected an auth message")
    ]
    | err e ↦ err (Error.unauthenticated "expected an auth message")
  ]

  unfoldable pub check_token :
      Result (Error IoError WsError) String → Result (Error IoError WsError) (Claims Value)
  check_token (err e) = err e
  check_token (ok token) = elim (validator token) [
    | ok claims ↦ ok claims
    | err reason ↦ err (Error.unauthenticated reason)
  ]

  unfoldable pub authenticate : First WsError → Result (Error IoError WsError) (Claims Value)
  unfolding token_of check_token
  authenticate late = err (Error.unauthenticated "auth timeout")
  authenticate ended = err (Error.unauthenticated "closed before auth")
  authenticate (broken e) = err (from_tungstenite e)
  authenticate (received (Message.text text)) = check_token (token_of text)
  authenticate (received Message.close) = err (Error.unauthenticated "closed before auth")
  authenticate (received (Message.binary _)) =
      err (Error.unauthenticated "expected an auth message")
  authenticate (received (Message.ping _)) = err (Error.unauthenticated "expected an auth message")
  authenticate (received (Message.pong _)) = err (Error.unauthenticated "expected an auth message")
  authenticate (received Message.frame) = err (Error.unauthenticated "expected an auth message")

  -- What a `send` puts on the wire.
  unfoldable pub wired : Message → Sent WsError → List Message
  wired m delivered = m ∷ []
  wired m (refused e) = []

  -- Up to the acknowledgement: what is on the wire, and the claims or the error.
  unfoldable pub admitted :
      Sent WsError
      → Result (Error IoError WsError) (Claims Value)
      → List Message × Result (Error IoError WsError) (Claims Value)
  unfolding wired
  admitted sent (err e) = (
    wired
        (to_message
          (to_frame serde (ServerMessage.error "unauthenticated" (to_string io_text ws_text e))))
        sent,
    err e,
  )
  admitted delivered (ok claims) =
      (to_message (to_frame serde (ServerMessage.authenticated claims.subject)) ∷ [], ok claims)
  admitted (refused e) (ok claims) = ([], err (from_tungstenite e))

  unfoldable pub opening :
      Handshake WsError
      → First WsError
      → Sent WsError
      → List Message × Result (Error IoError WsError) (Claims Value)
  unfolding admitted authenticate
  opening timed_out first sent = ([], err (Error.unauthenticated "handshake timeout"))
  opening (failed e) first sent = ([], err (from_tungstenite e))
  opening upgraded first sent = admitted sent (authenticate first)

  module _ {Tx : Type 0} ⦃mpsc : Mpsc Tx⦄ where
    -- From the registration to the drop of the guard, for a queue that `mpsc::channel` takes: it panics
    -- over one longer than `MAX_PERMITS`, and then the task ends before it joins. The flow is `continue` where the task is
    -- stopped from outside with its session still open.
    unfoldable pub registered :
        Claims Value
        → List Message
        → ℕ
        → List (Event WsError)
        → Registry Tx
        → Registry Tx × Session × Flow IoError WsError
    registered claims wire started events r =
        let (r', id) = Registry.add r claims.subject (mpsc.channel config.send_queue) in
        let (r'', left) =
          run id config.max_subscriptions
            (session services claims events
              (record { last_seen = started; wire = wire; closed = false }))
            r' in
        (Registry.remove (hang_up r'' id) id, left.0, left.1)

    unfoldable pub connection :
        Peer WsError → Registry Tx → Registry Tx × List Message × Flow IoError WsError
    unfolding opening registered
    connection p r =
        let (wire, who) = opening p.handshake p.first p.answer in
        elim who [
          | err e ↦ (r, wire, finish (err e))
          | ok claims ↦
              let (r', s, flow) = registered claims wire p.started p.events r in (r', s.wire, flow)
        ]
