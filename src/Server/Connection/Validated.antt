-- ===== src/Server/Connection/Validated.antt =====
-- Whom `connection` of src/server.rs lets into the registry.
use ws_fanout.Prelude.{
  ◌≡◌, refl, String, arith, inl, inr, ◌⊎◌, nat_eq, string_eq, Result, ok, err, Result-cases,
}
use ws_fanout.Auth.{Claims}
use ws_fanout.Error.{Error}
use ws_fanout.Protocol.{ClientMessage, Message}
use ws_fanout.Mpsc.{Mpsc}
use ws_fanout.Registry.{Registry}
use ws_fanout.Server.Connection.{
  Handshake, upgraded, timed_out, failed, First, late, ended, broken, received, Sent, delivered,
  refused, Peer, token_of, check_token, authenticate, admitted, opening, connection,
}
use ws_fanout.Server.Handle.{Services}

module _ {IoError WsError RawValue Value : Type 0}
    (services : Services IoError WsError RawValue Value) where
  open services use {serde, validator}

  -- The message is a token that the validator accepts with these claims.
  abbrev pub Vouches : First WsError → Claims Value → Type 0
  Vouches first claims =
      (text : String) × (token : String) × (first ≡ First.received (Message.text text))
      × (serde.from_str text ≡ ok (ClientMessage.auth token))
      × (validator token ≡ ok claims)

  token_of-auth :
      (text token : String)
      → token_of services text ≡ ok token
      → serde.from_str text ≡ ok (ClientMessage.auth token)
  unfolding token_of
  token_of-auth text token h = elim (Result-cases (serde.from_str text)) [
    | inl (ClientMessage.auth t, e) ↦ ground (arith, e, h)
    | inl (ClientMessage.subscribe chs, e) ↦ absurd (ground (arith, e, h))
    | inl (ClientMessage.unsubscribe chs, e) ↦ absurd (ground (arith, e, h))
    | inl (ClientMessage.ping n, e) ↦ absurd (ground (arith, e, h))
    | inr (x, e) ↦ absurd (ground (arith, e, h))
  ]

  check_token-ok :
      (t : Result (Error IoError WsError) String) (claims : Claims Value)
      → check_token services t ≡ ok claims
      → (token : String) × (t ≡ ok token) × (validator token ≡ ok claims)
  unfolding check_token
  check_token-ok (err e) claims h = absurd (ground (arith, h))
  check_token-ok (ok token) claims h = elim (Result-cases (validator token)) [
    | inl (c, e) ↦ (token, refl, ground (arith, e, h))
    | inr (x, e) ↦ absurd (ground (arith, e, h))
  ]

  authenticate-Vouches :
      (first : First WsError) (claims : Claims Value)
      → authenticate services first ≡ ok claims
      → Vouches first claims
  unfolding authenticate
  authenticate-Vouches late claims h = absurd (ground (arith, h))
  authenticate-Vouches ended claims h = absurd (ground (arith, h))
  authenticate-Vouches (broken e) claims h = absurd (ground (arith, h))
  authenticate-Vouches (received (Message.text text)) claims h =
      let (token, e, valid) = check_token-ok (token_of services text) claims h in
      (text, token, refl, token_of-auth text token e, valid)
  authenticate-Vouches (received Message.close) claims h = absurd (ground (arith, h))
  authenticate-Vouches (received (Message.binary _)) claims h = absurd (ground (arith, h))
  authenticate-Vouches (received (Message.ping _)) claims h = absurd (ground (arith, h))
  authenticate-Vouches (received (Message.pong _)) claims h = absurd (ground (arith, h))
  authenticate-Vouches (received Message.frame) claims h = absurd (ground (arith, h))

  admitted-ok :
      (sent : Sent WsError) (who : Result (Error IoError WsError) (Claims Value))
      (claims : Claims Value)
      → (admitted services sent who).1 ≡ ok claims
      → who ≡ ok claims
  unfolding admitted
  admitted-ok sent (err e) claims h = h
  admitted-ok delivered (ok c) claims h = h
  admitted-ok (refused e) (ok c) claims h = absurd (ground (arith, h))

  pub opening-Vouches :
      (handshake : Handshake WsError) (first : First WsError) (sent : Sent WsError)
      (claims : Claims Value)
      → (opening services handshake first sent).1 ≡ ok claims
      → Vouches first claims
  unfolding opening
  opening-Vouches timed_out first sent claims h = absurd (ground (arith, h))
  opening-Vouches (failed e) first sent claims h = absurd (ground (arith, h))
  opening-Vouches upgraded first sent claims h =
      authenticate-Vouches first claims (admitted-ok sent (authenticate services first) claims h)

  -- A connection leaves the registry untouched, or its client's first message is a text that
  -- parses as an auth message whose token the validator accepts.
  pub connection-Vouches :
      {Tx : Type 0} ⦃mpsc : Mpsc Tx⦄ (p : Peer WsError) (r : Registry Tx)
      → ((connection services p r).0 ≡ r) ⊎ ((claims : Claims Value) × Vouches p.first claims)
  unfolding connection
  connection-Vouches p r = elim (Result-cases (opening services p.handshake p.first p.answer).1) [
    | inl (claims, e) ↦ inr (claims, opening-Vouches p.handshake p.first p.answer claims e)
    | inr (x, e) ↦ inl (rw (e, connection) refl)
  ]
