-- ===== src/Server/Handle/Permits.antt =====
-- Which channels `handle` of src/server.rs subscribes its connection to.
use ws_fanout.Prelude.{
  ◌≡◌, true, none, String, List, [], ◌∷◌, leb, Option-cases, inl, inr, nat_eq, string_eq,
  Result-cases, filter_b-All, partition,
}
use Prim.Native.String.{len}
use ws_fanout.Auth.{Claims}
use ws_fanout.Protocol.{ClientMessage}
use ws_fanout.Server.Handle.{Services, send_snapshots, handle_subscribe, dispatch, handle}
use ws_fanout.Server.Task.{ret}
use ws_fanout.Server.Task.Asks.{Asks, >>=-Asks}

module _ {IoError WsError RawValue Value : Type 0}
    (services : Services IoError WsError RawValue Value) (claims : Claims Value) where
  open services use {config, authorizer, snapshots}

  abbrev pub Permitted : String → Type 0
  Permitted d = (leb (len d) config.max_channel_len ≡ true) × (authorizer claims d ≡ true)

  send_snapshots-Asks : (chs : List String) → Asks Permitted (send_snapshots services chs)
  unfolding send_snapshots
  send_snapshots-Asks [] = tt
  send_snapshots-Asks (ch ∷ chs) = elim (Option-cases (snapshots ch)) [
    | inl e ↦ rw (e, send_snapshots) (send_snapshots-Asks chs)
    | inr (payload, e) ↦ rw (e, send_snapshots) (λ x. send_snapshots-Asks chs)
  ]

  handle_subscribe-Asks :
      (chs : List String) → Asks Permitted (handle_subscribe services claims chs)
  unfolding handle_subscribe partition
  handle_subscribe-Asks chs = (
    filter_b-All (λ ch. leb (len ch) config.max_channel_len) (authorizer claims) chs,
    λ x. λ y.
        >>=-Asks Permitted (send_snapshots services x.0) (λ _. ret none) (send_snapshots-Asks x.0)
          (λ _. tt),
  )

  dispatch-Asks : (m : ClientMessage) → Asks Permitted (dispatch services claims m)
  unfolding dispatch
  dispatch-Asks (ClientMessage.auth token) = tt
  dispatch-Asks (ClientMessage.subscribe channels) = handle_subscribe-Asks channels
  dispatch-Asks (ClientMessage.unsubscribe channels) = λ x. tt
  dispatch-Asks (ClientMessage.ping timestamp) = tt

  pub handle-Asks : (text : String) → Asks Permitted (handle services claims text)
  unfolding handle
  handle-Asks text = elim (Result-cases (services.serde.from_str text)) [
    | inl (m, e) ↦ rw (e, handle) (dispatch-Asks m)
    | inr (x, e) ↦ rw (e, handle) tt
  ]
