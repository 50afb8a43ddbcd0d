-- ===== src/Server/Handle.antt =====
-- `handle` of src/server.rs: one client message.
pub mod Permits
pub mod Again
pub mod Overtakes
pub mod Acknowledges
use ws_fanout.Prelude.{
  ℕ, suc, ◌+◌, ◌-◌, ◌*◌, ◌%◌, ◌≤◌, ◌<◌, ◌≡◌, ◌≢◌, ◌↔◌, refl, Bool, true, false, ◌||◌, ◌&&◌, not,
  Option, none, some, String, List, [], ◌∷◌, ◌++◌, map, foldl, arith, Eq, ◌==◌, leb, ltb,
  if◌then◌else◌, length, is_empty, All, Bool-cases, Option-cases, inl, inr, ◌⊎◌, ◌∙◌, ap, sym,
  nat_eq, string_eq, wrapping_add, wrapping_sub, u64_mod, wrapping_add_exact, wrapping_add-lt,
  ==_refl, ==_iff, ==_comm, Result, ok, err, filter_b, partition, Bool-ext, All-append,
  length-append,
}
use Prim.Native.String.{len}
use ws_fanout.Auth.{Claims}
use ws_fanout.Protocol.{ClientMessage, ServerMessage, Rejected, Serde, Frame, to_frame}
use ws_fanout.Protocol
use ws_fanout.Server.Config.{Config}
use ws_fanout.Server.Task.{Task, ret, subscribing, unsubscribing, sending, ◌>>=◌, ◌>>◌}

-- The parts of `Shared` that do not change, with the trait objects as functions; serde_json, and the
-- texts of the errors of std::io and tungstenite, stand beside them.
pub record Services (IoError WsError RawValue Value : Type 0) : Type 0 where
  pub serde : Serde RawValue
  pub io_text : IoError → String
  pub ws_text : WsError → String
  pub config : Config
  pub validator : String → Result String (Claims Value)
  pub authorizer : Claims Value → String → Bool
  pub snapshots : String → Option RawValue

abbrev pub because : String → String → Rejected
because reason ch = record { channel = ch; reason = reason }

-- The three loops that fill `rejected`.
unfoldable pub rejections : List String → List String → List String → List Rejected
rejections oversized unauthorized over_limit =
    map (because "invalid") oversized
    ++ map (because "unauthorized") unauthorized
    ++ map (because "limit") over_limit

module _ {IoError WsError RawValue Value : Type 0}
    (services : Services IoError WsError RawValue Value) where
  open services use {serde, config, authorizer, snapshots}

  -- One snapshot for each added channel that has one.
  unfoldable pub send_snapshots : List String → Task (Unit {0})
  unfolding ◌>>◌
  send_snapshots [] = ret tt
  send_snapshots (ch ∷ chs) = elim (snapshots ch) [
    | none ↦ send_snapshots chs
    | some payload ↦ do
      sending (to_frame serde (ServerMessage.snapshot ch payload))
      send_snapshots chs
  ]

  -- The channels of a request that are short enough, and those that are not; then those that the
  -- authorizer lets through, and those that it does not.
  unfoldable pub sized : List String → List String × List String
  sized channels = partition (λ ch. leb (len ch) config.max_channel_len) channels

  unfoldable pub allowed : Claims Value → List String → List String × List String
  allowed claims channels = partition (λ ch. authorizer claims ch) channels

  unfoldable pub handle_subscribe : Claims Value → List String → Task (Option Frame)
  unfolding ◌>>=◌ ◌>>◌ sized allowed
  handle_subscribe claims channels =
      let (small, oversized) = sized channels in
      let (permitted, unauthorized) = allowed claims small in
      do
        (added, over_limit) ← subscribing permitted
        sending (
            to_frame serde
              (ServerMessage.subscribed added (rejections oversized unauthorized over_limit)))
        send_snapshots added
        ret none

  unfoldable pub dispatch : Claims Value → ClientMessage → Task (Option Frame)
  unfolding ◌>>=◌ handle_subscribe
  dispatch claims (ClientMessage.auth token) = ret (
      some (
        to_frame serde (
          ServerMessage.error "already_authenticated"
            "auth is accepted only as the first message")))
  dispatch claims (ClientMessage.subscribe channels) = handle_subscribe claims channels
  dispatch claims (ClientMessage.unsubscribe channels) = do
    removed ← unsubscribing channels
    ret (some (to_frame serde (ServerMessage.unsubscribed removed)))
  dispatch claims (ClientMessage.ping timestamp) =
      ret (some (to_frame serde (ServerMessage.pong timestamp)))

  unfoldable pub handle : Claims Value → String → Task (Option Frame)
  unfolding dispatch
  handle claims text = elim (serde.from_str text) [
    | ok m ↦ dispatch claims m
    | err e ↦ ret (some (to_frame serde (ServerMessage.error "invalid_message" e)))
  ]
