-- ===== src/Server/Session.antt =====
-- `session` of src/server.rs: the loop of one authenticated connection. Each round of the loop is
-- given the branch that `select!` took, with what the socket and the clock answered; a write's
-- timeout is tokio's.
pub mod Permits
pub mod Slow
pub mod Among
pub mod Ends
pub mod Stuck
pub mod Stream
pub mod Fifo
pub mod Delivers
use ws_fanout.Prelude.{
  ℕ, suc, ◌+◌, ◌-◌, ◌*◌, ◌%◌, ◌≤◌, ◌<◌, ◌≡◌, ◌≢◌, ◌↔◌, refl, Bool, true, false, ◌||◌, ◌&&◌, not,
  Option, none, some, String, List, [], ◌∷◌, ◌++◌, map, foldl, arith, Eq, ◌==◌, leb, ltb,
  if◌then◌else◌, length, is_empty, All, Bool-cases, Option-cases, inl, inr, ◌⊎◌, ◌∙◌, ap, sym,
  nat_eq, string_eq, wrapping_add, wrapping_sub, u64_mod, wrapping_add_exact, wrapping_add-lt,
  ==_refl, ==_iff, ==_comm, Result, ok, err, filter_b, partition, Bool-ext, All-append,
  length-append,
}
use ws_fanout.Auth.{Claims}
use ws_fanout.Error.{Error, from_tungstenite}
use ws_fanout.Protocol.{ServerMessage, Serde, Frame, Message, to_frame, to_message}
use ws_fanout.Server.Config.{Config}
use ws_fanout.Server.Handle.{Services, handle}
use ws_fanout.Server.Task.{
  Task, ret, sending, reading_drops, counting_timeout, closing, ◌>>=◌, ◌>>◌,
}

-- How `timeout(within, sink.send(msg))` ended.
pub data Write (WsError : Type 0) : Type 0 where
  written timed_out : Write WsError
  failed : WsError → Write WsError

-- What `source.next()` gave: the end of the stream, an error or a message.
pub data Inbound (WsError : Type 0) : Type 0 where
  ended : Inbound WsError
  broken : WsError → Inbound WsError
  received : Message → Inbound WsError

-- The branch that a round took: a frame of the queue (`none` once every sender is gone), a
-- message of the client at a time, or the heartbeat at a time; and how the write ended, if there is
-- one.
pub data Event (WsError : Type 0) : Type 0 where
  outbound : Option Frame → Write WsError → Event WsError
  inbound : Inbound WsError → ℕ → Write WsError → Event WsError
  tick : ℕ → Write WsError → Event WsError

-- The loop's variables: when the client was last heard, what was written to the socket, and
-- whether the sink was closed.
pub record Session : Type 0 where
  pub last_seen : ℕ
  pub wire : List Message
  pub closed : Bool

-- Go on, or leave the loop: `break` gives `ok tt`, and `?` the error.
pub data Flow (IoError WsError : Type 0) : Type 0 where
  continue : Flow IoError WsError
  finish : Result (Error IoError WsError) (Unit {0}) → Flow IoError WsError

module _ {IoError WsError : Type 0} where
  unfoldable pub send_now : Session → Message → Write WsError → Session × Flow IoError WsError
  send_now s m written = (record s { wire = s.wire ++ m ∷ [] }, continue)
  send_now s m timed_out = (s, finish (err (Error.protocol "write timed out")))
  send_now s m (failed e) = (s, finish (err (from_tungstenite e)))

  abbrev pub break : Flow IoError WsError
  break = finish (ok tt)

abbrev pub Round : Type 0 → Type 0 → Type 0
Round IoError WsError = Task (Session × Flow IoError WsError)

-- `if let Some(reply) = …`.
unfoldable pub reply : Option Frame → Task (Unit {0})
reply none = ret tt
reply (some frame) = sending frame

module _ {IoError WsError RawValue Value : Type 0}
    (services : Services IoError WsError RawValue Value) (claims : Claims Value) where
  open services use {serde, config}

  -- The match on an inbound message, `last_seen` set.
  unfoldable pub on_message : Session → Message → Write WsError → Round IoError WsError
  unfolding ◌>>=◌ ◌>>◌ reply send_now
  on_message s (Message.text t) w = do
    answer ← handle services claims t
    reply answer
    ret (s, continue)
  on_message s (Message.ping payload) w = ret (send_now s (Message.pong payload) w)
  on_message s (Message.pong payload) w = ret (s, continue)
  on_message s Message.close w = ret (s, break)
  on_message s (Message.binary payload) w = do
    sending (
        to_frame serde
          (ServerMessage.error "protocol" "binary frames are not part of this protocol"))
    ret (s, continue)
  on_message s Message.frame w = ret (s, continue)

  unfoldable pub on_inbound : Session → Inbound WsError → ℕ → Write WsError → Round IoError WsError
  unfolding on_message
  on_inbound s ended now w = ret (s, break)
  on_inbound s (broken e) now w =
      ret (record s { last_seen = now }, finish (err (from_tungstenite e)))
  on_inbound s (received m) now w = on_message (record s { last_seen = now }) m w

  unfoldable pub on_outbound : Session → Option Frame → Write WsError → Round IoError WsError
  unfolding send_now
  on_outbound s none w = ret (s, break)
  on_outbound s (some frame) w = ret (send_now s (to_message frame) w)

  unfoldable pub on_tick : Session → ℕ → Write WsError → Round IoError WsError
  unfolding ◌>>=◌ ◌>>◌ send_now
  on_tick s now w =
      if ltb config.heartbeat_timeout (now - s.last_seen)
      then counting_timeout >> closing >> ret (record s { closed = true }, break)
      else ret (send_now s (Message.ping []) w)

  unfoldable pub branch : Session → Event WsError → Round IoError WsError
  unfolding on_inbound on_outbound on_tick
  branch s (outbound frame w) = on_outbound s frame w
  branch s (inbound i now w) = on_inbound s i now w
  branch s (tick now w) = on_tick s now w

  -- The test behind `select!`, which a `break` or an error skips.
  unfoldable pub check_drops : Session × Flow IoError WsError → Round IoError WsError
  unfolding ◌>>=◌ ◌>>◌
  check_drops (s, finish result) = ret (s, finish result)
  check_drops (s, continue) = do
    n ← reading_drops
    if leb config.max_consecutive_drops n
        then closing >> ret (record s { closed = true }, break)
        else ret (s, continue)

  -- One round of the loop.
  unfoldable pub round : Session → Event WsError → Round IoError WsError
  unfolding ◌>>=◌ branch check_drops
  round s event = branch s event >>= check_drops

  -- The loop over the branches that it takes, up to its end or to where they stop.
  unfoldable pub session : List (Event WsError) → Session → Round IoError WsError
  unfolding ◌>>=◌
  session [] s = ret (s, continue)
  session (event ∷ events) s = round s event >>= λ r. elim r.1 [
    | continue ↦ session events r.0
    | finish result ↦ ret (r.0, finish result)
  ]
