-- ===== src/Tests/Services.antt =====
-- Services for the tasks of src/server.rs on the small registry.
use ws_fanout.Prelude.{
  ℕ, suc, ◌+◌, ◌-◌, ◌*◌, ◌%◌, ◌≤◌, ◌<◌, ◌≡◌, ◌≢◌, ◌↔◌, refl, Bool, true, false, ◌||◌, ◌&&◌, not,
  Option, none, some, String, List, [], ◌∷◌, ◌++◌, map, foldl, arith, Eq, ◌==◌, leb, ltb,
  if◌then◌else◌, length, is_empty, All, Bool-cases, Option-cases, inl, inr, ◌⊎◌, ◌∙◌, ap, sym,
  nat_eq, string_eq, wrapping_add, wrapping_sub, u64_mod, wrapping_add_exact, wrapping_add-lt,
  ==_refl, ==_iff, ==_comm, Result, ok, err, Result-cases, filter_b, filter_b-All, All-filter_b,
  partition, Bool-ext, All-append, length-append,
}
use ws_fanout.Auth.{Claims}
use ws_fanout.Collections.HashMap
use ws_fanout.Protocol.{ClientMessage, ServerMessage, Serde, Message}
use ws_fanout.Registry.{Connection}
use ws_fanout.Server.Handle.{Services}
use ws_fanout.Server.Session.{Event, Inbound, Write, Session}
use ws_fanout.Tests.Queue.{Chan, chan_mpsc}
use ws_fanout.Tests.Sample.{entry, pair}

-- A wire format of one word for a message.
abbrev pub print : ServerMessage String → String
print (ServerMessage.authenticated subject) = "authenticated"
print (ServerMessage.subscribed channels refused) = "subscribed"
print (ServerMessage.unsubscribed channels) = "unsubscribed"
print (ServerMessage.data_message channel payload) = payload
print (ServerMessage.snapshot channel payload) = payload
print (ServerMessage.resync channels) = "resync"
print (ServerMessage.pong timestamp) = "pong"
print (ServerMessage.error code message) = code

abbrev pub parse : String → Result String ClientMessage
parse text =
    if text == "auth"
    then ok (ClientMessage.auth "token")
    else if text == "subscribe"
    then ok (ClientMessage.subscribe ("a" ∷ "secret" ∷ []))
    else err "not a message"

abbrev pub serde : Serde String
serde = record { to_string = print; from_str = parse }

-- Everyone may come in, and no one may have the channel "secret".
abbrev pub services : Services String String String String
services = record {
  serde = serde;
  io_text = λ e. e;
  ws_text = λ e. e;
  config = record {
    max_connections = 10;
    max_message_size = 1024;
    max_subscriptions = 2;
    max_channel_len = 256;
    send_queue = 4;
    max_consecutive_drops = 1000;
    auth_timeout = 10;
    heartbeat_interval = 30;
    heartbeat_timeout = 90;
  };
  validator = λ token. ok (record { subject = token; attributes = [] });
  authorizer = λ claims ch. not (ch == "secret");
  snapshots = λ ch. if ch == "a" then some "last" else none;
}

abbrev pub claims : Claims String
claims = record { subject = "bob"; attributes = [] }

abbrev pub request : List String
request = "a" ∷ "secret" ∷ []

-- The request is read, the task is stopped.
abbrev pub events : List (Event String)
events = Event.inbound (Inbound.received (Message.text "subscribe")) 5 Write.written ∷ []

abbrev pub at_start : Session
at_start = record { last_seen = 0; wire = []; closed = false }

abbrev pub bob : Connection Chan
bob = entry "bob" []

pub bob_there : HashMap.get 2 pair.connections ≡ some bob
unfolding HashMap.get nat_eq ws_fanout.Prelude.ℕ_discrete
bob_there = refl
