-- ===== src/Protocol.antt =====
-- src/protocol.rs: the wire messages and the serialised frame. serde's derived code and
-- serde_json are the parameter `Serde`; a tungstenite `Message` has the variants that the server
-- matches, without the payloads that it ignores.
use ws_fanout.Prelude.{ℕ, String, List, Result}

-- What a client may send.
pub data ClientMessage : Type 0 where
  auth : String → ClientMessage
  subscribe : List String → ClientMessage
  unsubscribe : List String → ClientMessage
  ping : ℕ → ClientMessage

-- A channel the client asked for and did not get.
pub record Rejected : Type 0 where
  pub channel : String
  pub reason : String

-- What the server sends; a payload is JSON that the server never reads.
pub data ServerMessage (RawValue : Type 0) : Type 0 where
  authenticated : String → ServerMessage RawValue
  subscribed : List String → List Rejected → ServerMessage RawValue
  unsubscribed : List String → ServerMessage RawValue
  data_message : String → RawValue → ServerMessage RawValue
  snapshot : String → RawValue → ServerMessage RawValue
  resync : List String → ServerMessage RawValue
  pong : ℕ → ServerMessage RawValue
  error : String → String → ServerMessage RawValue

-- serde_json at this program's types. `from_str` fails with the text of its error.
pub record Serde (RawValue : Type 0) : Type 0 where
  pub to_string : ServerMessage RawValue → String
  pub from_str : String → Result String ClientMessage

-- A serialised server message.
pub record Frame : Type 0 where
  pub text : String

unfoldable pub to_frame : {RawValue : Type 0} → Serde RawValue → ServerMessage RawValue → Frame
to_frame serde m = record { text = serde.to_string m }

unfoldable pub as_str : Frame → String
as_str f = f.text

-- `tungstenite::Message`.
pub data Message : Type 0 where
  text : String → Message
  binary ping pong : List ℕ → Message
  close frame : Message

unfoldable pub to_message : Frame → Message
to_message f = Message.text f.text
