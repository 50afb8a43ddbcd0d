-- ===== src/Error.antt =====
-- src/error.rs. The errors of std::io and of tungstenite are parameters, with their texts.
use ws_fanout.Prelude.{String}
use Prim.Native.String.{◌++◌}

pub data Error (IoError WsError : Type 0) : Type 0 where
  io : IoError → Error IoError WsError
  websocket : WsError → Error IoError WsError
  protocol : String → Error IoError WsError
  unauthenticated : String → Error IoError WsError
  config : String → Error IoError WsError

-- The `#[error(…)]` texts.
unfoldable pub to_string :
    {IoError WsError : Type 0}
    → (IoError → String)
    → (WsError → String)
    → Error IoError WsError
    → String
to_string show_io show_ws (io e) = "io: " ++ show_io e
to_string show_io show_ws (websocket e) = "websocket: " ++ show_ws e
to_string show_io show_ws (protocol s) = "protocol: " ++ s
to_string show_io show_ws (unauthenticated s) = "unauthenticated: " ++ s
to_string show_io show_ws (config s) = "invalid config: " ++ s

-- `From<tungstenite::Error>`.
unfoldable pub from_tungstenite : {IoError WsError : Type 0} → WsError → Error IoError WsError
from_tungstenite e = websocket e
