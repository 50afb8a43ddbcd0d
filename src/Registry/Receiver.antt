-- ===== src/Registry/Receiver.antt =====
-- The receiving end of a connection's queue, which its task in src/server.rs owns: the two ends
-- share one channel, whose state stands in the registry's entry.
pub mod Keeps
use ws_fanout.Prelude.{Option, none, some, nat_eq, string_eq}
use ws_fanout.Collections.HashMap
use ws_fanout.Protocol.{Frame}
use ws_fanout.Mpsc.{Mpsc}
use ws_fanout.Registry.{Registry, Connection, ConnectionId}

module _ {Tx : Type 0} ⦃mpsc : Mpsc Tx⦄ where
  -- Write the channel of a connection back.
  unfoldable pub with_tx : Registry Tx → ConnectionId → Connection Tx → Tx → Registry Tx
  with_tx r id c t = record r {
    inner = record r.inner { connections = HashMap.insert id (record c { tx = t }) r.connections };
  }

  -- `rx.recv()` where a frame is waiting; `none` where the call would wait.
  unfoldable pub receive : Registry Tx → ConnectionId → Option (Frame × Registry Tx)
  unfolding with_tx
  receive r id = elim (HashMap.get id r.connections) [
    | none ↦ none
    | some c ↦ elim (mpsc.recv c.tx) [
      | none ↦ none
      | some (frame, t) ↦ some (frame, with_tx r id c t)
    ]
  ]

  -- `rx` is dropped when the session returns, before the connection leaves the registry.
  unfoldable pub hang_up : Registry Tx → ConnectionId → Registry Tx
  unfolding with_tx
  hang_up r id = elim (HashMap.get id r.connections) [
    | none ↦ r
    | some c ↦ with_tx r id c (mpsc.close c.tx)
  ]
