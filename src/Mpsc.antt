-- ===== src/Mpsc.antt =====
-- tokio's bounded `mpsc` channel of frames, as a parameter: `Tx` is the state that the sender in
-- the registry and the receiver in the connection's task share. `channel` is for a capacity that tokio
-- takes, from 1 to `MAX_PERMITS`; on any other it panics.

use ws_fanout.Prelude.{
  ℕ, ◌≤◌, ◌<◌, ◌≡◌, Bool, true, false, Option, none, some, List, [], ◌∷◌, ◌++◌, length,
}
use ws_fanout.Protocol.{Frame}

-- `Result<(), TrySendError>`.
pub data TrySend : Type 0 where
  sent full closed : TrySend

-- The documented behaviour: first in first out, never more frames than the capacity, no waiting.
pub record Mpsc (Tx : Type 0) : Type 0 where
  pub channel : ℕ → Tx
  pub try_send : Tx → Frame → TrySend × Tx
  pub recv : Tx → Option (Frame × Tx)
  pub close : Tx → Tx
  pub queued : Tx → List Frame
  pub capacity : Tx → ℕ
  pub is_closed : Tx → Bool
  pub channel_lem :
      (n : ℕ)
      → (queued (channel n) ≡ []) × (capacity (channel n) ≡ n) × (is_closed (channel n) ≡ false)
  pub try_send_closed : (t : Tx) (f : Frame) → is_closed t ≡ true → try_send t f ≡ (closed, t)
  pub try_send_full :
      (t : Tx) (f : Frame)
      → is_closed t ≡ false
      → capacity t ≤ length (queued t)
      → try_send t f ≡ (full, t)
  pub try_send_sent :
      (t : Tx) (f : Frame)
      → is_closed t ≡ false
      → length (queued t) < capacity t
      → ((try_send t f).0 ≡ sent)
        × (queued (try_send t f).1 ≡ queued t ++ f ∷ [])
        × (capacity (try_send t f).1 ≡ capacity t)
        × (is_closed (try_send t f).1 ≡ false)
  pub recv_empty : (t : Tx) → queued t ≡ [] → recv t ≡ none
  pub recv_next :
      (t : Tx) (f : Frame) (fs : List Frame)
      → queued t ≡ f ∷ fs
      → (u : Tx) × (recv t ≡ some (f, u))
        × (queued u ≡ fs)
        × (capacity u ≡ capacity t)
        × (is_closed u ≡ is_closed t)
  pub close_lem :
      (t : Tx)
      → (is_closed (close t) ≡ true) × (capacity (close t) ≡ capacity t) × (queued (close t) ≡ [])
