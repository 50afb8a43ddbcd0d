-- ===== src/Tests/Queue.antt =====
-- A queue that behaves as tokio's bounded channel is documented to: the parameter `Mpsc` is not
-- empty, and the programs run with it.
use ws_fanout.Prelude.{
  ℕ, ◌≤◌, ◌<◌, ◌≡◌, refl, Bool, true, false, Option, none, some, List, [], ◌∷◌, ◌++◌, arith, leb,
  if◌then◌else◌, length, nat_eq, string_eq,
}
use ws_fanout.Protocol.{Frame}
use ws_fanout.Mpsc.{Mpsc, TrySend, sent, full, closed}

pub record Chan : Type 0 where
  pub items : List Frame
  pub limit : ℕ
  pub shut : Bool

unfoldable pub chan_try_send : Chan → Frame → TrySend × Chan
chan_try_send t f =
    if t.shut
    then (closed, t)
    else if leb t.limit (length t.items)
    then (full, t)
    else (sent, record t { items = t.items ++ f ∷ [] })

unfoldable pub chan_recv : Chan → Option (Frame × Chan)
chan_recv t = elim t.items [ [] ↦ none | f ∷ fs ↦ some (f, record t { items = fs }) ]

pub refuses_closed : (t : Chan) (f : Frame) → t.shut ≡ true → chan_try_send t f ≡ (closed, t)
unfolding chan_try_send
refuses_closed t f h = ground (arith, h)

pub refuses_full :
    (t : Chan) (f : Frame)
    → t.shut ≡ false
    → t.limit ≤ length t.items
    → chan_try_send t f ≡ (full, t)
unfolding chan_try_send
refuses_full t f h l = ground (arith, h, l)

pub accepts :
    (t : Chan) (f : Frame)
    → t.shut ≡ false
    → length t.items < t.limit
    → ((chan_try_send t f).0 ≡ sent)
      × ((chan_try_send t f).1.items ≡ t.items ++ f ∷ [])
      × ((chan_try_send t f).1.limit ≡ t.limit)
      × ((chan_try_send t f).1.shut ≡ false)
unfolding chan_try_send
accepts t f h l = ground (arith, h, l)

instance unfoldable pub chan_mpsc : Mpsc Chan
unfolding chan_recv
chan_mpsc = record {
  channel = λ n. record { items = []; limit = n; shut = false };
  try_send = chan_try_send;
  recv = chan_recv;
  close = λ t. record t { items = []; shut = true };
  queued = λ t. t.items;
  capacity = λ t. t.limit;
  is_closed = λ t. t.shut;
  channel_lem = λ n. (refl, refl, refl);
  try_send_closed = refuses_closed;
  try_send_full = refuses_full;
  try_send_sent = accepts;
  recv_empty = λ t h. rw h refl;
  recv_next = λ t f fs h. (record t { items = fs }, rw h refl, refl, refl, refl);
  close_lem = λ t. (refl, refl, refl);
}
