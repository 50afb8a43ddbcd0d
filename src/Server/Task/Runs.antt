-- ===== src/Server/Task/Runs.antt =====
-- Running a task of src/server.rs in parts.
use ws_fanout.Prelude.{ℕ, ◌≡◌, refl, nat_eq, string_eq}
use ws_fanout.Mpsc.{Mpsc}
use ws_fanout.Registry.{Registry, ConnectionId}
use ws_fanout.Registry
use ws_fanout.Registry.Deliveries
use ws_fanout.Registry.Counters.{count_timeout}
use ws_fanout.Server.Task.{
  Task, ret, subscribe, unsubscribe, send, drops, heartbeat_timeout, close_sink, ◌>>=◌, run,
}

module _ {Tx : Type 0} ⦃mpsc : Mpsc Tx⦄ (id : ConnectionId) (max : ℕ) where
  -- The second part runs from where the first ended.
  pub run->>= :
      {A B : Type 0} (t : Task A) (f : A → Task B) (r : Registry Tx)
      → run id max (t >>= f) r ≡ run id max (f (run id max t r).1) (run id max t r).0
  unfolding run ◌>>=◌
  run->>= (ret a) f r = refl
  run->>= (subscribe chs k) f r = run->>= (k _) f (Registry.subscribe r id chs max).0
  run->>= (unsubscribe chs k) f r = run->>= (k _) f (Registry.unsubscribe r id chs).0
  run->>= (send frame k) f r = run->>= (k _) f (Deliveries.send r id frame).0
  run->>= (drops k) f r = run->>= (k _) f r
  run->>= (heartbeat_timeout t) f r = run->>= t f (count_timeout r)
  run->>= (close_sink t) f r = run->>= t f r
