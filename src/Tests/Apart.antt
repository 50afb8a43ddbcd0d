-- ===== src/Tests/Apart.antt =====
-- A connection on the small registry, with a publisher in between.
use ws_fanout.Prelude.{ℕ, ◌≡◌, refl, none, [], arith, ◌==◌, if◌then◌else◌, nat_eq, string_eq}
use ws_fanout.Collections.HashMap
use ws_fanout.Registry.{Registry, remove}
use ws_fanout.Registry.Deliveries.{publish}
use ws_fanout.Registry.Invariant.{IsValid}
use ws_fanout.Registry.Reach.{stay, next, publishes}
use ws_fanout.Registry.Receiver.{hang_up}
use ws_fanout.Server.Connection.Apart.{Life, begun, entered, without, Life-Apart}
use ws_fanout.Server.Session.{session}
use ws_fanout.Server.Task.{run, run-Exec}
use ws_fanout.Tests.Queue.{Chan, chan_mpsc}
use ws_fanout.Tests.Sample.{hello, pair, pair-IsValid}
use ws_fanout.Tests.Services.{services, claims, events}

-- The session alone, which ends as its client has sent one message.
abbrev ended : Registry Chan
ended =
    (run 3 2 (session services claims events (begun [] 0))
      (entered services claims [] 0 events pair)).0

-- A frame is published after the session has ended.
abbrev last : Registry Chan
last = (publish (hang_up ended 3) "a" hello).0

abbrev life : Life services claims [] 0 events pair (remove last 3)
life = record {
  left =
      (run 3 2 (session services claims events (begun [] 0))
        (entered services claims [] 0 events pair)).1;
  ended = ended;
  runs =
      run-Exec 3 2 4 (session services claims events (begun [] 0))
        (entered services claims [] 0 events pair);
  last = last;
  between = next stay (publishes "a" hello);
  removed = refl;
}

Life-Apart_example :
    IsValid (remove last 3)
    × (HashMap.get 1 (remove last 3).connections ≡ (
        if ◌==◌ {A = ℕ} 3 1
        then none
        else HashMap.get 1 (without services claims [] 0 events life).connections))
Life-Apart_example =
    Life-Apart services claims [] 0 events pair (remove last 3) life 1 pair-IsValid (omega arith)
