-- ===== src/Tests/Ends.antt =====
-- What ends a connection's loop and the accept loop.
use ws_fanout.Prelude.{
  ℕ, suc, ◌+◌, ◌-◌, ◌*◌, ◌%◌, ◌≤◌, ◌<◌, ◌≡◌, ◌≢◌, ◌↔◌, refl, Bool, true, false, ◌||◌, ◌&&◌, not,
  Option, none, some, String, List, [], ◌∷◌, ◌++◌, map, foldl, arith, Eq, ◌==◌, leb, ltb,
  if◌then◌else◌, length, is_empty, All, Bool-cases, Option-cases, inl, inr, ◌⊎◌, ◌∙◌, ap, sym,
  nat_eq, string_eq, wrapping_add, wrapping_sub, u64_mod, wrapping_add_exact, wrapping_add-lt,
  ==_refl, ==_iff, ==_comm, Result, ok, err, Result-cases, filter_b, filter_b-All, All-filter_b,
  partition, Bool-ext, All-append, length-append,
}
use ws_fanout.Api.{Builder, bind}
use ws_fanout.Api.Bound.{config_text, bind-error}
use ws_fanout.Api.Clones.{
  Clones, Lives, consumes, drops, looking, looking-stops, bound, consume_outcry, drop_server,
  drop_accepting,
}
use ws_fanout.Collections.HashMap
use ws_fanout.Collections.HashMap.{HashMap}
use ws_fanout.Collections.HashSet
use ws_fanout.Error.{Error}
use ws_fanout.Mpsc.{full}
use ws_fanout.Registry.{Registry, Connection, no_metrics, new, add, subscribe}
use ws_fanout.Registry.Deliver.{verdict}
use ws_fanout.Registry.Deliveries.{publish, publish_loop, send, deliver}
use ws_fanout.Registry.Full.{publish_all}
use ws_fanout.Registry.Reach.{Reach, Steps, Reach-IsValid}
use ws_fanout.Registry.Reach
use ws_fanout.Registry.Subscriptions.{holds}
use ws_fanout.Server.Config.{Config, IsAccepted}
use ws_fanout.Server.Config
use ws_fanout.Server.Handle.{Services}
use ws_fanout.Server.Session.{Event, Write, round}
use ws_fanout.Server.Session.Stuck.{round-slow}
use ws_fanout.Server.Session.Slow.{goes_on}
use ws_fanout.Server.Task.{run}
use ws_fanout.Tests.Queue.{Chan, chan_mpsc, chan_try_send}
use ws_fanout.Tests.Sample.{hello, chan}
use ws_fanout.Tests.Services.{services, claims, at_start}
use ws_fanout.Tests.Slots.{Permits, permits_semaphore}

-- A ping in time, and a heartbeat that is late.
abbrev pub silence : List (Event String)
silence =
    Event.tick 30 Write.written
    ∷ Event.outbound (some hello) Write.written
    ∷ Event.tick 91 Write.timed_out
    ∷ []

-- One connection with a queue for one frame, which is taken.
abbrev pub crowded : Registry Chan
crowded = (publish (subscribe (add (new no_metrics) "ann" (chan 1)).0 1 ("a" ∷ []) 2).0 "a" hello).0

pub crowded-Reach : Reach 2 1 crowded
unfolding chan_mpsc
crowded-Reach =
    Reach.later
      (Reach.later (Reach.later Reach.start (Reach.joins "ann" (unfold new in omega arith)))
        (Reach.subscribes 1 ("a" ∷ [])))
      (Reach.publishes "a" hello)

abbrev ann : Connection Chan
ann = record {
  subject = "ann";
  subscriptions = "a" ∷ [];
  tx = record { items = hello ∷ []; limit = 1; shut = false };
  dropped = 0;
}

ann_there : HashMap.get 1 crowded.connections ≡ some ann
unfolding new add subscribe ws_fanout.Registry.admit ws_fanout.Registry.link publish publish_loop
    send deliver chan_mpsc chan_try_send HashMap.get HashMap.insert HashSet.contains HashSet.insert
    nat_eq string_eq wrapping_add ws_fanout.Prelude.ℕ_discrete
ann_there = refl

ann_full : verdict ann.tx ≡ full
unfolding verdict chan_mpsc
ann_full = refl

ann_holds : holds crowded 1 "a" ≡ true
unfolding ws_fanout.Registry.Index.subscribed new add subscribe ws_fanout.Registry.admit
    ws_fanout.Registry.link publish publish_loop send deliver chan_mpsc chan_try_send HashMap.get
    HashMap.insert HashSet.contains HashSet.insert nat_eq string_eq wrapping_add
    ws_fanout.Prelude.ℕ_discrete
ann_holds = refl

-- Two drops in a row are too many.
abbrev pub impatient : Services String String String String
impatient = record services { config = record services.config { max_consecutive_drops = 2 } }

round-slow_example :
    goes_on
      (run 1 2
        (round impatient claims at_start (Event.tick 5 Write.written))
        (publish_all "a" (hello ∷ hello ∷ []) crowded)).1.1
    ≡ false
round-slow_example =
    round-slow impatient claims 1 2 at_start (Event.tick 5 Write.written) "a" (hello ∷ hello ∷ [])
      crowded ann (Reach-IsValid 2 1 crowded-Reach) ann_there ann_holds ann_full (omega arith)
      (omega arith) tt

-- Two sources, and the caller's clone dropped.
abbrev left_alone : Clones
left_alone = record { callers = 0; sources = 2; accepting = true }

left_alone-Lives : Lives left_alone
unfolding bound consume_outcry drop_server drop_accepting nat_eq ws_fanout.Prelude.ℕ_discrete
left_alone-Lives =
    Lives.later
      (Lives.later (Lives.later Lives.start (consumes (omega arith))) (consumes (omega arith)))
      (drops (omega arith))

looking-stops_example : (looking 3 left_alone).accepting ≡ ltb 1 2
looking-stops_example = looking-stops left_alone 2 left_alone-Lives refl (omega arith)

-- A configuration with no room for a frame.
abbrev queueless : Builder String String
queueless = record {
  config = record services.config { send_queue = 0 };
  validator = services.validator;
  authorizer = services.authorizer;
  snapshots = services.snapshots;
}

abbrev bad_queue : Error String String
bad_queue = Error.config "send_queue must be non-zero"

abbrev listener : Result String ℕ
listener = ok 9001

refused : bind {Tx = Chan} {Sem = Permits} queueless listener ≡ err bad_queue
unfolding bind ws_fanout.Server.Config.validate permits_semaphore ws_fanout.Prelude.ℕ_discrete
    nat_eq
refused = refl

bind-error_example :
    ((bad_queue ≡ Error.config (config_text bad_queue))
      × ¬ IsAccepted permits_semaphore.max_permits queueless.config)
    ⊎ ((x : String) × (listener ≡ err x)
        × (bad_queue ≡ Error.io x)
        × IsAccepted permits_semaphore.max_permits queueless.config)
bind-error_example = bind-error queueless listener bad_queue refused
