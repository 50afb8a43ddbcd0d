-- ===== src/Tests/Fifo.antt =====
-- A frame that is published on the small registry, and written by the session of the subscriber.
use ws_fanout.Prelude.{
  ℕ, suc, ◌+◌, ◌-◌, ◌*◌, ◌%◌, ◌≤◌, ◌<◌, ◌≡◌, ◌≢◌, ◌↔◌, refl, Bool, true, false, ◌||◌, ◌&&◌, not,
  Option, none, some, String, List, [], ◌∷◌, ◌++◌, map, foldl, arith, Eq, ◌==◌, leb, ltb,
  if◌then◌else◌, length, is_empty, All, Bool-cases, Option-cases, inl, inr, ◌⊎◌, ◌∙◌, ap, sym,
  nat_eq, string_eq, wrapping_add, wrapping_sub, u64_mod, wrapping_add_exact, wrapping_add-lt,
  ==_refl, ==_iff, ==_comm, Result, ok, err, Result-cases, filter_b, filter_b-All, All-filter_b,
  partition, Bool-ext, All-append, length-append,
}
use mathlib.Core.Path.{subst}
use ws_fanout.Collections.HashMap
use ws_fanout.Collections.HashSet
use ws_fanout.Mpsc.{sent}
use ws_fanout.Registry.{Registry, Connection, drops}
use ws_fanout.Registry.Calls.{received}
use ws_fanout.Registry.Deliveries.{publish, publish_loop, send, deliver}
use ws_fanout.Registry.Invariant.{IsValid}
use ws_fanout.Registry.Reach.{publishes}
use ws_fanout.Registry.Receiver.{receive, with_tx}
use ws_fanout.Registry.Stream.{Extends, Undisturbed, stay, next}
use ws_fanout.Server.Session.{Event, Write, Session, continue, round, outbound}
use ws_fanout.Server.Session.Delivers.{pump, publish-pump}
use ws_fanout.Registry.Deliver.{verdict}
use ws_fanout.Registry.Index.{subscribed}
use ws_fanout.Registry.Stream.{queue_of}
use ws_fanout.Registry.Subscriptions.{holds}
use ws_fanout.Server.Session.Fifo.{Goes, Rounds, start, outbound_round, stream, Rounds-Extends}
use ws_fanout.Server.Task.{Among, run, run-Among}
use ws_fanout.Protocol.{to_message}
use ws_fanout.Tests.Queue.{Chan, chan_mpsc, chan_try_send, chan_recv}
use ws_fanout.Tests.Sample.{hello, entry, pair, pair-IsValid}
use ws_fanout.Tests.Services.{services, claims, at_start}

abbrev published : Registry Chan
published = (publish pair "a" hello).0

-- The subscriber's task has taken the frame.
abbrev taken_out : Registry Chan
taken_out = received published 1

got : receive published 1 ≡ some (hello, taken_out)
unfolding received receive with_tx publish publish_loop send deliver chan_mpsc chan_try_send
    chan_recv HashMap.get HashMap.insert nat_eq string_eq wrapping_add ws_fanout.Prelude.ℕ_discrete
got = refl

abbrev write_hello : Event String
write_hello = outbound (some hello) Write.written

abbrev wrote : Session
wrote = record { last_seen = 0; wire = to_message hello ∷ []; closed = false }

abbrev after : Registry Chan
after = (run 1 2 (round services claims at_start write_hello) taken_out).0

hello_written :
    (run 1 2 (round services claims at_start write_hello) taken_out).1 ≡ (wrote, continue)
unfolding run round drops received receive with_tx publish publish_loop send deliver chan_mpsc
    chan_try_send chan_recv HashMap.get HashMap.insert nat_eq string_eq wrapping_add
    ws_fanout.Prelude.ℕ_discrete
hello_written = refl

hello-Goes : Goes services claims 1 2 4 write_hello at_start taken_out wrote after
hello-Goes =
    subst
      (λ b.
        Among (Undisturbed 2 4 1) 1 2 (round services claims at_start write_hello) taken_out after
          b)
      hello_written
      (run-Among (Undisturbed 2 4 1) (λ r. stay) 1 2 (round services claims at_start write_hello)
        taken_out)

rounds : Rounds services claims 1 2 4 at_start pair wrote after
unfolding ws_fanout.Registry.Calls.Entries.call_of
rounds = outbound_round start (next stay (publishes "a" hello) tt) got Write.written hello-Goes

Rounds-Extends_example : IsValid after × Extends (stream 1 at_start pair) (stream 1 wrote after)
Rounds-Extends_example = Rounds-Extends services claims 1 2 4 at_start pair pair-IsValid rounds

abbrev ann : Connection Chan
ann = entry "ann" ("b" ∷ "a" ∷ [])

ann_there : HashMap.get 1 pair.connections ≡ some ann
unfolding HashMap.get nat_eq ws_fanout.Prelude.ℕ_discrete
ann_there = refl

ann_holds : holds pair 1 "a" ≡ true
unfolding HashMap.get HashSet.contains subscribed nat_eq string_eq ws_fanout.Prelude.ℕ_discrete
ann_holds = refl

ann_room : verdict ann.tx ≡ sent
unfolding verdict chan_mpsc
ann_room = refl

publish-pump_example :
    let (r', s', flow) = pump services claims 1 2 1 at_start (publish pair "a" hello).0 in
    (flow ≡ continue) × (s'.wire ≡ to_message hello ∷ []) × (queue_of 1 r' ≡ [])
unfolding chan_mpsc
publish-pump_example =
    publish-pump services claims 1 2 at_start "a" hello pair ann pair-IsValid ann_there ann_holds
      ann_room (omega arith)
