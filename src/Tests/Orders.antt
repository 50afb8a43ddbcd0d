-- ===== src/Tests/Orders.antt =====
-- Two registries that hold the same in different orders.
use ws_fanout.Prelude.{
  ℕ, suc, ◌+◌, ◌-◌, ◌*◌, ◌%◌, ◌≤◌, ◌<◌, ◌≡◌, ◌≢◌, ◌↔◌, refl, Bool, true, false, ◌||◌, ◌&&◌, not,
  Option, none, some, String, List, [], ◌∷◌, ◌++◌, map, foldl, arith, Eq, ◌==◌, leb, ltb,
  if◌then◌else◌, length, is_empty, All, Bool-cases, Option-cases, inl, inr, ◌⊎◌, ◌∙◌, ap, sym,
  nat_eq, string_eq, wrapping_add, wrapping_sub, u64_mod, wrapping_add_exact, wrapping_add-lt,
  ==_refl, ==_iff, ==_comm, Result, ok, err, Result-cases, filter_b, filter_b-All, All-filter_b,
  partition, Bool-ext, All-append, length-append,
}
use ws_fanout.Collections.HashMap
use ws_fanout.Collections.HashSet
use ws_fanout.Registry.{Registry, ConnectionId, new, no_metrics, add, subscribe, admit, link}
use ws_fanout.Registry.Calls.{Call, publishing, receiving, perform}
use ws_fanout.Registry.Calls.Entries.{perform-IsValid}
use ws_fanout.Registry.Invariant.{IsValid}
use ws_fanout.Registry.Order.{Alike, AlikeEntry, AlikeEntry-refl, Similar}
use ws_fanout.Registry.Order.Runs.{
  Answer, run, answer, Shuffled, stop, call, Similar-refl, run-Shuffled,
}
use ws_fanout.Registry.Reach.{Reach, start, later, joins, subscribes, Reach-IsValid}
use ws_fanout.Tests.Queue.{Chan, chan_mpsc}
use ws_fanout.Tests.Sample.{hello, chan, entry}

-- Two connections that hold the channel "a", the first "b" as well.
abbrev holding : List String → List ConnectionId → Registry Chan
holding channels ids = record {
  inner = record {
    connections = (1, entry "ann" channels) ∷ (2, entry "bob" ("a" ∷ [])) ∷ [];
    by_channel = ("a", ids) ∷ ("b", 1 ∷ []) ∷ [];
  };
  next_id = 3;
  metrics = record no_metrics { connections_active = 2; connections_total = 2 };
}

abbrev one_way : Registry Chan
one_way = holding ("b" ∷ "a" ∷ []) (2 ∷ 1 ∷ [])

abbrev other_way : Registry Chan
other_way = holding ("a" ∷ "b" ∷ []) (1 ∷ 2 ∷ [])

abbrev two : Registry Chan
two = (add (add (new no_metrics) "ann" (chan 4)).0 "bob" (chan 4)).0

two-Reach : Reach 2 4 two
unfolding add new wrapping_add chan_mpsc
two-Reach = later (later start (joins "ann" (omega arith))) (joins "bob" (omega arith))

made_one_way : (subscribe (subscribe two 1 ("a" ∷ "b" ∷ []) 2).0 2 ("a" ∷ []) 2).0 ≡ one_way
unfolding add new subscribe admit link HashMap.get HashMap.insert HashSet.contains HashSet.insert
    nat_eq string_eq wrapping_add ws_fanout.Prelude.ℕ_discrete
made_one_way = refl

made_other_way : (subscribe (subscribe two 2 ("a" ∷ []) 2).0 1 ("b" ∷ "a" ∷ []) 2).0 ≡ other_way
unfolding add new subscribe admit link HashMap.get HashMap.insert HashSet.contains HashSet.insert
    nat_eq string_eq wrapping_add ws_fanout.Prelude.ℕ_discrete
made_other_way = refl

one_way-IsValid : IsValid one_way
one_way-IsValid = Reach-IsValid 2 4 (
    rw (sym made_one_way)
      (later (later two-Reach (subscribes 1 ("a" ∷ "b" ∷ []))) (subscribes 2 ("a" ∷ []))))

other_way-IsValid : IsValid other_way
other_way-IsValid = Reach-IsValid 2 4 (
    rw (sym made_other_way)
      (later (later two-Reach (subscribes 2 ("a" ∷ []))) (subscribes 1 ("b" ∷ "a" ∷ []))))

ann-Alike : Alike (entry "ann" ("b" ∷ "a" ∷ [])) (entry "ann" ("a" ∷ "b" ∷ []))
unfolding HashSet.contains
ann-Alike = record { subject = refl; tx = refl; dropped = refl; held = λ ch. ground arith }

ways-entries :
    (k : ConnectionId)
    → AlikeEntry (HashMap.get k one_way.connections) (HashMap.get k other_way.connections)
unfolding AlikeEntry HashMap.get
ways-entries k = elim (Bool-cases (◌==◌ {A = ℕ} 1 k)) [
  | inl e ↦ rw (e, HashMap.get) ann-Alike
  | inr e ↦ rw (e, HashMap.get) (AlikeEntry-refl (HashMap.get k ((2, entry "bob" ("a" ∷ [])) ∷ [])))
]

ways-Similar : Similar one_way other_way
ways-Similar = record {
  valid = one_way-IsValid;
  valid' = other_way-IsValid;
  ids = refl;
  metrics = refl;
  entries = ways-entries;
}

-- The frame is delivered in the other order.
abbrev delivered : Registry Chan
delivered = perform 2 4 (publishing "a" hello) other_way

abbrev asked : List Call
asked = publishing "a" hello ∷ receiving 1 ∷ []

abbrev answers : List Answer
answers = answer 2 4 (publishing "a" hello) other_way ∷ answer 2 4 (receiving 1) delivered ∷ []

abbrev last : Registry Chan
last = perform 2 4 (receiving 1) delivered

delivered-Similar : Similar delivered delivered
delivered-Similar =
    Similar-refl delivered
      (perform-IsValid 2 4 (publishing "a" hello) other_way (omega arith) other_way-IsValid)

shuffled : Shuffled 2 4 one_way asked answers last
shuffled = call (publishing "a" hello) ways-Similar (call (receiving 1) delivered-Similar stop)

run-Shuffled_example :
    (answers ≡ (run 2 4 asked one_way).1) × Similar (run 2 4 asked one_way).0 last
run-Shuffled_example =
    run-Shuffled 2 4 one_way one_way asked answers last (Similar-refl one_way one_way-IsValid)
      (omega arith) shuffled
