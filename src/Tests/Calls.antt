-- ===== src/Tests/Calls.antt =====
-- The calls of src/registry.rs on the small registry.
use ws_fanout.Prelude.{
  ℕ, suc, ◌+◌, ◌-◌, ◌*◌, ◌%◌, ◌≤◌, ◌<◌, ◌≡◌, ◌≢◌, ◌↔◌, refl, Bool, true, false, ◌||◌, ◌&&◌, not,
  Option, none, some, String, List, [], ◌∷◌, ◌++◌, map, foldl, arith, Eq, ◌==◌, leb, ltb,
  if◌then◌else◌, length, is_empty, All, Bool-cases, Option-cases, inl, inr, ◌⊎◌, ◌∙◌, ap, sym,
  nat_eq, string_eq, wrapping_add, wrapping_sub, u64_mod, wrapping_add_exact, wrapping_add-lt,
  ==_refl, ==_iff, ==_comm, Result, ok, err, Result-cases, filter_b, filter_b-All, All-filter_b,
  partition, Bool-ext, All-append, length-append,
}
use ws_fanout.Collections.HashMap
use ws_fanout.Collections.HashMap.{keys}
use ws_fanout.Collections.HashSet
use ws_fanout.Registry.{Connection, no_metrics, subscribe, unsubscribe, remove, admit}
use ws_fanout.Registry.Deliveries.{deliver, send, publish, publish_loop}
use ws_fanout.Registry.Counts.{counts}
use ws_fanout.Registry.Deliver.{verdict}
use ws_fanout.Registry.Invariant.{IsValid}
use ws_fanout.Registry.Publish.{publish-scan, publish-counts, scan, reaches}
use ws_fanout.Registry.Queues.{Settled, deliver-Settled}
use ws_fanout.Registry.Reach.{Reach-IsValid, Reach-IsWithin}
use ws_fanout.Registry.Subscriptions.{
  holds, held, subscribe-holds, remove-holds, unsubscribe-subscribe, subscribe-held,
}
use ws_fanout.Registry.Within.{IsWithin}
use ws_fanout.Tests.Queue.{Chan, chan_mpsc, chan_try_send}
use ws_fanout.Tests.Sample.{hello, entry, pair, pair-Reach, pair-IsValid}

abbrev ann : Connection Chan
ann = entry "ann" ("b" ∷ "a" ∷ [])

ann_there : HashMap.get 1 pair.connections ≡ some ann
unfolding HashMap.get nat_eq ws_fanout.Prelude.ℕ_discrete
ann_there = refl

-- One frame for the one subscriber.
publish_one : (publish pair "a" hello).1 ≡ 1
unfolding publish publish_loop send deliver chan_mpsc chan_try_send HashMap.get HashMap.insert
    nat_eq string_eq wrapping_add ws_fanout.Prelude.ℕ_discrete
publish_one = refl

-- The third channel is over the limit of two.
third_refused : (subscribe pair 1 ("b" ∷ "c" ∷ []) 2).1 ≡ []
unfolding subscribe admit HashMap.get HashSet.contains nat_eq string_eq ws_fanout.Prelude.ℕ_discrete
third_refused = refl

third_reported : (subscribe pair 1 ("b" ∷ "c" ∷ []) 2).2 ≡ "c" ∷ []
unfolding subscribe admit HashMap.get HashSet.contains nat_eq string_eq ws_fanout.Prelude.ℕ_discrete
third_reported = refl

Reach-IsValid_example : IsValid pair
Reach-IsValid_example = Reach-IsValid 2 4 pair-Reach

Reach-IsWithin_example : IsWithin 2 4 ann
Reach-IsWithin_example = Reach-IsWithin 2 4 1 ann pair-Reach ann_there

publish-scan_example :
    HashMap.get 1 (publish pair "a" hello).0.connections
    ≡ HashMap.get 1 (scan hello "a" pair.connections)
publish-scan_example = publish-scan pair "a" hello 1 pair-IsValid

publish-counts_example :
    (publish pair "a" hello).1 ≡ counts (reaches pair "a") (keys pair.connections)
publish-counts_example = publish-counts pair "a" hello pair-IsValid

deliver-Settled_example :
    Settled
      (verdict ann.tx)
      no_metrics
      ann
      hello
      (deliver no_metrics ann hello).metrics
      (deliver no_metrics ann hello).connection
deliver-Settled_example = deliver-Settled no_metrics ann hello

subscribe-held_example :
    (held (subscribe pair 1 ("b" ∷ "c" ∷ []) 2).0 1 ≤ 2)
    × (held (subscribe pair 1 ("b" ∷ "c" ∷ []) 2).0 1
        ≡ held pair 1 + length (subscribe pair 1 ("b" ∷ "c" ∷ []) 2).1)
    × ((held (subscribe pair 1 ("b" ∷ "c" ∷ []) 2).0 1 ≡ 2)
        ⊎ ((subscribe pair 1 ("b" ∷ "c" ∷ []) 2).2 ≡ []))
subscribe-held_example =
    subscribe-held pair 1 ("b" ∷ "c" ∷ []) 2 pair-IsValid ann ann_there (omega arith)

unsubscribe-subscribe_example :
    holds
      (unsubscribe (subscribe pair 2 ("a" ∷ []) 2).0 2 (subscribe pair 2 ("a" ∷ []) 2).1).0
      2
      "a"
    ≡ holds pair 2 "a"
unsubscribe-subscribe_example = unsubscribe-subscribe pair 2 ("a" ∷ []) 2 pair-IsValid 2 "a"

subscribe-holds_example : holds (subscribe pair 2 ("a" ∷ []) 2).0 2 "a" ≡ (
    holds pair 2 "a"
    || (◌==◌ {A = ℕ} 2 2 && HashSet.contains {A = String} "a" (subscribe pair 2 ("a" ∷ []) 2).1))
subscribe-holds_example = subscribe-holds pair 2 2 ("a" ∷ []) 2 "a" pair-IsValid

remove-holds_example : holds (remove pair 1) 1 "a" ≡ (holds pair 1 "a" && not (◌==◌ {A = ℕ} 1 1))
remove-holds_example = remove-holds pair 1 1 "a"
