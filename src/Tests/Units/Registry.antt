-- ===== src/Tests/Units/Registry.antt =====
-- The unit tests of src/registry.rs. A test is its assertions, in order; a queue's receiving end is read
-- through the registry.
use ws_fanout.Prelude.{
  ℕ, suc, ◌+◌, ◌-◌, ◌*◌, ◌%◌, ◌≤◌, ◌<◌, ◌≡◌, ◌≢◌, ◌↔◌, refl, Bool, true, false, ◌||◌, ◌&&◌, not,
  Option, none, some, String, List, [], ◌∷◌, ◌++◌, map, foldl, arith, Eq, ◌==◌, leb, ltb,
  if◌then◌else◌, length, is_empty, All, Bool-cases, Option-cases, inl, inr, ◌⊎◌, ◌∙◌, ap, sym,
  nat_eq, string_eq, wrapping_add, wrapping_sub, u64_mod, wrapping_add_exact, wrapping_add-lt,
  ==_refl, ==_iff, ==_comm, Result, ok, err, Result-cases, filter_b, filter_b-All, All-filter_b,
  partition, Bool-ext, All-append, length-append,
}
use ws_fanout.Collections.HashMap
use ws_fanout.Collections.HashSet
use ws_fanout.Protocol.{Frame, as_str}
use ws_fanout.Registry
use ws_fanout.Registry.{
  Registry, ConnectionId, no_metrics, new, add, subscribe, unsubscribe, remove, subscribers, drops,
}
use ws_fanout.Registry.Deliveries.{deliver, send, publish, publish_loop}
use ws_fanout.Registry.Receiver.{receive, with_tx}
use ws_fanout.Tests.Queue.{Chan, chan_mpsc, chan_try_send, chan_recv}
use ws_fanout.Tests.Sample.{chan}

abbrev frame : String → Frame
frame s = record { text = s }

abbrev fresh : Registry Chan
fresh = new no_metrics

-- `assert_eq!` of two lists of names.
unfoldable assert_names : List String → List String → Bool
assert_names [] [] = true
assert_names (a ∷ rest) (b ∷ others) = a == b && assert_names rest others
assert_names _ _ = false

-- The text of the frame that is waiting, if there is one.
unfoldable try_recv : Registry Chan → ConnectionId → Option String
unfolding receive as_str
try_recv reg id = elim (receive reg id) [ none ↦ none | some (f, _) ↦ some (as_str f) ]

-- The registry after a `try_recv`.
unfoldable drained : Registry Chan → ConnectionId → Registry Chan
unfolding receive
drained reg id = elim (receive reg id) [ none ↦ reg | some (_, reg') ↦ reg' ]

unfoldable assert_text : Option String → String → Bool
assert_text none expected = false
assert_text (some text) expected = text == expected

unfoldable assert_none : Option String → Bool
assert_none none = true
assert_none (some _) = false

abbrev publish_reaches_subscribers_only : Bool
publish_reaches_subscribers_only =
    let (reg, a) = add fresh "a" (chan 8) in
    let (reg, b) = add reg "b" (chan 8) in
    let reg = (subscribe reg a ("ch" ∷ []) 10).0 in
    let one = subscribers reg "ch" == 1 in
    let (reg, sent_x) = publish reg "ch" (frame "x") in
    let got = assert_text (try_recv reg a) "x" in
    let reg = drained reg a in
    let nothing = assert_none (try_recv reg b) in
    let (reg, sent_y) = publish reg "other" (frame "y") in
    one && sent_x == 1 && got && nothing && sent_y == 0

abbrev subscription_limit_and_idempotence : Bool
subscription_limit_and_idempotence =
    let (reg, id) = add fresh "a" (chan 8) in
    let (reg, added, over) = subscribe reg id ("a" ∷ "b" ∷ "c" ∷ []) 2 in
    let limited = assert_names added ("a" ∷ "b" ∷ []) && assert_names over ("c" ∷ []) in
    let (reg, again, over_again) = subscribe reg id ("a" ∷ []) 2 in
    let idempotent = is_empty again && is_empty over_again in
    let (reg, gone) = unsubscribe reg id ("a" ∷ "zzz" ∷ []) in
    limited && idempotent && assert_names gone ("a" ∷ []) && subscribers reg "a" == 0

abbrev remove_cleans_channel_index : Bool
remove_cleans_channel_index =
    let (reg, id) = add fresh "a" (chan 8) in
    let reg = (subscribe reg id ("ch" ∷ []) 10).0 in
    let reg = remove reg id in
    subscribers reg "ch" == 0 && Registry.len reg == 0 && reg.metrics.connections_active == 0

abbrev full_queue_drops_and_counts : Bool
full_queue_drops_and_counts =
    let (reg, id) = add fresh "slow" (chan 1) in
    let reg = (subscribe reg id ("ch" ∷ []) 10).0 in
    let (reg, first) = publish reg "ch" (frame "1") in
    let (reg, second) = publish reg "ch" (frame "2") in
    first == 1 && second == 0 && reg.metrics.frames_dropped == 1

abbrev publish_drops_build_a_streak_that_a_delivery_clears : Bool
publish_drops_build_a_streak_that_a_delivery_clears =
    let (reg, id) = add fresh "slow" (chan 1) in
    let reg = (subscribe reg id ("ch" ∷ []) 10).0 in
    let reg = (publish reg "ch" (frame "1")).0 in
    let no_drop = drops reg id == 0 in
    let reg = (publish reg "ch" (frame "2")).0 in
    let reg = (publish reg "ch" (frame "3")).0 in
    let two_drops = drops reg id == 2 in
    let reg = drained reg id in
    let reg = (publish reg "ch" (frame "4")).0 in no_drop && two_drops && drops reg id == 0

registry_tests_pass :
    (publish_reaches_subscribers_only ≡ true)
    × (subscription_limit_and_idempotence ≡ true)
    × (remove_cleans_channel_index ≡ true)
    × (full_queue_drops_and_counts ≡ true)
    × (publish_drops_build_a_streak_that_a_delivery_clears ≡ true)
unfolding new add subscribe unsubscribe remove drops subscribers Registry.admit Registry.link
    Registry.withdraw Registry.unlink Registry.len publish publish_loop send deliver receive with_tx
    try_recv drained assert_text assert_none assert_names as_str chan_mpsc chan_try_send chan_recv
    HashMap.get HashMap.insert HashMap.remove HashSet.contains HashSet.insert HashSet.remove nat_eq
    string_eq wrapping_add wrapping_sub ws_fanout.Prelude.ℕ_discrete
registry_tests_pass = (refl, refl, refl, refl, refl)
