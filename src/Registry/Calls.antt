-- ===== src/Registry/Calls.antt =====
-- The calls on the registry of src/registry.rs as data, and what a call makes of one connection's entry.
pub mod Entries
use ws_fanout.Prelude.{
  ℕ, suc, ◌+◌, ◌-◌, ◌*◌, ◌%◌, ◌≤◌, ◌<◌, ◌≡◌, ◌≢◌, ◌↔◌, refl, Bool, true, false, ◌||◌, ◌&&◌, not,
  Option, none, some, String, List, [], ◌∷◌, ◌++◌, map, foldl, arith, Eq, ◌==◌, leb, ltb,
  if◌then◌else◌, length, is_empty, All, Bool-cases, Option-cases, inl, inr, ◌⊎◌, ◌∙◌, ap, sym,
  nat_eq, string_eq, wrapping_add, wrapping_sub, u64_mod, wrapping_add_exact, wrapping_add-lt,
  ==_refl, ==_iff, ==_comm, Result, ok, err, Result-cases, filter_b, filter_b-All, All-filter_b,
  partition, Bool-ext, All-append, length-append,
}
use mathlib.Core.Option
use ws_fanout.Collections.HashMap
use ws_fanout.Collections.HashMap.{HashMap}
use ws_fanout.Collections.HashSet
use ws_fanout.Protocol.{Frame}
use ws_fanout.Mpsc.{Mpsc}
use ws_fanout.Registry.{
  Registry, Connection, ConnectionId, joined, admit, admission, withdraw, withdrawal, add, remove,
  subscribe, unsubscribe,
}
use ws_fanout.Registry.Counters.{count_timeout, count_refused}
use ws_fanout.Registry.Deliver.{after_delivery, send-get}
use ws_fanout.Registry.Deliveries.{deliver, send, publish, broadcast}
use ws_fanout.Registry.Index.{subscribed}
use ws_fanout.Registry.Invariant.{
  IsValid, add-IsValid, remove-IsValid, subscribe-IsValid, unsubscribe-IsValid,
}
use ws_fanout.Registry.Keeps.{
  Keeps, Keeps-refl, Keeps-IsValid, send-Keeps, publish-Keeps, broadcast-Keeps, broadcast_loop-get,
  count_timeout-Keeps, count_refused-Keeps,
}
use ws_fanout.Registry.Publish.{publish-get}
use ws_fanout.Registry.Reach.{
  Step, joins, leaves, subscribes, unsubscribes, publishes, broadcasts, sends, receives, hangs_up,
  times_out, refuses,
}
use ws_fanout.Registry.Receiver.{with_tx, receive, hang_up}
use ws_fanout.Registry.Receiver.Keeps.{with_tx-Keeps, receive-with_tx, hang_up_cases, hang_up-Keeps}

-- A call, by whoever makes it.
pub data Call : Type 0 where
  join : String → Call
  leave : ConnectionId → Call
  subscribing : ConnectionId → List String → Call
  unsubscribing : ConnectionId → List String → Call
  publishing : String → Frame → Call
  broadcasting : Frame → Call
  sending : ConnectionId → Frame → Call
  receiving : ConnectionId → Call
  hanging_up : ConnectionId → Call
  timing_out refusing : Call

-- The id that the next connection gets.
unfoldable pub ids_after : Call → ℕ → ℕ
ids_after (join subject) n = wrapping_add n 1
ids_after _ n = n

module _ {Tx : Type 0} ⦃mpsc : Mpsc Tx⦄ where
  -- The registry after a `receive`, whatever it returned.
  unfoldable pub received : Registry Tx → ConnectionId → Registry Tx
  received r id = elim (receive r id) [ none ↦ r | some (_, s) ↦ s ]

  -- The entry after a `receive`.
  unfoldable pub drained : Connection Tx → Connection Tx
  drained c = elim (mpsc.recv c.tx) [ none ↦ c | some (_, t) ↦ record c { tx = t } ]

  module _ (max cap : ℕ) where
    unfoldable pub perform : Call → Registry Tx → Registry Tx
    unfolding received
    perform (join subject) r = (add r subject (mpsc.channel cap)).0
    perform (leave id) r = remove r id
    perform (subscribing id chs) r = (subscribe r id chs max).0
    perform (unsubscribing id chs) r = (unsubscribe r id chs).0
    perform (publishing ch f) r = (publish r ch f).0
    perform (broadcasting f) r = (broadcast r f).0
    perform (sending id f) r = (send r id f).0
    perform (receiving id) r = received r id
    perform (hanging_up id) r = hang_up r id
    perform timing_out r = count_timeout r
    perform refusing r = count_refused r

    -- The entry `o` of the connection `k` after the call, where the next id is `n`.
    unfoldable pub entry_after :
        Call → ℕ → ConnectionId → Option (Connection Tx) → Option (Connection Tx)
    entry_after (join subject) n k o =
        if n == k then some (joined subject (mpsc.channel cap)) else o
    entry_after (leave id) n k o = if id == k then none else o
    entry_after (subscribing id chs) n k o =
        if id == k
        then Option.map
            (λ (c : Connection Tx). record c {
              subscriptions = (foldl (admit max) (admission c.subscriptions) chs).subscriptions;
            })
            o
        else o
    entry_after (unsubscribing id chs) n k o =
        if id == k
        then Option.map
            (λ (c : Connection Tx). record c {
              subscriptions = (foldl withdraw (withdrawal c.subscriptions) chs).subscriptions;
            })
            o
        else o
    entry_after (publishing ch f) n k o =
        Option.map
          (λ (c : Connection Tx).
            if HashSet.contains ch c.subscriptions then after_delivery f c else c)
          o
    entry_after (broadcasting f) n k o = Option.map (after_delivery f) o
    entry_after (sending id f) n k o = if id == k then Option.map (after_delivery f) o else o
    entry_after (receiving id) n k o = if id == k then Option.map drained o else o
    entry_after (hanging_up id) n k o =
        if id == k
        then Option.map (λ (c : Connection Tx). record c { tx = mpsc.close c.tx }) o
        else o
    entry_after timing_out n k o = o
    entry_after refusing n k o = o
