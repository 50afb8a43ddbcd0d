-- ===== src/Tests/Slots.antt =====
-- A server with two permits, src/server.rs's `serve`.
use ws_fanout.Prelude.{
  ℕ, ◌+◌, ◌-◌, ◌≤◌, ◌<◌, ◌≡◌, refl, Option, none, some, arith, ltb, if◌then◌else◌, ◌⊎◌, nat_eq,
  string_eq, u64_mod,
}
use ws_fanout.Registry.{Registry}
use ws_fanout.Registry.Counters.{count_refused}
use ws_fanout.Server.Serve.{
  Semaphore, Running, started, accept, join, Serves, start, later, accepts, joins,
}
use ws_fanout.Server.Serve.Slots.{tasks, tasks-max, accept-tasks}
use ws_fanout.Registry
use ws_fanout.Tests.Queue.{Chan, chan_mpsc}
use ws_fanout.Tests.Sample.{chan}

-- The free permits.
pub record Permits : Type 0 where
  pub free : ℕ

unfoldable pub permits_try_acquire : Permits → Option Permits
permits_try_acquire s = if ltb 0 s.free then some (record { free = s.free - 1 }) else none

pub refuses_none : (s : Permits) → s.free ≡ 0 → permits_try_acquire s ≡ none
unfolding permits_try_acquire
refuses_none s h = ground (arith, h)

pub takes_one :
    (s : Permits)
    → 0 < s.free
    → (t : Permits) × (permits_try_acquire s ≡ some t) × (t.free + 1 ≡ s.free)
unfolding permits_try_acquire
takes_one s h = (record { free = s.free - 1 }, ground (arith, h), omega (arith, h))

instance unfoldable pub permits_semaphore : Semaphore Permits
permits_semaphore = record {
  max_permits = 2305843009213693951;
  new = λ n. record { free = n };
  try_acquire = permits_try_acquire;
  release = λ s. record { free = s.free + 1 };
  available = λ s. s.free;
  new_lem = λ n few. refl;
  try_acquire_none = refuses_none;
  try_acquire_some = takes_one;
  release_lem = λ s. refl;
}

-- Two sockets have come, and one of the two tasks has joined the registry.
abbrev two_in : Running Chan Permits
two_in = join "ann" (chan 4) (accept (accept (started 2)))

waiting : 0 < (accept (accept (started {Tx = Chan} {Sem = Permits} 2))).entering
unfolding accept started permits_semaphore permits_try_acquire
waiting = omega arith

room : (accept (accept (started {Tx = Chan} {Sem = Permits} 2))).registry.next_id + 1 < u64_mod
unfolding accept started permits_semaphore permits_try_acquire Registry.new
room = omega arith

served : Serves 2 two_in
served = later (later (later start accepts) accepts) (joins "ann" (chan 4) waiting room)

few : 2 ≤ permits_semaphore.max_permits
unfolding permits_semaphore
few = omega arith

tasks-max_example : tasks two_in ≤ 2
tasks-max_example = tasks-max 2 two_in few served

accept-tasks_example :
    ((tasks two_in < 2)
      × (tasks (accept two_in) ≡ tasks two_in + 1)
      × ((accept two_in).registry ≡ two_in.registry))
    ⊎ ((tasks two_in ≡ 2)
        × (accept two_in ≡ record two_in { registry = count_refused two_in.registry }))
accept-tasks_example = accept-tasks 2 two_in few served
