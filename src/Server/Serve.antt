-- ===== src/Server/Serve.antt =====
-- `serve` of src/server.rs and what bounds the open connections: one permit of a semaphore for each
-- connection's task. tokio's semaphore is the parameter `Semaphore`, the listener gives the
-- sockets. The tasks that are in the registry are its entries; those that are not are counted.
pub mod Slots
use ws_fanout.Prelude.{
  ℕ, suc, ◌+◌, ◌-◌, ◌*◌, ◌%◌, ◌≤◌, ◌<◌, ◌≡◌, ◌≢◌, ◌↔◌, refl, Bool, true, false, ◌||◌, ◌&&◌, not,
  Option, none, some, String, List, [], ◌∷◌, ◌++◌, map, foldl, arith, Eq, ◌==◌, leb, ltb,
  if◌then◌else◌, length, is_empty, All, Bool-cases, Option-cases, inl, inr, ◌⊎◌, ◌∙◌, ap, sym,
  nat_eq, string_eq, wrapping_add, wrapping_sub, u64_mod, wrapping_add_exact, wrapping_add-lt,
  ==_refl, ==_iff, ==_comm, Result, ok, err, Result-cases, filter_b, filter_b-All, All-filter_b,
  partition, Bool-ext, All-append, length-append,
}
use ws_fanout.Collections.HashMap
use ws_fanout.Protocol.{Frame}
use ws_fanout.Mpsc.{Mpsc}
use ws_fanout.Registry.{Registry, ConnectionId, no_metrics}
use ws_fanout.Registry
use ws_fanout.Registry.Deliveries
use ws_fanout.Registry.Counters.{count_timeout, count_refused}
use ws_fanout.Registry.Receiver.{receive, hang_up}
use ws_fanout.Server.Task.Own.{open_at}

-- `tokio::sync::Semaphore`. `try_acquire` takes a permit, `release` is the drop of one; `new` panics beyond
-- `max_permits`.
pub record Semaphore (Sem : Type 0) : Type 0 where
  pub max_permits : ℕ
  pub new : ℕ → Sem
  pub try_acquire : Sem → Option Sem
  pub release : Sem → Sem
  pub available : Sem → ℕ
  pub new_lem : (n : ℕ) → n ≤ max_permits → available (new n) ≡ n
  pub try_acquire_none : (s : Sem) → available s ≡ 0 → try_acquire s ≡ none
  pub try_acquire_some :
      (s : Sem)
      → 0 < available s
      → (t : Sem) × (try_acquire s ≡ some t) × (available t + 1 ≡ available s)
  pub release_lem : (s : Sem) → available (release s) ≡ available s + 1

-- The registry, the permits, the tasks that have not joined the registry yet, and those that have left
-- it and not dropped their permit yet.
pub record Running (Tx Sem : Type 0) : Type 0 where
  pub registry : Registry Tx
  pub slots : Sem
  pub entering : ℕ
  pub leaving : ℕ

module _ {Tx Sem : Type 0} ⦃semaphore : Semaphore Sem⦄ where
  -- What `bind` starts with.
  unfoldable pub started : ℕ → Running Tx Sem
  started max_connections = record {
    registry = Registry.new no_metrics;
    slots = semaphore.new max_connections;
    entering = 0;
    leaving = 0;
  }

  -- One round of the accept loop, for a socket that the listener gave. On an error of the listener the
  -- loop ends, and there are no more of these.
  unfoldable pub accept : Running Tx Sem → Running Tx Sem
  accept w = elim (semaphore.try_acquire w.slots) [
    | none ↦ record w { registry = count_refused w.registry }
    | some slots ↦ record w { slots = slots; entering = w.entering + 1 }
  ]

  -- A task ends before it has joined the registry.
  unfoldable pub fail : Running Tx Sem → Running Tx Sem
  fail w = record w { entering = w.entering - 1; leaving = w.leaving + 1 }

  -- A task joins the registry.
  unfoldable pub join : String → Tx → Running Tx Sem → Running Tx Sem
  join subject tx w = record w {
    registry = (Registry.add w.registry subject tx).0;
    entering = w.entering - 1;
  }

  -- The guard of a task takes it out of the registry.
  unfoldable pub leave : ConnectionId → Running Tx Sem → Running Tx Sem
  leave id w = record w { registry = Registry.remove w.registry id; leaving = w.leaving + 1 }

  -- A task's permit is dropped.
  unfoldable pub drop_permit : Running Tx Sem → Running Tx Sem
  drop_permit w = record w { slots = semaphore.release w.slots; leaving = w.leaving - 1 }

-- What tasks and publishers do to the registry while no connection comes or goes.
pub data Call {Tx : Type 0} ⦃mpsc : Mpsc Tx⦄ (r : Registry Tx) : Registry Tx → Type 0 where
  subscribes :
      (id : ConnectionId) (chs : List String) (max : ℕ) → Call r (Registry.subscribe r id chs max).0
  unsubscribes : (id : ConnectionId) (chs : List String) → Call r (Registry.unsubscribe r id chs).0
  publishes : (ch : String) (f : Frame) → Call r (Deliveries.publish r ch f).0
  broadcasts : (f : Frame) → Call r (Deliveries.broadcast r f).0
  sends : (id : ConnectionId) (f : Frame) → Call r (Deliveries.send r id f).0
  receives :
      (id : ConnectionId) (f : Frame) {s : Registry Tx} → receive r id ≡ some (f, s) → Call r s
  hangs_up : (id : ConnectionId) → Call r (hang_up r id)
  times_out : Call r (count_timeout r)

-- One move of the server. A task joins or fails only if one has not joined yet, leaves only if it is
-- in the registry, and drops its permit only after it has left.
pub data Move {Tx Sem : Type 0} ⦃mpsc : Mpsc Tx⦄ ⦃semaphore : Semaphore Sem⦄ (w : Running Tx Sem)
    : Running Tx Sem → Type 0 where
  accepts : Move w (accept w)
  fails : 0 < w.entering → Move w (fail w)
  joins :
      (subject : String) (tx : Tx)
      → 0 < w.entering
      → w.registry.next_id + 1 < u64_mod
      → Move w (join subject tx w)
  calls : {s : Registry Tx} → Call w.registry s → Move w (record w { registry = s })
  leaves : (id : ConnectionId) → open_at w.registry id ≡ true → Move w (leave id w)
  drops_permit : 0 < w.leaving → Move w (drop_permit w)

-- Any number of moves.
pub data Moves {Tx Sem : Type 0} ⦃mpsc : Mpsc Tx⦄ ⦃semaphore : Semaphore Sem⦄ (v : Running Tx Sem)
    : Running Tx Sem → Type 0 where
  start : Moves v v
  later : {u w : Running Tx Sem} → Moves v u → Move u w → Moves v w

-- Everything that a server with a limit can come to.
abbrev pub Serves :
    {Tx Sem : Type 0} ⦃mpsc : Mpsc Tx⦄ ⦃semaphore : Semaphore Sem⦄ → ℕ → Running Tx Sem → Type 0
Serves max w = Moves (started max) w
