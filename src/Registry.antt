-- ===== src/Registry.antt =====
-- src/registry.rs: the connections and their subscriptions.
-- Each method is one function from the registry to the new registry and the result, taken as one
-- step; a poisoned lock is entered all the same, so it adds no case.
-- The counters are 64-bit and wrap.
pub mod Deliveries
pub mod Index
pub mod Loops
pub mod Counts
pub mod Deliver
pub mod Invariant
pub mod Publish
pub mod Queues
pub mod Counters
pub mod Receiver
pub mod Within
pub mod Full
pub mod Calls
pub mod Stream
pub mod Race
pub mod Reach
pub mod Keeps
pub mod Order
pub mod Subscriptions
use ws_fanout.Prelude.{
  foldl, ℕ, ◌+◌, Bool, true, false, none, some, String, List, [], ◌∷◌, ◌++◌, length, leb,
  if◌then◌else◌, wrapping_add, wrapping_sub, is_empty, nat_eq, string_eq,
}
use ws_fanout.Collections.HashMap
use ws_fanout.Collections.HashMap.{HashMap, values}
use ws_fanout.Collections.HashSet
use ws_fanout.Collections.HashSet.{HashSet}
use ws_fanout.Protocol.{Frame}
use ws_fanout.Mpsc.{Mpsc, TrySend, sent, full, closed}

-- The `u64` in it.
abbrev pub ConnectionId : Type 0
ConnectionId = ℕ

pub record Connection (Tx : Type 0) : Type 0 where
  pub subject : String
  pub subscriptions : HashSet String
  pub tx : Tx
  pub dropped : ℕ

pub record Metrics : Type 0 where
  pub connections_active : ℕ
  pub connections_total : ℕ
  pub heartbeat_timeouts : ℕ
  pub refused_full : ℕ
  pub frames_sent : ℕ
  pub frames_dropped : ℕ

pub record Inner (Tx : Type 0) : Type 0 where
  pub connections : HashMap ConnectionId (Connection Tx)
  pub by_channel : HashMap String (HashSet ConnectionId)

pub record Registry (Tx : Type 0) : Type 0 where
  pub inner : Inner Tx
  pub open inner use *
  pub next_id : ℕ
  pub metrics : Metrics

-- `Metrics::default()`.
abbrev pub no_metrics : Metrics
no_metrics = record {
  connections_active = 0;
  connections_total = 0;
  heartbeat_timeouts = 0;
  refused_full = 0;
  frames_sent = 0;
  frames_dropped = 0;
}

module _ {Tx : Type 0} where
  unfoldable pub new : Metrics → Registry Tx
  new metrics = record {
    inner = record { connections = []; by_channel = [] };
    next_id = 1;
    metrics = metrics;
  }

  -- The entry of a connection that has just joined.
  abbrev pub joined : String → Tx → Connection Tx
  joined subject tx = record { subject = subject; subscriptions = []; tx = tx; dropped = 0 }

  unfoldable pub add : Registry Tx → String → Tx → Registry Tx × ConnectionId
  add r subject tx =
      let id = r.next_id in
      (
        record r {
          inner = record r.inner {
            connections = HashMap.insert id (joined subject tx) r.connections;
          };
          next_id = wrapping_add r.next_id 1;
          metrics = record r.metrics {
            connections_total = wrapping_add r.metrics.connections_total 1;
            connections_active = wrapping_add r.metrics.connections_active 1;
          };
        },
        id,
      )

-- `by_channel.entry(ch).or_default().insert(id)`.
unfoldable pub link :
    ConnectionId
    → HashMap String (HashSet ConnectionId)
    → String
    → HashMap String (HashSet ConnectionId)
link id index ch = elim (HashMap.get ch index) [
  | none ↦ HashMap.insert ch (HashSet.insert id []) index
  | some set ↦ HashMap.insert ch (HashSet.insert id set) index
]

-- Take `id` out of the channel's set, and the set out of the index once it is empty.
unfoldable pub unlink :
    ConnectionId
    → HashMap String (HashSet ConnectionId)
    → String
    → HashMap String (HashSet ConnectionId)
unlink id index ch = elim (HashMap.get ch index) [
  | none ↦ index
  | some set ↦
      let left = HashSet.remove id set in
      if is_empty left then HashMap.remove ch index else HashMap.insert ch left index
]

module _ {Tx : Type 0} where
  unfoldable pub remove : Registry Tx → ConnectionId → Registry Tx
  remove r id = elim (HashMap.get id r.connections) [
    | none ↦ r
    | some conn ↦ record r {
      inner = record {
        connections = HashMap.remove id r.connections;
        by_channel = foldl (unlink id) r.by_channel conn.subscriptions;
      };
      metrics = record r.metrics {
        connections_active = wrapping_sub r.metrics.connections_active 1;
      };
    }
  ]

  unfoldable pub len : Registry Tx → ℕ
  len r = length r.connections

  unfoldable pub subscribers : Registry Tx → String → ℕ
  subscribers r channel = elim (HashMap.get channel r.by_channel) [
    | none ↦ 0
    | some set ↦ length set
  ]

  unfoldable pub drops : Registry Tx → ConnectionId → ℕ
  drops r id = elim (HashMap.get id r.connections) [ none ↦ 0 | some conn ↦ conn.dropped ]

-- The loop of `subscribe`: the connection's set, and the two vectors that it returns.
pub record Admission : Type 0 where
  pub subscriptions : HashSet String
  pub added : List String
  pub over_limit : List String

-- Before the first channel.
abbrev pub admission : HashSet String → Admission
admission held = record { subscriptions = held; added = []; over_limit = [] }

unfoldable pub admit : ℕ → Admission → String → Admission
admit max a ch =
    if HashSet.contains ch a.subscriptions
    then a
    else if leb max (length a.subscriptions)
    then record a { over_limit = a.over_limit ++ ch ∷ [] }
    else record a { subscriptions = HashSet.insert ch a.subscriptions; added = a.added ++ ch ∷ [] }

-- The loop of `unsubscribe`.
pub record Withdrawal : Type 0 where
  pub subscriptions : HashSet String
  pub removed : List String

abbrev pub withdrawal : HashSet String → Withdrawal
withdrawal held = record { subscriptions = held; removed = [] }

unfoldable pub withdraw : Withdrawal → String → Withdrawal
withdraw w ch =
    if HashSet.contains ch w.subscriptions
    then record {
      subscriptions = HashSet.remove ch w.subscriptions;
      removed = w.removed ++ ch ∷ [];
    }
    else w

module _ {Tx : Type 0} where
  unfoldable pub subscribe :
      Registry Tx → ConnectionId → List String → ℕ → Registry Tx × List String × List String
  subscribe r id channels max = elim (HashMap.get id r.connections) [
    | none ↦ (r, [], [])
    | some conn ↦
        let a = foldl (admit max) (admission conn.subscriptions) channels in
        (
          record r {
            inner = record {
              connections =
                  HashMap.insert id (record conn { subscriptions = a.subscriptions }) r.connections;
              by_channel = foldl (link id) r.by_channel a.added;
            };
          },
          a.added,
          a.over_limit,
        )
  ]

  unfoldable pub unsubscribe : Registry Tx → ConnectionId → List String → Registry Tx × List String
  unsubscribe r id channels = elim (HashMap.get id r.connections) [
    | none ↦ (r, [])
    | some conn ↦
        let w = foldl withdraw (withdrawal conn.subscriptions) channels in
        (
          record r {
            inner = record {
              connections =
                  HashMap.insert id (record conn { subscriptions = w.subscriptions }) r.connections;
              by_channel = foldl (unlink id) r.by_channel w.removed;
            };
          },
          w.removed,
        )
  ]
