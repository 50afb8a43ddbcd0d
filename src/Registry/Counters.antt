-- ===== src/Registry/Counters.antt =====
-- The counters of src/registry.rs that src/server.rs counts up itself, through `metrics()`.
use ws_fanout.Prelude.{wrapping_add}
use ws_fanout.Registry.{Registry}

module _ {Tx : Type 0} where
  -- `metrics().heartbeat_timeouts.fetch_add(1)` in `session`.
  unfoldable pub count_timeout : Registry Tx → Registry Tx
  count_timeout r = record r {
    metrics = record r.metrics { heartbeat_timeouts = wrapping_add r.metrics.heartbeat_timeouts 1 };
  }

  -- `metrics().refused_full.fetch_add(1)` in `serve`.
  unfoldable pub count_refused : Registry Tx → Registry Tx
  count_refused r = record r {
    metrics = record r.metrics { refused_full = wrapping_add r.metrics.refused_full 1 };
  }
