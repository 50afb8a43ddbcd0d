-- ===== src/Api.antt =====
-- src/lib.rs: the builder, `bind`, and the calls of a bound server. The trait objects are functions;
-- the listener is what the operating system answered to `bind` and to `local_addr`, an address or an
-- error; `to_raw_value` is serde_json's. A returned count is a `usize`, which is taken not to wrap.
pub mod Resync
pub mod Bound
pub mod Clones
use ws_fanout.Prelude.{
  ℕ, suc, ◌+◌, ◌-◌, ◌*◌, ◌%◌, ◌≤◌, ◌<◌, ◌≡◌, ◌≢◌, ◌↔◌, refl, Bool, true, false, ◌||◌, ◌&&◌, not,
  Option, none, some, String, List, [], ◌∷◌, ◌++◌, map, foldl, arith, Eq, ◌==◌, leb, ltb,
  if◌then◌else◌, length, is_empty, All, Bool-cases, Option-cases, inl, inr, ◌⊎◌, ◌∙◌, ap, sym,
  nat_eq, string_eq, wrapping_add, wrapping_sub, u64_mod, wrapping_add_exact, wrapping_add-lt,
  ==_refl, ==_iff, ==_comm, Result, ok, err, Result-cases, filter_b, filter_b-All, All-filter_b,
  partition, Bool-ext, All-append, length-append,
}
use ws_fanout.Auth.{Claims, static_token, validate_static, allow_all}
use ws_fanout.Error.{Error}
use ws_fanout.Protocol.{ServerMessage, Serde, Frame, to_frame}
use ws_fanout.Mpsc.{Mpsc}
use ws_fanout.Registry.{Registry, Metrics}
use ws_fanout.Registry
use ws_fanout.Registry.Deliveries
use ws_fanout.Server.Config.{Config, default, validate}
use ws_fanout.Server.Serve.{Semaphore, Running, started}
use ws_fanout.Snapshot.{no_snapshots}

module _ {RawValue : Type 0} {Tx : Type 0} ⦃mpsc : Mpsc Tx⦄ (serde : Serde RawValue) where
  unfoldable pub publish : Registry Tx → String → RawValue → Registry Tx × ℕ
  publish r channel payload =
      Deliveries.publish r channel (to_frame serde (ServerMessage.data_message channel payload))

  unfoldable pub publish_json :
      {T : Type 0} → (T → Option RawValue) → Registry Tx → String → T → Registry Tx × ℕ
  unfolding publish
  publish_json to_raw_value r channel value = elim (to_raw_value value) [
    | some raw ↦ publish r channel raw
    | none ↦ (r, 0)
  ]

  unfoldable pub resync_all : Registry Tx → Registry Tx × ℕ
  resync_all r = Deliveries.broadcast r (to_frame serde (ServerMessage.resync []))

  -- The loop of `resync`.
  unfoldable pub resync_loop : Frame → List String → Registry Tx → Registry Tx × ℕ
  resync_loop frame [] r = (r, 0)
  resync_loop frame (ch ∷ chs) r =
      let (r', n) = Deliveries.publish r ch frame in
      let (r'', m) = resync_loop frame chs r' in (r'', n + m)

  unfoldable pub resync : Registry Tx → List String → Registry Tx × ℕ
  unfolding resync_loop
  resync r channels = resync_loop (to_frame serde (ServerMessage.resync channels)) channels r

pub record Builder (RawValue Value : Type 0) : Type 0 where
  pub config : Config
  pub validator : String → Result String (Claims Value)
  pub authorizer : Claims Value → String → Bool
  pub snapshots : String → Option RawValue

-- A bound server: what `Shared` holds, and the address.
pub record Server (RawValue Value Tx Sem Addr : Type 0) : Type 0 where
  pub parts : Builder RawValue Value
  pub running : Running Tx Sem
  pub addr : Addr

module _ {RawValue Value : Type 0} where
  -- `Builder::default()`.
  unfoldable pub builder : Builder RawValue Value
  unfolding static_token validate_static allow_all no_snapshots
  builder = record {
    config = default;
    validator = validate_static (static_token "" "anonymous");
    authorizer = allow_all;
    snapshots = no_snapshots;
  }

  -- The setters that replace one field.
  unfoldable pub config : Builder RawValue Value → Config → Builder RawValue Value
  config b c = record b { config = c }

  unfoldable pub validator :
      Builder RawValue Value → (String → Result String (Claims Value)) → Builder RawValue Value
  validator b v = record b { validator = v }

  unfoldable pub authorizer :
      Builder RawValue Value → (Claims Value → String → Bool) → Builder RawValue Value
  authorizer b a = record b { authorizer = a }

  unfoldable pub snapshots :
      Builder RawValue Value → (String → Option RawValue) → Builder RawValue Value
  snapshots b s = record b { snapshots = s }

  unfoldable pub heartbeat : Builder RawValue Value → ℕ → ℕ → Builder RawValue Value
  heartbeat b interval timeout = record b {
    config = record b.config { heartbeat_interval = interval; heartbeat_timeout = timeout };
  }

  unfoldable pub max_connections : Builder RawValue Value → ℕ → Builder RawValue Value
  max_connections b n = record b { config = record b.config { max_connections = n } }

  module _ {IoError WsError Tx Sem Addr : Type 0} ⦃semaphore : Semaphore Sem⦄ where
    unfoldable pub bind :
        Builder RawValue Value
        → Result IoError Addr
        → Result (Error IoError WsError) (Server RawValue Value Tx Sem Addr)
    bind b listener =
        elim (validate {IoError = IoError} {WsError = WsError} semaphore.max_permits b.config) [
          | err e ↦ err e
          | ok _ ↦ elim listener [
            | err e ↦ err (Error.io e)
            | ok addr ↦
                ok (record { parts = b; running = started b.config.max_connections; addr = addr })
          ]
        ]

  -- What a bound server tells of itself.
  module _ {Tx Sem Addr : Type 0} where
    unfoldable pub local_addr : Server RawValue Value Tx Sem Addr → Addr
    local_addr s = s.addr

    unfoldable pub metrics : Server RawValue Value Tx Sem Addr → Metrics
    metrics s = s.running.registry.metrics

    unfoldable pub connections : Server RawValue Value Tx Sem Addr → ℕ
    connections s = Registry.len s.running.registry

    unfoldable pub subscribers : Server RawValue Value Tx Sem Addr → String → ℕ
    subscribers s channel = Registry.subscribers s.running.registry channel
