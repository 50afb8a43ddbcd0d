-- ===== src/Server/Config.antt =====
-- `Config` of src/server.rs. Durations are nanoseconds; `Semaphore::MAX_PERMITS` is tokio's, and a
-- parameter.
use ws_fanout.Error.{Error}
use ws_fanout.Prelude.{
  ℕ, ◌*◌, ◌≤◌, ◌<◌, ◌≡◌, ◌↔◌, String, arith, ◌==◌, ltb, if◌then◌else◌, nat_eq, string_eq, Result,
  ok, err,
}

pub record Config : Type 0 where
  pub max_connections : ℕ
  pub max_message_size : ℕ
  pub max_subscriptions : ℕ
  pub max_channel_len : ℕ
  pub send_queue : ℕ
  pub max_consecutive_drops : ℕ
  pub auth_timeout : ℕ
  pub heartbeat_interval : ℕ
  pub heartbeat_timeout : ℕ

abbrev pub from_secs : ℕ → ℕ
from_secs n = n * 1000000000

unfoldable pub default : Config
default = record {
  max_connections = 10000;
  max_message_size = 64 * 1024;
  max_subscriptions = 256;
  max_channel_len = 256;
  send_queue = 256;
  max_consecutive_drops = 1000;
  auth_timeout = from_secs 10;
  heartbeat_interval = from_secs 30;
  heartbeat_timeout = from_secs 90;
}

module _ {IoError WsError : Type 0} where
  bad : String → Result (Error IoError WsError) (Unit {0})
  bad field = err (Error.config field)

  unfoldable pub validate : ℕ → Config → Result (Error IoError WsError) (Unit {0})
  unfolding bad
  validate max_permits c =
      if c.max_connections == 0
      then bad "max_connections must be non-zero"
      else if ltb max_permits c.max_connections
      then bad "max_connections exceeds the permit limit"
      else if c.max_message_size == 0
      then bad "max_message_size must be non-zero"
      else if c.max_subscriptions == 0
      then bad "max_subscriptions must be non-zero"
      else if c.max_channel_len == 0
      then bad "max_channel_len must be non-zero"
      else if c.send_queue == 0
      then bad "send_queue must be non-zero"
      else if c.heartbeat_interval == 0
      then bad "heartbeat_interval must be non-zero"
      else ok tt

-- What `validate` tests.
pub record IsAccepted (max_permits : ℕ) (c : Config) : Type 0 where
  pub connections : 0 < c.max_connections
  pub permits : c.max_connections ≤ max_permits
  pub message : 0 < c.max_message_size
  pub subscriptions : 0 < c.max_subscriptions
  pub channel : 0 < c.max_channel_len
  pub queue : 0 < c.send_queue
  pub interval : 0 < c.heartbeat_interval

-- A configuration whose values tokio takes without a panic: `Semaphore::new` at most `MAX_PERMITS`,
-- `mpsc::channel` at least one frame and at most `MAX_PERMITS`, and `interval` a period that is not zero.
pub record IsSafe (max_permits : ℕ) (c : Config) : Type 0 where
  pub permits : c.max_connections ≤ max_permits
  pub queue : 0 < c.send_queue
  pub queue_limit : c.send_queue ≤ max_permits
  pub interval : 0 < c.heartbeat_interval

module _ {IoError WsError : Type 0} where
  -- validate accepts a configuration exactly if its connection limit is non-zero and no more than
  -- MAX_PERMITS, and its message size, subscriptions, channel length, queue and heartbeat interval
  -- are non-zero.
  pub validate-IsAccepted :
      (max_permits : ℕ) (c : Config)
      → (validate {IoError = IoError} {WsError = WsError} max_permits c ≡ ok tt)
        ↔ IsAccepted max_permits c
  unfolding validate
  validate-IsAccepted max_permits c = (λ h. ground arith, λ h. ground arith)

  pub default-ok :
      (max_permits : ℕ)
      → 10000 ≤ max_permits
      → validate {IoError = IoError} {WsError = WsError} max_permits default ≡ ok tt
  unfolding default
  default-ok max_permits h = (validate-IsAccepted max_permits default).1 (omega arith)
