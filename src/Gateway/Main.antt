-- ===== src/Gateway/Main.antt =====
-- `main` of examples/gateway.rs, given what the queue's file, the listener and the wait for Ctrl-C
-- answered, and what the tasks have made of the registry by then.
use ws_fanout.Prelude.{
  Bool, List, [], ◌∷◌, if◌then◌else◌, Result, ok, err, nat_eq, string_eq, Option, none, some,
}
use Prim.Native.String.{String, ◌++◌}
use ws_fanout.Api
use ws_fanout.Api.{Server, bind, local_addr, metrics, builder, heartbeat}
use ws_fanout.Api.Clones.{Clones, bound, drop_server, consume_outcry, end_source, looking}
use ws_fanout.Error.{Error}
use ws_fanout.Gateway.{gateway_builder}
use ws_fanout.Registry.{Registry}
use ws_fanout.Server.Serve.{Semaphore}
use ws_fanout.Snapshot.{LastValue}
use ws_fanout.Strings.Decimal.{display}

abbrev pub queue_path : String
queue_path = "/dev/shm/ws-fanout-demo"

-- `Box<dyn std::error::Error>`: the text of the first `?`, and the errors of the other two.
pub data Failure (IoError WsError : Type 0) : Type 0 where
  text : String → Failure IoError WsError
  bind_error : Error IoError WsError → Failure IoError WsError
  signal : IoError → Failure IoError WsError

pub record Outside (OutcryError IoError Addr Tx RawValue : Type 0) : Type 0 where
  pub queue : Result OutcryError (Unit {0})
  pub listener : Result IoError Addr
  pub ctrl_c : Result IoError (Unit {0})
  pub registry : Registry Tx
  -- What the decoder has recorded in the store that it shares with the server.
  pub snapshots : LastValue RawValue
  -- Whether the source's thread had ended before, on a failed read.
  pub source_ended : Bool

-- What is printed, what is returned, and what has become of the server's clones, if there are any.
pub record Exit (IoError WsError : Type 0) : Type 0 where
  pub printed : List String
  pub result : Result (Failure IoError WsError) (Unit {0})
  pub clones : Option Clones

unfoldable pub open_failed : {OutcryError : Type 0} → (OutcryError → String) → OutcryError → String
open_failed outcry_text e =
    "open " ++ (queue_path ++ (": " ++ (outcry_text e ++ " — is synthetic_feed running?")))

module _ {RawValue Value Tx Sem Addr : Type 0} where
  unfoldable pub listening : (Addr → String) → Server RawValue Value Tx Sem Addr → String
  unfolding local_addr
  listening addr_text server = "gateway listening on ws://" ++ addr_text (local_addr server)

  unfoldable pub stopping : Server RawValue Value Tx Sem Addr → String
  unfolding Api.connections metrics display
  stopping server =
      "stopping; "
      ++ (display (Api.connections server)
          ++ (" connections, "
              ++ (display (metrics server).frames_sent
                  ++ (" frames sent, "
                      ++ (display (metrics server).frames_dropped ++ " dropped")))))

-- The source's thread while `main` waits for Ctrl-C.
unfoldable pub waited : Bool → Clones
unfolding bound consume_outcry end_source
waited source_ended =
    let started = consume_outcry bound in if source_ended then end_source started else started

-- `drop(server)`, and `source.join()`, which returns when the source has looked at the count.
unfoldable pub joined : Bool → Clones
unfolding waited drop_server looking
joined source_ended =
    let dropped = drop_server (waited source_ended) in
    if source_ended then dropped else looking 1 dropped

module _ {OutcryError IoError WsError RawValue Value Tx Sem Addr : Type 0}
    (addr_text : Addr → String) where
  -- Once the server is bound.
  unfoldable pub serving :
      Outside OutcryError IoError Addr Tx RawValue
      → Server RawValue Value Tx Sem Addr
      → Exit IoError WsError
  unfolding listening stopping waited joined
  serving o server = elim o.ctrl_c [
    | err e ↦ record {
      printed = listening addr_text server ∷ [];
      result = err (signal e);
      clones = some (drop_server (waited o.source_ended));
    }
    | ok _ ↦ record {
      printed =
          listening addr_text server
          ∷ stopping (record server { running = record server.running { registry = o.registry } })
          ∷ [];
      result = ok tt;
      clones = some (joined o.source_ended);
    }
  ]

module _ {OutcryError IoError WsError Addr Tx : Type 0} (RawValue Value Sem : Type 0)
    ⦃semaphore : Semaphore Sem⦄ (outcry_text : OutcryError → String)
    (addr_text : Addr → String) where
  unfoldable pub main : Outside OutcryError IoError Addr Tx RawValue → Exit IoError WsError
  unfolding open_failed bind gateway_builder serving
  main o = elim o.queue [
    | err e ↦ record {
      printed = [];
      result = err (text (open_failed outcry_text e));
      clones = none;
    }
    | ok _ ↦
        elim (bind {WsError = WsError} {Sem = Sem}
          (gateway_builder {RawValue = RawValue} {Value = Value} o.snapshots) o.listener) [
            | err e ↦ record { printed = []; result = err (bind_error e); clones = none }
            | ok server ↦ serving addr_text o server
          ]
  ]
