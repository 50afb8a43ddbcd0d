-- ===== src/Gateway/Exits.antt =====
-- How `main` of examples/gateway.rs ends.
use ws_fanout.Prelude.{
  ℕ, ◌+◌, ◌*◌, ◌≤◌, ◌≡◌, refl, Bool, true, false, List, [], ◌∷◌, arith, length, if◌then◌else◌,
  Result, ok, err, Result-cases, inl, inr, Bool-cases, nat_eq, string_eq, ◌⊎◌, Option, none, some,
}
use Prim.Native.String.{String}
use ws_fanout.Api
use ws_fanout.Api.{Server, bind, local_addr, metrics, builder, heartbeat}
use ws_fanout.Server.Config.{default, validate, validate-IsAccepted}
use ws_fanout.Api.Clones.{
  bound, drop_server, consume_outcry, end_source, looking, look, drop_accepting,
}
use ws_fanout.Error.{Error}
use ws_fanout.Gateway.{gateway_builder}
use ws_fanout.Server.Serve.{Semaphore, started}
use ws_fanout.Outcry.{strong_count}
use ws_fanout.Snapshot.{LastValue}
use ws_fanout.Gateway.Main.{
  Failure, text, bind_error, signal, Outside, open_failed, waited, joined, serving, main,
}

joined-stopped :
    (source_ended : Bool)
    → joined source_ended ≡ record { callers = 0; sources = 0; accepting = false }
unfolding joined waited drop_server consume_outcry end_source bound looking look drop_accepting
    strong_count nat_eq ws_fanout.Prelude.ℕ_discrete
joined-stopped true = refl
joined-stopped false = refl

gateway-valid :
    (IoError WsError RawValue Value : Type 0) (last : LastValue RawValue) (max_permits : ℕ)
    → 10000 ≤ max_permits
    → validate {IoError = IoError} {WsError = WsError} max_permits
        (gateway_builder {RawValue = RawValue} {Value = Value} last).config
      ≡ ok tt
unfolding gateway_builder builder default heartbeat Api.snapshots Api.validator
gateway-valid IoError WsError RawValue Value last max_permits few =
    (validate-IsAccepted max_permits
        (gateway_builder {RawValue = RawValue} {Value = Value} last).config).1
      (record {
        connections = omega arith;
        permits = omega (arith, few);
        message = omega arith;
        subscriptions = omega arith;
        channel = omega arith;
        queue = omega arith;
        interval = omega arith;
      })

module _ {OutcryError IoError WsError Addr Tx : Type 0} (RawValue Value Sem : Type 0)
    ⦃semaphore : Semaphore Sem⦄ (outcry_text : OutcryError → String)
    (addr_text : Addr → String) where
  -- What goes wrong first, of the three things that are asked of the outside.
  unfoldable pub first_failure :
      Outside OutcryError IoError Addr Tx RawValue → Result (Failure IoError WsError) (Unit {0})
  first_failure o = elim o.queue [
    | err e ↦ err (text (open_failed outcry_text e))
    | ok _ ↦ elim o.listener [
      | err e ↦ err (bind_error (Error.io e))
      | ok addr ↦ elim o.ctrl_c [ err e ↦ err (signal e) | ok _ ↦ ok tt ]
    ]
  ]

  bind-gateway :
      (last : LastValue RawValue) (listener : Result IoError Addr)
      → 10000 ≤ semaphore.max_permits
      → bind {WsError = WsError} {Tx = Tx} {Sem = Sem}
          (gateway_builder {RawValue = RawValue} {Value = Value} last)
          listener
        ≡ (elim listener [
          | err e ↦ err (Error.io e)
          | ok addr ↦ ok (record {
            parts = gateway_builder last;
            running =
                started
                  (gateway_builder {RawValue = RawValue} {Value = Value}
                    last).config.max_connections;
            addr = addr;
          })
        ])
  unfolding bind
  bind-gateway last listener few =
      rw (gateway-valid IoError WsError RawValue Value last semaphore.max_permits few, bind) refl

  -- With a semaphore that takes 10000 permits, the example gateway's main returns the error of the
  -- first of three that fails, or none if none does: opening the queue, with the text that names
  -- it, binding the listener, and waiting for Ctrl-C. It is never refused for its configuration.
  pub main-result :
      (o : Outside OutcryError IoError Addr Tx RawValue)
      → 10000 ≤ semaphore.max_permits
      → (main RawValue Value Sem outcry_text addr_text o).result ≡ first_failure o
  unfolding main first_failure serving
  main-result o few = elim (Result-cases o.queue) [
    | inl (tt, q) ↦ elim (Result-cases o.listener) [
      | inl (addr, l) ↦ elim (Result-cases o.ctrl_c) [
        | inl (tt, c) ↦ ground (arith, q, l, c, bind-gateway o.snapshots o.listener few)
        | inr (e, c) ↦ ground (arith, q, l, c, bind-gateway o.snapshots o.listener few)
      ]
      | inr (e, l) ↦ ground (arith, q, l, bind-gateway o.snapshots o.listener few)
    ]
    | inr (e, q) ↦ ground (arith, q)
  ]

  -- If `main` returns without an error, no clone of its server is left and the accept loop has ended.
  main-stopped :
      (o : Outside OutcryError IoError Addr Tx RawValue)
      → (main {WsError = WsError} RawValue Value Sem outcry_text addr_text o).result ≡ ok tt
      → (main {WsError = WsError} RawValue Value Sem outcry_text addr_text o).clones
        ≡ some (record { callers = 0; sources = 0; accepting = false })
  unfolding main serving
  main-stopped o h = elim (Result-cases o.queue) [
    | inl (tt, q) ↦
        elim (Result-cases (
          bind {WsError = WsError} {Tx = Tx} {Sem = Sem}
            (gateway_builder {RawValue = RawValue} {Value = Value} o.snapshots) o.listener)) [
              | inl (server, b) ↦ elim (Result-cases o.ctrl_c) [
                | inl (tt, c) ↦ ground (arith, q, b, c, h, joined-stopped o.source_ended)
                | inr (e, c) ↦ absurd (ground (arith, q, b, c, h))
              ]
              | inr (e, b) ↦ absurd (ground (arith, q, b, h))
            ]
    | inr (e, q) ↦ absurd (ground (arith, q, h))
  ]
