-- ===== src/Api/Bound.antt =====
-- A server that src/lib.rs's `bind` gives, and its limit.
use ws_fanout.Prelude.{
  ℕ, ◌≤◌, ◌≡◌, refl, String, arith, inl, inr, ◌⊎◌, ◌∙◌, ap, nat_eq, string_eq, Result, ok, err,
  Result-cases,
}
use ws_fanout.Api.{Builder, Server, bind}
use ws_fanout.Mpsc.{Mpsc}
use mathlib.Core.Path.{subst}
use ws_fanout.Error.{Error}
use ws_fanout.Server.Config.{Config, validate, IsAccepted, validate-IsAccepted}
use ws_fanout.Server.Serve.{Semaphore, Running, started, Moves}
use ws_fanout.Server.Serve.Slots.{tasks, tasks-max}

module _ {IoError WsError RawValue Value Tx Sem Addr : Type 0} ⦃mpsc : Mpsc Tx⦄
    ⦃semaphore : Semaphore Sem⦄ where
  -- The configuration of a server that comes out of `bind` is one that `validate` accepts.
  bind-IsAccepted :
      (b : Builder RawValue Value) (listener : Result IoError Addr)
      (server : Server RawValue Value Tx Sem Addr)
      → bind {IoError = IoError} {WsError = WsError} b listener ≡ ok server
      → IsAccepted semaphore.max_permits b.config
        × (server.running ≡ started b.config.max_connections)
  unfolding bind
  bind-IsAccepted b listener server h =
      elim (Result-cases
        (validate {IoError = IoError} {WsError = WsError} semaphore.max_permits b.config)) [
          | inl (tt, e) ↦
              ((validate-IsAccepted semaphore.max_permits b.config).0 e, ground (arith, e, h))
          | inr (x, e) ↦ absurd (ground (arith, e, h))
        ]

  -- Where bind gives a server, whatever moves the server makes, its tasks are never more than the
  -- max_connections of the builder's configuration. Ids are taken not to run out.
  bind-tasks :
      (b : Builder RawValue Value) (listener : Result IoError Addr)
      (server : Server RawValue Value Tx Sem Addr) (w : Running Tx Sem)
      → bind {IoError = IoError} {WsError = WsError} b listener ≡ ok server
      → Moves server.running w
      → tasks w ≤ b.config.max_connections
  bind-tasks b listener server w h moves =
      let (runs, e) = bind-IsAccepted b listener server h in
      tasks-max b.config.max_connections w runs.permits (subst (λ v. Moves v w) e moves)

-- What a configuration error says.
unfoldable pub config_text : {IoError WsError : Type 0} → Error IoError WsError → String
config_text (Error.config text) = text
config_text (Error.io e) = ""
config_text (Error.websocket e) = ""
config_text (Error.protocol e) = ""
config_text (Error.unauthenticated e) = ""

validate-config :
    {IoError WsError : Type 0} (max_permits : ℕ) (c : Config) (e : Error IoError WsError)
    → validate max_permits c ≡ err e
    → (e ≡ Error.config (config_text e)) × ¬ IsAccepted max_permits c
unfolding validate config_text
validate-config max_permits c e h =
    (ground (arith, h), λ runs. ground (arith, h, (validate-IsAccepted max_permits c).1 runs))

module _ {IoError WsError RawValue Value Tx Sem Addr : Type 0} ⦃semaphore : Semaphore Sem⦄ where
  -- An error of bind is a configuration error, and then the configuration fails one of validate's
  -- tests, or the listener's I/O error, and then it passes them all.
  pub bind-error :
      (b : Builder RawValue Value) (listener : Result IoError Addr) (e : Error IoError WsError)
      → bind {Tx = Tx} {Sem = Sem} b listener ≡ err e
      → ((e ≡ Error.config (config_text e)) × ¬ IsAccepted semaphore.max_permits b.config)
        ⊎ ((x : IoError) × (listener ≡ err x)
            × (e ≡ Error.io x)
            × IsAccepted semaphore.max_permits b.config)
  unfolding bind
  bind-error b (err x) e h =
      elim (Result-cases
        (validate {IoError = IoError} {WsError = WsError} semaphore.max_permits b.config)) [
          | inl (tt, q) ↦ inr (
            x,
            refl,
            ground (arith, h, q),
            (validate-IsAccepted semaphore.max_permits b.config).0 q,
          )
          | inr (y, q) ↦ inl (
              let same : y ≡ e = ground (arith, h, q) in
              validate-config semaphore.max_permits b.config e (q ∙ ap err same))
        ]
  bind-error b (ok addr) e h =
      elim (Result-cases
        (validate {IoError = IoError} {WsError = WsError} semaphore.max_permits b.config)) [
          | inl (tt, q) ↦ absurd (ground (arith, h, q))
          | inr (y, q) ↦ inl (
              let same : y ≡ e = ground (arith, h, q) in
              validate-config semaphore.max_permits b.config e (q ∙ ap err same))
        ]
