-- ===== src/Server/System/Empty.antt =====
-- What is left of the server of src/server.rs once its connections' tasks have ended.
use ws_fanout.Prelude.{
  ◌+◌, ◌%◌, ◌≤◌, ◌<◌, ◌≡◌, refl, true, false, none, List, [], ◌∷◌, arith, Eq, length, Option-cases,
  inl, inr, ◌∙◌, ap, sym, nat_eq, string_eq, u64_mod, ==_refl,
}
use ws_fanout.Collections.HashMap
use ws_fanout.Collections.HashMap.{HashMap}
use ws_fanout.Collections.HashSet
use ws_fanout.Collections.HashSet.{HashSet}
use ws_fanout.Collections.Keys.{is_some}
use ws_fanout.Mpsc.{Mpsc}
use ws_fanout.Registry.{Registry, Connection, ConnectionId}
use ws_fanout.Registry.Index.{linked, subscribed}
use ws_fanout.Registry.Invariant.{IsValid}
use ws_fanout.Server.Handle.{Services}
use ws_fanout.Server.Serve.{Semaphore}
use ws_fanout.Server.Serve.Slots.{tasks, IsBounded, Serves-IsBounded}
use ws_fanout.Server.System.{Action}
use ws_fanout.Server.System.Coherent.{after, after-IsCoherent}
use ws_fanout.Server.System.Refines.{enacts-Serves}
use ws_fanout.Server.Task.Own.{open_at}

-- A map without an entry for any key is empty.
get-empty {ℓ κ} :
    {K : Type ℓ} {V : Type κ} ⦃e : Eq K⦄ (m : HashMap K V)
    → ((k : K) → HashMap.get k m ≡ none)
    → m ≡ []
unfolding HashMap.get
get-empty [] h = refl
get-empty ((k, v) ∷ m) h = absurd (ground (arith, h k, ==_refl k))

module _ {Tx : Type 0} where
  -- A valid registry without connections has no channels.
  by_channel-empty : (r : Registry Tx) → IsValid r → r.connections ≡ [] → r.by_channel ≡ []
  by_channel-empty r v none_left = get-empty r.by_channel (λ ch.
      elim (Option-cases (HashMap.get ch r.by_channel)) [
        | inl e ↦ e
        | inr ([], e) ↦ absurd (v.tidy.no_empty ch e)
        | inr (x ∷ set, e) ↦
            let listed : linked x ch r.by_channel ≡ true =
              unfold linked HashSet.contains in ground (arith, e, ==_refl x) in
            let held : subscribed x ch r.connections ≡ false =
              rw none_left (unfold subscribed HashMap.get in refl) in
            absurd (ground (arith, listed, held, v.agree x ch))
      ])

  -- Nothing is left in it but the counters that only grow.
  pub record IsEmpty (r : Registry Tx) : Type 0 where
    pub connections : r.connections ≡ []
    pub by_channel : r.by_channel ≡ []
    pub active : r.metrics.connections_active ≡ 0

  valid-IsEmpty :
      (r : Registry Tx) → IsValid r → ((j : ConnectionId) → open_at r j ≡ false) → IsEmpty r
  valid-IsEmpty r v gone =
      let none_left : r.connections ≡ [] = get-empty r.connections (λ j. ground (arith, gone j)) in
      record {
        connections = none_left;
        by_channel = by_channel-empty r v none_left;
        active =
            v.counted
            ∙ ap (λ (m : HashMap ConnectionId (Connection Tx)). length m % u64_mod) none_left;
      }

module _ {IoError WsError RawValue Value : Type 0} (Tx Sem : Type 0) ⦃mpsc : Mpsc Tx⦄
    ⦃semaphore : Semaphore Sem⦄ (services : Services IoError WsError RawValue Value) where
  open services use {config}

  -- After any actions of a server from its start that leave no task in the registered part of its
  -- connection: the registry has no connection and no channel, connections_active is 0, and the
  -- free permits, the tasks that have not joined yet and those that have only their permit left to
  -- drop are together max_connections. max_connections is one that the semaphore takes, and the
  -- number of actions and 1 are together below 2^64.
  pub enacts-IsEmpty :
      (actions : List (Action WsError))
      → 1 + length actions < u64_mod
      → config.max_connections ≤ semaphore.max_permits
      → (after Tx Sem services actions).sessions ≡ []
      → IsEmpty (after Tx Sem services actions).registry
        × (semaphore.available (after Tx Sem services actions).slots
              + (after Tx Sem services actions).entering
              + (after Tx Sem services actions).leaving
            ≡ config.max_connections)
  unfolding HashMap.get tasks
  enacts-IsEmpty actions room few ended =
      let h = after-IsCoherent Tx Sem services actions room in
      let empty =
        valid-IsEmpty (after Tx Sem services actions).registry h.valid
          (λ j. sym (h.same j) ∙ ap (λ m. is_some (HashMap.get j m)) ended) in
      let bounded : IsBounded config.max_connections (after Tx Sem services actions).running =
        Serves-IsBounded config.max_connections few (enacts-Serves services actions room) in
      (
        empty,
        omega (
          arith,
          bounded.permits,
          ap (λ (m : HashMap ConnectionId (Connection Tx)). length m) empty.connections,
        ),
      )
