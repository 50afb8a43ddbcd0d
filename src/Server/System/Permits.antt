-- ===== src/Server/System/Permits.antt =====
-- Who is in the registry of src/registry.rs, and with which channels, after any actions of the server of
-- src/server.rs.
use ws_fanout.Prelude.{
  ◌+◌, ◌<◌, ◌≡◌, true, some, String, List, [], ◌∷◌, arith, length, All, Option-cases, inl, inr, ◌∙◌,
  nat_eq, string_eq, u64_mod, ==_refl,
}
use ws_fanout.Auth.{Claims}
use ws_fanout.Collections.HashMap
use ws_fanout.Collections.HashSet
use ws_fanout.Collections.HashSet.{HashSet}
use ws_fanout.Mpsc.{Mpsc}
use ws_fanout.Registry.{Registry, Connection, ConnectionId, joined}
use ws_fanout.Registry
use ws_fanout.Registry.Invariant.{subscribed-get}
use ws_fanout.Server.Handle.{Services}
use ws_fanout.Server.Handle.Permits.{Permitted}
use ws_fanout.Server.Serve.{Semaphore, started}
use ws_fanout.Server.System.{Action, boot}
use ws_fanout.Server.System.Coherent.{after, after-IsCoherent, boot-IsCoherent}
use ws_fanout.Server.System.Safe.{Opened, claims_of}
use ws_fanout.Server.System.Secure.{IsSecure, enacts-IsSecure}

contains-All :
    (P : String → Type 0) (xs : HashSet String)
    → ((d : String) → HashSet.contains d xs ≡ true → P d)
    → All P xs
unfolding HashSet.contains
contains-All P [] h = tt
contains-All P (x ∷ xs) h =
    (h x (ground (arith, ==_refl x)), contains-All P xs (λ d e. h d (ground (arith, e))))

module _ {IoError WsError RawValue Value : Type 0} (Tx Sem : Type 0) ⦃mpsc : Mpsc Tx⦄
    ⦃semaphore : Semaphore Sem⦄ (services : Services IoError WsError RawValue Value) where
  -- After any actions of a server from its start, by the accept loop, the tasks of any number of
  -- clients and publishers: for every connection in the registry some client of these actions
  -- began with a text that parses as an auth message, the validator accepted its token, the
  -- connection's subject is that of the claims it gave, and every channel it holds is short enough
  -- and let through by the authorizer for these claims. The number of actions and 1 are together
  -- below 2^64.
  pub enacts-Permitted :
      (actions : List (Action WsError)) (id : ConnectionId) (c : Connection Tx)
      → 1 + length actions < u64_mod
      → HashMap.get id (after Tx Sem services actions).registry.connections ≡ some c
      → (claims : Claims Value) × Opened services actions claims
        × (c.subject ≡ claims.subject)
        × All (Permitted services claims) c.subscriptions
  unfolding boot started Registry.new HashMap.get
  enacts-Permitted actions id c room known =
      let s = after Tx Sem services actions in
      let coherent = after-IsCoherent Tx Sem services actions room in
      let secure : IsSecure services (Opened services actions) s =
        enacts-IsSecure services (Opened services actions) actions (boot services) (λ claims o. o)
          room (boot-IsCoherent services) (λ j stage e. absurd (ground (arith, e))) in
      elim (Option-cases (HashMap.get id s.sessions)) [
        | inl e ↦ absurd (ground (arith, e, known, coherent.same id))
        | inr (stage, e) ↦
            let safe = secure id stage e in
            (
              claims_of services stage,
              safe.from,
              ground (arith, known, safe.subject),
              contains-All (Permitted services (claims_of services stage)) c.subscriptions
                  (λ d q. safe.held d (subscribed-get id d c s.registry.connections known ∙ q)),
            )
      ]
