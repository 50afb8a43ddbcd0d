-- ===== src/Server/System/Secure.antt =====
-- Every connection with its task, after an action of the server of src/server.rs.
use ws_fanout.Prelude.{
  ◌+◌, ◌<◌, ◌≡◌, refl, true, some, List, [], ◌∷◌, arith, ltb, length, Bool-cases, inl, inr, ◌∙◌,
  sym, nat_eq, string_eq, u64_mod, Result-cases,
}
use mathlib.Core.Path.{subst}
use ws_fanout.Auth.{Claims}
use ws_fanout.Collections.HashMap
use ws_fanout.Mpsc.{Mpsc}
use ws_fanout.Registry.{ConnectionId}
use ws_fanout.Registry.Calls.{join, leave, hanging_up, perform}
use ws_fanout.Registry.Invariant.{IsValid}
use ws_fanout.Server.Connection.{Peer, opening}
use ws_fanout.Server.Connection.Apart.{begun}
use ws_fanout.Server.Connection.Validated.{opening-Vouches}
use ws_fanout.Server.Handle.{Services}
use ws_fanout.Server.Serve.{Semaphore, fail, started}
use ws_fanout.Server.Serve
use ws_fanout.Server.Session.{session}
use ws_fanout.Server.System.{
  Stage, serving, parted, System, Action, connects, releases, opens, calls, takes, aborts, departs,
  publishes, broadcasts, proceed, opened, called, frame_taken, aborted, departed, enact, enacts,
}
use ws_fanout.Server.System.Calls.{performed, call_made, stage-cases, enact-performed}
use ws_fanout.Server.System.Coherent.{IsCoherent, enact-IsCoherent, enact-ids}
use ws_fanout.Server.System.Foreign.{IsForeign}
use ws_fanout.Server.System.Safe.{
  Opens, Opened, claims_of, IsSafe, foreign-IsSafe, next-IsSafe, proceed-IsSafe, joined-IsSafe,
  others-IsSafe, written-IsSafe,
}

module _ {Tx Sem IoError WsError RawValue Value : Type 0} ⦃mpsc : Mpsc Tx⦄
    ⦃semaphore : Semaphore Sem⦄ (services : Services IoError WsError RawValue Value)
    (From : Claims Value → Type 0) where
  open services use {config}

  abbrev pub IsSecure : System Tx Sem IoError WsError Value → Type 0
  IsSecure s =
      (j : ConnectionId) (stage : Stage IoError WsError Value)
      → HashMap.get j s.sessions ≡ some stage
      → IsSafe services From j s.registry stage

  -- The action makes no call for the connection, or one that changes nothing in what is said of it.
  keep-IsSafe :
      (a : Action WsError) (s : System Tx Sem IoError WsError Value) (j : ConnectionId)
      (stage : Stage IoError WsError Value)
      → IsForeign (call_made services a s) s.registry.next_id j
      → IsValid s.registry
      → IsSafe services From j s.registry stage
      → IsSafe services From j (enact services a s).registry stage
  keep-IsSafe a s j stage q v h =
      subst (λ r. IsSafe services From j r stage) (sym (enact-performed services a s))
        (foreign-IsSafe services From (call_made services a s) s.registry j stage q v h)

  opened-IsSecure :
      (p : Peer WsError) (s : System Tx Sem IoError WsError Value)
      → ((claims : Claims Value) → Opens services (opens p) claims → From claims)
      → IsValid s.registry
      → IsSecure s
      → ltb 0 s.entering ≡ true
      → IsSecure (enact services (opens p) s)
  unfolding IsForeign perform performed
  opened-IsSecure p s from v h some_task =
      elim (Result-cases (opening services p.handshake p.first p.answer).1) [
        | inl (claims, q) ↦
            let from_token =
              from claims (opening-Vouches services p.handshake p.first p.answer claims q) in
            let stage' : Stage IoError WsError Value = serving claims (
              session services claims p.events
                (begun (opening services p.handshake p.first p.answer).0 p.started)) in
            unfold enact opened in
            rw (some_task, q, enact, opened)
              (λ j stage e.
                written-IsSafe services From s.registry.next_id j stage' stage s.sessions _ e
                  (joined-IsSafe services From p claims s.registry from_token v)
                  (λ other old.
                    foreign-IsSafe services From (some (join claims.subject)) s.registry j stage
                      other v (h j stage old)))
        | inr (x, q) ↦ unfold enact opened fail in rw (some_task, q, enact, opened) h
      ]

  opens-IsSecure :
      (p : Peer WsError) (s : System Tx Sem IoError WsError Value)
      → ((claims : Claims Value) → Opens services (opens p) claims → From claims)
      → IsValid s.registry
      → IsSecure s
      → IsSecure (enact services (opens p) s)
  unfolding enact
  opens-IsSecure p s from v h = elim (Bool-cases (ltb 0 s.entering)) [
    | inl some_task ↦ opened-IsSecure p s from v h some_task
    | inr no_task ↦ rw (no_task, enact) h
  ]

  called-IsSecure :
      (id : ConnectionId) (s : System Tx Sem IoError WsError Value)
      → IsValid s.registry
      → IsSecure s
      → IsSecure (called services id s)
  unfolding called
  called-IsSecure id s v h = elim (stage-cases services id s) [
    | inl q ↦ rw (q, called) h
    | inr (inl (claims, q)) ↦ rw (q, called) h
    | inr (inr (claims, t, q)) ↦
        rw (q, called)
          (λ j stage e.
            written-IsSafe services From id j (proceed services id claims t s.registry).1 stage
              s.sessions _ e
              (proceed-IsSafe services From id claims t s.registry v (h id (serving claims t) q))
              (λ other old.
                others-IsSafe services From id j claims t s.registry stage other v (h j stage old)))
  ]

  aborted-IsSecure :
      (id : ConnectionId) (s : System Tx Sem IoError WsError Value)
      → IsValid s.registry
      → IsSecure s
      → IsSecure (aborted services id s)
  unfolding aborted performed perform claims_of IsForeign
  aborted-IsSecure id s v h = elim (stage-cases services id s) [
    | inl q ↦ rw (q, aborted) h
    | inr (inl (claims, q)) ↦ rw (q, aborted) h
    | inr (inr (claims, t, q)) ↦
        rw (q, aborted)
          (λ j stage e.
            written-IsSafe services From id j (parted claims) stage s.sessions _ e
              (foreign-IsSafe services From (some (hanging_up id)) s.registry id (parted claims) tt
                v
                (next-IsSafe services From s.registry id (serving claims t) (parted claims) refl tt
                  (h id (serving claims t) q)))
              (λ other old.
                foreign-IsSafe services From (some (hanging_up id)) s.registry j stage tt v
                  (h j stage old)))
  ]

  departed-IsSecure :
      (id : ConnectionId) (s : System Tx Sem IoError WsError Value)
      → IsValid s.registry
      → IsSecure s
      → IsSecure (departed services id s)
  unfolding departed performed perform IsForeign Serve.leave
  departed-IsSecure id s v h = elim (stage-cases services id s) [
    | inl q ↦ rw (q, departed) h
    | inr (inl (claims, q)) ↦
        rw (q, departed)
          (λ j stage e.
            foreign-IsSafe services From (some (leave id)) s.registry j stage
              (ground (arith, e, HashMap.get-remove id j s.sessions)) v
              (h j stage (ground (arith, e, HashMap.get-remove id j s.sessions))))
    | inr (inr (claims, t, q)) ↦ rw (q, departed) h
  ]

  enact-IsSecure :
      (a : Action WsError) (s : System Tx Sem IoError WsError Value)
      → ((claims : Claims Value) → Opens services a claims → From claims)
      → IsValid s.registry
      → IsSecure s
      → IsSecure (enact services a s)
  unfolding enact call_made IsForeign
  enact-IsSecure connects s from v h j stage e =
      keep-IsSafe connects s j stage (ground arith) v (h j stage e)
  enact-IsSecure releases s from v h j stage e =
      keep-IsSafe releases s j stage tt v (h j stage (sym (ground arith) ∙ e))
  enact-IsSecure (opens p) s from v h j stage e = opens-IsSecure p s from v h j stage e
  enact-IsSecure (calls id) s from v h j stage e = called-IsSecure id s v h j stage e
  enact-IsSecure (takes id) s from v h j stage e =
      keep-IsSafe (takes id) s j stage (ground arith) v
        (h j stage (unfold frame_taken in ground (arith, e)))
  enact-IsSecure (aborts id) s from v h j stage e = aborted-IsSecure id s v h j stage e
  enact-IsSecure (departs id) s from v h j stage e = departed-IsSecure id s v h j stage e
  enact-IsSecure (publishes ch f) s from v h j stage e =
      keep-IsSafe (publishes ch f) s j stage tt v (h j stage e)
  enact-IsSecure (broadcasts f) s from v h j stage e =
      keep-IsSafe (broadcasts f) s j stage tt v (h j stage e)

  pub enacts-IsSecure :
      (actions : List (Action WsError)) (s : System Tx Sem IoError WsError Value)
      → ((claims : Claims Value) → Opened services actions claims → From claims)
      → s.registry.next_id + length actions < u64_mod
      → IsCoherent services s
      → IsSecure s
      → IsSecure (enacts services actions s)
  unfolding enacts
  enacts-IsSecure [] s from room coherent h = h
  enacts-IsSecure (a ∷ actions) s from room coherent h =
      let fits : s.registry.next_id + 1 < u64_mod = omega (arith, room) in
      enacts-IsSecure actions (enact services a s) (λ claims o. from claims (inr o))
        (omega (arith, room, enact-ids services a s fits))
        (enact-IsCoherent services a s fits coherent)
        (enact-IsSecure a s (λ claims o. from claims (inl o)) coherent.valid h)
