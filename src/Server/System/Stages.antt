-- ===== src/Server/System/Stages.antt =====
-- What an action of the server of src/server.rs makes of one connection's task.
use ws_fanout.Prelude.{
  ◌≡◌, refl, false, none, some, arith, ◌==◌, ltb, Bool-cases, inl, inr, ◌⊎◌, ◌∙◌, nat_eq, string_eq,
  ==_refl, ==_iff, Result-cases,
}
use ws_fanout.Auth.{Claims}
use ws_fanout.Collections.HashMap
use ws_fanout.Mpsc.{Mpsc}
use ws_fanout.Registry.{ConnectionId}
use ws_fanout.Server.Connection.{Peer, opening}
use ws_fanout.Server.Connection.Apart.{begun}
use ws_fanout.Server.Handle.{Services}
use ws_fanout.Server.Serve.{Semaphore}
use ws_fanout.Server.Session.{Session, Flow, session}
use ws_fanout.Server.System.{
  Stage, serving, parted, System, Action, connects, releases, opens, calls, takes, aborts, departs,
  publishes, broadcasts, proceed, opened, called, frame_taken, aborted, departed, enact,
}
use ws_fanout.Server.System.Calls.{stage-cases}
use ws_fanout.Server.System.Coherent.{IsCoherent}
use ws_fanout.Server.Task.{Task}

module _ {Tx Sem IoError WsError RawValue Value : Type 0} ⦃mpsc : Mpsc Tx⦄
    ⦃semaphore : Semaphore Sem⦄ (services : Services IoError WsError RawValue Value) where
  -- The next id is not that of a connection which is there.
  next_id-other :
      (s : System Tx Sem IoError WsError Value) (id : ConnectionId)
      (stage : Stage IoError WsError Value)
      → IsCoherent services s
      → HashMap.get id s.sessions ≡ some stage
      → (s.registry.next_id == id) ≡ false
  next_id-other s id stage h e = ground (arith, e, h.same id, h.valid.fresh id)

  called-get :
      (j id : ConnectionId) (s : System Tx Sem IoError WsError Value)
      → (j == id) ≡ false
      → HashMap.get id (called services j s).sessions ≡ HashMap.get id s.sessions
  unfolding called
  called-get j id s other = elim (stage-cases services j s) [
    | inl e ↦ ground (arith, e)
    | inr (inl (claims, e)) ↦ ground (arith, e)
    | inr (inr (claims, t, e)) ↦ ground (
      arith,
      e,
      other,
      HashMap.get-insert j id (proceed services j claims t s.registry).1 s.sessions,
    )
  ]

  aborted-get :
      (j id : ConnectionId) (s : System Tx Sem IoError WsError Value)
      → (j == id) ≡ false
      → HashMap.get id (aborted services j s).sessions ≡ HashMap.get id s.sessions
  unfolding aborted
  aborted-get j id s other = elim (stage-cases services j s) [
    | inl e ↦ ground (arith, e)
    | inr (inl (claims, e)) ↦ ground (arith, e)
    | inr (inr (claims, t, e)) ↦
        ground (arith, e, other, HashMap.get-insert j id (parted claims) s.sessions)
  ]

  departed-get :
      (j id : ConnectionId) (s : System Tx Sem IoError WsError Value)
      → (j == id) ≡ false
      → HashMap.get id (departed services j s).sessions ≡ HashMap.get id s.sessions
  unfolding departed
  departed-get j id s other = elim (stage-cases services j s) [
    | inl e ↦ ground (arith, e)
    | inr (inl (claims, e)) ↦ ground (arith, e, other, HashMap.get-remove j id s.sessions)
    | inr (inr (claims, t, e)) ↦ ground (arith, e)
  ]

  opened-get :
      (p : Peer WsError) (id : ConnectionId) (s : System Tx Sem IoError WsError Value)
      → (s.registry.next_id == id) ≡ false
      → HashMap.get id (enact services (opens p) s).sessions ≡ HashMap.get id s.sessions
  unfolding enact
  opened-get p id s other = elim (Bool-cases (ltb 0 s.entering)) [
    | inl some_task ↦ elim (Result-cases (opening services p.handshake p.first p.answer).1) [
      | inl (claims, e) ↦
          let wire = (opening services p.handshake p.first p.answer).0 in
          let stage : Stage IoError WsError Value =
            serving claims (session services claims p.events (begun wire p.started)) in
          unfold opened in
          ground
            (arith, some_task, e, other, HashMap.get-insert s.registry.next_id id stage s.sessions)
      | inr (x, e) ↦ unfold opened in ground (arith, some_task, e)
    ]
    | inr no_task ↦ rw (no_task, enact) refl
  ]

  -- The next call of the connection's own task.
  pub called-serving :
      (id : ConnectionId) (claims : Claims Value) (t : Task (Session × Flow IoError WsError))
      (s : System Tx Sem IoError WsError Value)
      → HashMap.get id s.sessions ≡ some (serving claims t)
      → HashMap.get id (called services id s).sessions
        ≡ some (proceed services id claims t s.registry).1
  unfolding called
  called-serving id claims t s e = ground (
    arith,
    e,
    ==_refl id,
    HashMap.get-insert id id (proceed services id claims t s.registry).1 s.sessions,
  )

  pub departed-parted :
      (id : ConnectionId) (claims : Claims Value) (s : System Tx Sem IoError WsError Value)
      → HashMap.get id s.sessions ≡ some (parted claims)
      → HashMap.get id (departed services id s).sessions ≡ none
  unfolding departed
  departed-parted id claims s e = ground (arith, e, ==_refl id, HashMap.get-remove id id s.sessions)

  -- A session stays where it is, makes its next call, or is dropped.
  pub enact-serving :
      (a : Action WsError) (s : System Tx Sem IoError WsError Value) (id : ConnectionId)
      (claims : Claims Value) (t : Task (Session × Flow IoError WsError))
      → IsCoherent services s
      → HashMap.get id s.sessions ≡ some (serving claims t)
      → (HashMap.get id (enact services a s).sessions ≡ some (serving claims t))
        ⊎ (HashMap.get id (enact services a s).sessions
            ≡ some (proceed services id claims t s.registry).1)
        ⊎ (HashMap.get id (enact services a s).sessions ≡ some (parted claims))
  unfolding enact
  enact-serving connects s id claims t h e = inl e
  enact-serving releases s id claims t h e = inl (ground (arith, e))
  enact-serving (opens p) s id claims t h e =
      inl (opened-get p id s (next_id-other s id (serving claims t) h e) ∙ e)
  enact-serving (calls j) s id claims t h e = elim (Bool-cases (j == id)) [
    | inl own ↦ inr (inl (rw ((==_iff j id).0 own) (called-serving id claims t s e)))
    | inr other ↦ inl (called-get j id s other ∙ e)
  ]
  enact-serving (takes j) s id claims t h e = inl (unfold frame_taken in ground (arith, e))
  enact-serving (aborts j) s id claims t h e = elim (Bool-cases (j == id)) [
    | inl own ↦ inr (
        inr (
          unfold aborted in
          ground (
            arith,
            e,
            own,
            (==_iff j id).0 own,
            HashMap.get-insert j id (parted claims) s.sessions,
          )))
    | inr other ↦ inl (aborted-get j id s other ∙ e)
  ]
  enact-serving (departs j) s id claims t h e = elim (Bool-cases (j == id)) [
    | inl own ↦ inl (unfold departed in ground (arith, e, own, (==_iff j id).0 own))
    | inr other ↦ inl (departed-get j id s other ∙ e)
  ]
  enact-serving (publishes ch f) s id claims t h e = inl e
  enact-serving (broadcasts f) s id claims t h e = inl e

  -- A task that is past its session stays there, or drops its guard.
  pub enact-parted :
      (a : Action WsError) (s : System Tx Sem IoError WsError Value) (id : ConnectionId)
      (claims : Claims Value)
      → IsCoherent services s
      → HashMap.get id s.sessions ≡ some (parted claims)
      → (HashMap.get id (enact services a s).sessions ≡ some (parted claims))
        ⊎ (HashMap.get id (enact services a s).sessions ≡ none)
  unfolding enact
  enact-parted connects s id claims h e = inl e
  enact-parted releases s id claims h e = inl (ground (arith, e))
  enact-parted (opens p) s id claims h e =
      inl (opened-get p id s (next_id-other s id (parted claims) h e) ∙ e)
  enact-parted (calls j) s id claims h e = elim (Bool-cases (j == id)) [
    | inl own ↦ inl (unfold called in ground (arith, e, own, (==_iff j id).0 own))
    | inr other ↦ inl (called-get j id s other ∙ e)
  ]
  enact-parted (takes j) s id claims h e = inl (unfold frame_taken in ground (arith, e))
  enact-parted (aborts j) s id claims h e = elim (Bool-cases (j == id)) [
    | inl own ↦ inl (unfold aborted in ground (arith, e, own, (==_iff j id).0 own))
    | inr other ↦ inl (aborted-get j id s other ∙ e)
  ]
  enact-parted (departs j) s id claims h e = elim (Bool-cases (j == id)) [
    | inl own ↦ inr (rw ((==_iff j id).0 own) (departed-parted id claims s e))
    | inr other ↦ inl (departed-get j id s other ∙ e)
  ]
  enact-parted (publishes ch f) s id claims h e = inl e
  enact-parted (broadcasts f) s id claims h e = inl e
