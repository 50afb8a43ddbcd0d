-- ===== src/Server/System/Calls.antt =====
-- The call on the registry of src/registry.rs, if any, that an action of the server makes.
use ws_fanout.Prelude.{
  ℕ, ◌+◌, ◌≤◌, ◌<◌, ◌≡◌, refl, Option, none, some, arith, ltb, if◌then◌else◌, Bool-cases,
  Option-cases, inl, inr, ◌⊎◌, nat_eq, string_eq, u64_mod, wrapping_add_exact, ok, err,
  Result-cases,
}
use ws_fanout.Auth.{Claims}
use ws_fanout.Collections.HashMap
use ws_fanout.Mpsc.{Mpsc}
use ws_fanout.Registry.{Registry, ConnectionId}
use ws_fanout.Registry.Calls.{
  Call, join, leave, subscribing, unsubscribing, publishing, broadcasting, sending, receiving,
  hanging_up, timing_out, refusing, perform, ids_after,
}
use ws_fanout.Registry.Calls.Entries.{perform-ids, perform-IsValid}
use ws_fanout.Registry.Invariant.{IsValid}
use ws_fanout.Server.Connection.{opening}
use ws_fanout.Server.Handle.{Services}
use ws_fanout.Server.Serve.{Semaphore, Running, accept, fail, drop_permit}
use ws_fanout.Server.Serve
use ws_fanout.Server.Session.{Session, Flow, continue, finish}
use ws_fanout.Server.System.{
  serving, parted, System, Action, connects, releases, opens, calls, takes, aborts, departs,
  publishes, broadcasts, proceed, opened, called, frame_taken, aborted, departed, enact,
}
use ws_fanout.Server.Task.{
  Task, ret, subscribe, unsubscribe, send, drops, heartbeat_timeout, close_sink,
}

-- The registry after a call, or without one.
unfoldable pub performed :
    {Tx : Type 0} ⦃mpsc : Mpsc Tx⦄ → ℕ → ℕ → Option Call → Registry Tx → Registry Tx
performed max cap none r = r
performed max cap (some x) r = perform max cap x r

-- The next call of a session.
unfoldable pub task_call :
    {IoError WsError : Type 0} → ConnectionId → Task (Session × Flow IoError WsError) → Option Call
task_call id (ret (s, continue)) = none
task_call id (ret (s, finish result)) = some (hanging_up id)
task_call id (subscribe chs k) = some (subscribing id chs)
task_call id (unsubscribe chs k) = some (unsubscribing id chs)
task_call id (send frame k) = some (sending id frame)
task_call id (drops k) = none
task_call id (heartbeat_timeout t) = some timing_out
task_call id (close_sink t) = none

module _ {Tx IoError WsError RawValue Value : Type 0} ⦃mpsc : Mpsc Tx⦄
    (services : Services IoError WsError RawValue Value) where
  open services use {config}

  pub task_call-proceed :
      (id : ConnectionId) (claims : Claims Value) (t : Task (Session × Flow IoError WsError))
      (r : Registry Tx)
      → (proceed services id claims t r).0
        ≡ performed config.max_subscriptions config.send_queue (task_call id t) r
  unfolding proceed task_call performed perform
  task_call-proceed id claims (ret (s, continue)) r = refl
  task_call-proceed id claims (ret (s, finish result)) r = refl
  task_call-proceed id claims (subscribe chs k) r = refl
  task_call-proceed id claims (unsubscribe chs k) r = refl
  task_call-proceed id claims (send frame k) r = refl
  task_call-proceed id claims (drops k) r = refl
  task_call-proceed id claims (heartbeat_timeout t) r = refl
  task_call-proceed id claims (close_sink t) r = refl

module _ {Tx Sem IoError WsError RawValue Value : Type 0} ⦃mpsc : Mpsc Tx⦄
    ⦃semaphore : Semaphore Sem⦄ (services : Services IoError WsError RawValue Value) where
  open services use {config}

  unfoldable pub call_made : Action WsError → System Tx Sem IoError WsError Value → Option Call
  unfolding task_call
  call_made connects s = elim (semaphore.try_acquire s.slots) [
    | none ↦ some refusing
    | some slots ↦ none
  ]
  call_made releases s = none
  call_made (opens p) s =
      if ltb 0 s.entering
      then (elim (opening services p.handshake p.first p.answer).1 [
        | err e ↦ none
        | ok claims ↦ some (join claims.subject)
      ])
      else none
  call_made (calls id) s = elim (HashMap.get id s.sessions) [
    | some (serving claims t) ↦ task_call id t
    | _ ↦ none
  ]
  call_made (takes id) s = elim (HashMap.get id s.sessions) [
    | some (serving claims t) ↦ some (receiving id)
    | _ ↦ none
  ]
  call_made (aborts id) s = elim (HashMap.get id s.sessions) [
    | some (serving claims t) ↦ some (hanging_up id)
    | _ ↦ none
  ]
  call_made (departs id) s = elim (HashMap.get id s.sessions) [
    | some (parted claims) ↦ some (leave id)
    | _ ↦ none
  ]
  call_made (publishes ch f) s = some (publishing ch f)
  call_made (broadcasts f) s = some (broadcasting f)

  -- Where the connection's task is.
  pub stage-cases :
      (id : ConnectionId) (s : System Tx Sem IoError WsError Value)
      → (HashMap.get id s.sessions ≡ none)
        ⊎ ((claims : Claims Value) × (HashMap.get id s.sessions ≡ some (parted claims)))
        ⊎ ((claims : Claims Value) × (t : Task (Session × Flow IoError WsError)) × (HashMap.get id
                s.sessions
              ≡ some (serving claims t)))
  stage-cases id s = elim (Option-cases (HashMap.get id s.sessions)) [
    | inl e ↦ inl e
    | inr (parted claims, e) ↦ inr (inl (claims, e))
    | inr (serving claims t, e) ↦ inr (inr (claims, t, e))
  ]

  pub enact-performed :
      (a : Action WsError) (s : System Tx Sem IoError WsError Value)
      → (enact services a s).registry
        ≡ performed config.max_subscriptions config.send_queue (call_made a s) s.registry
  unfolding enact call_made performed
  enact-performed connects s = elim (Option-cases (semaphore.try_acquire s.slots)) [
    | inl e ↦ unfold accept perform in ground (arith, e)
    | inr (t, e) ↦ unfold accept in ground (arith, e)
  ]
  enact-performed releases s = unfold drop_permit in ground arith
  enact-performed (opens p) s = elim (Bool-cases (ltb 0 s.entering)) [
    | inl some_task ↦ elim (Result-cases (opening services p.handshake p.first p.answer).1) [
      | inl (claims, e) ↦ unfold opened Serve.join perform in ground (arith, some_task, e)
      | inr (x, e) ↦ unfold opened fail in ground (arith, some_task, e)
    ]
    | inr no_task ↦ rw (no_task, enact, call_made) refl
  ]
  enact-performed (calls id) s = elim (stage-cases id s) [
    | inl e ↦ unfold called in ground (arith, e)
    | inr (inl (claims, e)) ↦ unfold called in ground (arith, e)
    | inr (inr (claims, t, e)) ↦
        unfold called in ground (arith, e, task_call-proceed services id claims t s.registry)
  ]
  enact-performed (takes id) s = elim (stage-cases id s) [
    | inl e ↦ unfold frame_taken in ground (arith, e)
    | inr (inl (claims, e)) ↦ unfold frame_taken in ground (arith, e)
    | inr (inr (claims, t, e)) ↦ unfold frame_taken perform in ground (arith, e)
  ]
  enact-performed (aborts id) s = elim (stage-cases id s) [
    | inl e ↦ unfold aborted in ground (arith, e)
    | inr (inl (claims, e)) ↦ unfold aborted in ground (arith, e)
    | inr (inr (claims, t, e)) ↦ unfold aborted perform in ground (arith, e)
  ]
  enact-performed (departs id) s = elim (stage-cases id s) [
    | inl e ↦ unfold departed in ground (arith, e)
    | inr (inl (claims, e)) ↦ unfold departed Serve.leave perform in ground (arith, e)
    | inr (inr (claims, t, e)) ↦ unfold departed in ground (arith, e)
  ]
  enact-performed (publishes ch f) s = unfold perform in refl
  enact-performed (broadcasts f) s = unfold perform in refl

module _ {Tx : Type 0} ⦃mpsc : Mpsc Tx⦄ (max cap : ℕ) where
  pub performed-IsValid :
      (x : Option Call) (r : Registry Tx)
      → r.next_id + 1 < u64_mod
      → IsValid r
      → IsValid (performed max cap x r)
  unfolding performed
  performed-IsValid none r room v = v
  performed-IsValid (some x) r room v = perform-IsValid max cap x r room v

  pub performed-ids :
      (x : Option Call) (r : Registry Tx)
      → r.next_id + 1 < u64_mod
      → (r.next_id ≤ (performed max cap x r).next_id)
        × ((performed max cap x r).next_id ≤ r.next_id + 1)
  unfolding performed ids_after
  performed-ids none r room = (omega arith, omega arith)
  performed-ids (some x) r room =
      ground (arith, perform-ids max cap x r, wrapping_add_exact r.next_id 1)
