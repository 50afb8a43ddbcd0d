-- ===== src/Server/System/Coherent.antt =====
-- The registry of src/registry.rs against the tasks of src/server.rs: what any number of actions leave.
use ws_fanout.Prelude.{
  ℕ, ◌+◌, ◌≤◌, ◌<◌, ◌≡◌, refl, Bool, true, false, Option, none, some, List, [], ◌∷◌, arith, ◌==◌,
  ltb, if◌then◌else◌, length, Bool-cases, inl, inr, ◌∙◌, ap, sym, nat_eq, string_eq, u64_mod,
  Result-cases,
}
use ws_fanout.Collections.HashMap
use ws_fanout.Collections.HashMap.{HashMap}
use ws_fanout.Collections.Keys.{is_some}
use ws_fanout.Mpsc.{Mpsc}
use ws_fanout.Registry.{Registry, Connection, ConnectionId, no_metrics}
use ws_fanout.Registry
use ws_fanout.Registry.Calls.{
  Call, join, leave, subscribing, unsubscribing, publishing, broadcasting, sending, receiving,
  hanging_up, timing_out, refusing, entry_after,
}
use ws_fanout.Registry.Calls.Entries.{perform-get}
use ws_fanout.Registry.Invariant.{IsValid, new-IsValid}
use ws_fanout.Server.Connection.{opening}
use ws_fanout.Server.Handle.{Services}
use ws_fanout.Server.Serve.{Semaphore, started}
use ws_fanout.Server.Session.{Session, Flow, continue, finish, session}
use ws_fanout.Server.Connection.Apart.{begun}
use ws_fanout.Server.System.{
  Stage, serving, parted, System, Action, connects, releases, opens, calls, takes, aborts, departs,
  publishes, broadcasts, boot, proceed, opened, called, frame_taken, aborted, departed, enact,
  enacts,
}
use ws_fanout.Server.System.Calls.{
  performed, task_call, call_made, stage-cases, enact-performed, performed-IsValid, performed-ids,
}
use ws_fanout.Server.Task.{
  Task, ret, subscribe, unsubscribe, send, drops, heartbeat_timeout, close_sink,
}
use ws_fanout.Server.Task.Own.{open_at}

-- Whether a connection is there after a call, from whether it was.
unfoldable pub present_after : Option Call → ℕ → ConnectionId → Bool → Bool
present_after (some (join subject)) n j b = if n == j then true else b
present_after (some (leave id)) n j b = if id == j then false else b
present_after _ n j b = b

module _ {Tx : Type 0} ⦃mpsc : Mpsc Tx⦄ (max cap : ℕ) where
  entry_after-present :
      (x : Call) (n : ℕ) (j : ConnectionId) (o : Option (Connection Tx))
      → is_some (entry_after max cap x n j o) ≡ present_after (some x) n j (is_some o)
  unfolding entry_after present_after
  entry_after-present (join subject) n j o = ground arith
  entry_after-present (leave id) n j o = ground arith
  entry_after-present (subscribing id chs) n j o = ground arith
  entry_after-present (unsubscribing id chs) n j o = ground arith
  entry_after-present (publishing ch f) n j o = ground arith
  entry_after-present (broadcasting f) n j o = ground arith
  entry_after-present (sending id f) n j o = ground arith
  entry_after-present (receiving id) n j o = ground arith
  entry_after-present (hanging_up id) n j o = ground arith
  entry_after-present timing_out n j o = refl
  entry_after-present refusing n j o = refl

  performed-present :
      (x : Option Call) (r : Registry Tx) (j : ConnectionId)
      → IsValid r
      → open_at (performed max cap x r) j ≡ present_after x r.next_id j (open_at r j)
  unfolding performed present_after
  performed-present none r j v = refl
  performed-present (some x) r j v =
      ap is_some (perform-get max cap x r j v)
      ∙ entry_after-present x r.next_id j (HashMap.get j r.connections)

-- Only the guard of a task takes a connection out, and only a task's opening brings one in.
task_call-present :
    {IoError WsError : Type 0} (id : ConnectionId) (t : Task (Session × Flow IoError WsError))
    (n : ℕ) (j : ConnectionId) (b : Bool)
    → present_after (task_call id t) n j b ≡ b
unfolding present_after task_call
task_call-present id (ret (s, continue)) n j b = refl
task_call-present id (ret (s, finish result)) n j b = refl
task_call-present id (subscribe chs k) n j b = refl
task_call-present id (unsubscribe chs k) n j b = refl
task_call-present id (send frame k) n j b = refl
task_call-present id (drops k) n j b = refl
task_call-present id (heartbeat_timeout t) n j b = refl
task_call-present id (close_sink t) n j b = refl

module _ {Tx Sem IoError WsError RawValue Value : Type 0} ⦃mpsc : Mpsc Tx⦄
    ⦃semaphore : Semaphore Sem⦄ (services : Services IoError WsError RawValue Value) where
  open services use {config}

  -- The registry is valid, and its connections are those of the tasks that have joined it and not
  -- dropped their guard.
  pub record IsCoherent (s : System Tx Sem IoError WsError Value) : Type 0 where
    pub valid : IsValid s.registry
    pub same : (j : ConnectionId) → is_some (HashMap.get j s.sessions) ≡ open_at s.registry j

  pub enact-sessions :
      (a : Action WsError) (s : System Tx Sem IoError WsError Value) (j : ConnectionId)
      → is_some (HashMap.get j (enact services a s).sessions)
        ≡ present_after
            (call_made services a s)
            s.registry.next_id
            j
            (is_some (HashMap.get j s.sessions))
  unfolding enact call_made present_after
  enact-sessions connects s j = ground arith
  enact-sessions releases s j = ground arith
  enact-sessions (opens p) s j = elim (Bool-cases (ltb 0 s.entering)) [
    | inl some_task ↦ elim (Result-cases (opening services p.handshake p.first p.answer).1) [
      | inl (claims, e) ↦
          let wire = (opening services p.handshake p.first p.answer).0 in
          let stage : Stage IoError WsError Value =
            serving claims (session services claims p.events (begun wire p.started)) in
          unfold opened in
          ground (arith, some_task, e, HashMap.get-insert s.registry.next_id j stage s.sessions)
      | inr (x, e) ↦ unfold opened in ground (arith, some_task, e)
    ]
    | inr no_task ↦ rw (no_task, enact, call_made) refl
  ]
  enact-sessions (calls id) s j = elim (stage-cases services id s) [
    | inl e ↦ unfold called in ground (arith, e)
    | inr (inl (claims, e)) ↦ unfold called in ground (arith, e)
    | inr (inr (claims, t, e)) ↦
        unfold called in
        ground (
          arith,
          e,
          task_call-present id t s.registry.next_id j (is_some (HashMap.get j s.sessions)),
          HashMap.get-insert id j (proceed services id claims t s.registry).1 s.sessions,
        )
  ]
  enact-sessions (takes id) s j = elim (stage-cases services id s) [
    | inl e ↦ unfold frame_taken in ground (arith, e)
    | inr (inl (claims, e)) ↦ unfold frame_taken in ground (arith, e)
    | inr (inr (claims, t, e)) ↦ unfold frame_taken in ground (arith, e)
  ]
  enact-sessions (aborts id) s j = elim (stage-cases services id s) [
    | inl e ↦ unfold aborted in ground (arith, e)
    | inr (inl (claims, e)) ↦ unfold aborted in ground (arith, e)
    | inr (inr (claims, t, e)) ↦
        unfold aborted in ground (arith, e, HashMap.get-insert id j (parted claims) s.sessions)
  ]
  enact-sessions (departs id) s j = elim (stage-cases services id s) [
    | inl e ↦ unfold departed in ground (arith, e)
    | inr (inl (claims, e)) ↦
        unfold departed in ground (arith, e, HashMap.get-remove id j s.sessions)
    | inr (inr (claims, t, e)) ↦ unfold departed in ground (arith, e)
  ]
  enact-sessions (publishes ch f) s j = refl
  enact-sessions (broadcasts f) s j = refl

  pub enact-IsCoherent :
      (a : Action WsError) (s : System Tx Sem IoError WsError Value)
      → s.registry.next_id + 1 < u64_mod
      → IsCoherent s
      → IsCoherent (enact services a s)
  enact-IsCoherent a s room h =
      let x = call_made services a s in
      record {
        valid = rw (enact-performed services a s) (
            performed-IsValid config.max_subscriptions config.send_queue x s.registry room h.valid);
        same = λ j.
            enact-sessions a s j
            ∙ ap (present_after x s.registry.next_id j) (h.same j)
            ∙ sym (
                performed-present config.max_subscriptions config.send_queue x s.registry j h.valid)
            ∙ ap (λ r. open_at r j) (sym (enact-performed services a s));
      }

  pub enact-ids :
      (a : Action WsError) (s : System Tx Sem IoError WsError Value)
      → s.registry.next_id + 1 < u64_mod
      → (s.registry.next_id ≤ (enact services a s).registry.next_id)
        × ((enact services a s).registry.next_id ≤ s.registry.next_id + 1)
  enact-ids a s room = rw (enact-performed services a s) (
      performed-ids config.max_subscriptions config.send_queue (call_made services a s) s.registry
        room)

  pub enacts-IsCoherent :
      (actions : List (Action WsError)) (s : System Tx Sem IoError WsError Value)
      → s.registry.next_id + length actions < u64_mod
      → IsCoherent s
      → IsCoherent (enacts services actions s)
  unfolding enacts
  enacts-IsCoherent [] s room h = h
  enacts-IsCoherent (a ∷ actions) s room h =
      let fits : s.registry.next_id + 1 < u64_mod = omega (arith, room) in
      enacts-IsCoherent actions (enact services a s) (omega (arith, room, enact-ids a s fits))
        (enact-IsCoherent a s fits h)

  pub boot-IsCoherent : IsCoherent (boot services)
  unfolding boot started HashMap.get Registry.new
  boot-IsCoherent = record { valid = new-IsValid; same = λ j. refl }

module _ {IoError WsError RawValue Value : Type 0} (Tx Sem : Type 0) ⦃mpsc : Mpsc Tx⦄
    ⦃semaphore : Semaphore Sem⦄ (services : Services IoError WsError RawValue Value) where
  -- The server after the actions.
  abbrev pub after : List (Action WsError) → System Tx Sem IoError WsError Value
  after actions = enacts services actions (boot services)

  pub after-IsCoherent :
      (actions : List (Action WsError))
      → 1 + length actions < u64_mod
      → IsCoherent services (after actions)
  unfolding boot started Registry.new
  after-IsCoherent actions room =
      enacts-IsCoherent services actions (boot services) room (boot-IsCoherent services)
