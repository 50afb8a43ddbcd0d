-- ===== src/Server/System/Safe.antt =====
-- One connection of the registry of src/registry.rs and its task in src/server.rs: whom it belongs to, and
-- what it may hold.
use ws_fanout.Prelude.{
  ℕ, ◌≡◌, refl, true, false, Option, some, String, List, [], ◌∷◌, arith, ◌==◌, Bool-cases, inl, inr,
  ◌⊎◌, ◌∙◌, ap, sym, nat_eq, string_eq, ==_refl, ==_iff,
}
use mathlib.Core.Path.{subst}
use ws_fanout.Auth.{Claims}
use ws_fanout.Collections.HashMap
use ws_fanout.Mpsc.{Mpsc}
use ws_fanout.Registry.{Registry, ConnectionId}
use ws_fanout.Registry.Calls.{
  Call, join, subscribing, unsubscribing, sending, hanging_up, timing_out, perform,
}
use ws_fanout.Registry.Invariant.{IsValid}
use ws_fanout.Registry.Subscriptions.{holds, subscribe-holds, subscribe-added}
use ws_fanout.Server.Connection.{Peer, opening}
use ws_fanout.Server.Connection.Apart.{begun}
use ws_fanout.Server.Connection.Lifecycle.{add-holds}
use ws_fanout.Server.Connection.Validated.{Vouches}
use ws_fanout.Server.Handle.{Services}
use ws_fanout.Server.Handle.Permits.{Permitted}
use ws_fanout.Server.Session.{Session, Flow, continue, finish, session}
use ws_fanout.Server.Session.Permits.{session-Asks}
use ws_fanout.Server.System.{
  Stage, serving, parted, Action, connects, releases, opens, calls, takes, aborts, departs,
  publishes, broadcasts, proceed,
}
use ws_fanout.Server.System.Calls.{performed, task_call, task_call-proceed}
use ws_fanout.Server.System.Foreign.{
  IsForeign, subject_at, subject_after, perform-subject, performed-holds, performed-subject,
}
use ws_fanout.Server.Task.{
  Task, ret, subscribe, unsubscribe, send, drops, heartbeat_timeout, close_sink,
}
use ws_fanout.Server.Task.Asks.{Asks, All-contains}

task_call-IsForeign :
    {IoError WsError : Type 0} (id j : ConnectionId) (t : Task (Session × Flow IoError WsError))
    (n : ℕ)
    → (id == j) ≡ false
    → IsForeign (task_call id t) n j
unfolding IsForeign task_call
task_call-IsForeign id j (ret (s, continue)) n other = tt
task_call-IsForeign id j (ret (s, finish result)) n other = tt
task_call-IsForeign id j (subscribe chs k) n other = other
task_call-IsForeign id j (unsubscribe chs k) n other = tt
task_call-IsForeign id j (send frame k) n other = tt
task_call-IsForeign id j (drops k) n other = tt
task_call-IsForeign id j (heartbeat_timeout t) n other = tt
task_call-IsForeign id j (close_sink t) n other = tt

module _ {IoError WsError RawValue Value : Type 0}
    (services : Services IoError WsError RawValue Value) where
  open services use {config}

  -- The claims come from an action in which a client's token was accepted.
  abbrev pub Opens : Action WsError → Claims Value → Type 0
  Opens (opens p) claims = Vouches services p.first claims
  Opens connects claims = ⊥
  Opens releases claims = ⊥
  Opens (calls id) claims = ⊥
  Opens (takes id) claims = ⊥
  Opens (aborts id) claims = ⊥
  Opens (departs id) claims = ⊥
  Opens (publishes ch f) claims = ⊥
  Opens (broadcasts f) claims = ⊥

  abbrev pub Opened : List (Action WsError) → Claims Value → Type 0
  Opened [] claims = ⊥
  Opened (a ∷ actions) claims = Opens a claims ⊎ Opened actions claims

  unfoldable pub claims_of : Stage IoError WsError Value → Claims Value
  claims_of (serving claims t) = claims
  claims_of (parted claims) = claims

  abbrev pub AsksLeft : Stage IoError WsError Value → Type 0
  AsksLeft (serving claims t) = Asks (Permitted services claims) t
  AsksLeft (parted claims) = Unit {0}

  module _ {Tx : Type 0} ⦃mpsc : Mpsc Tx⦄ (From : Claims Value → Type 0) where
    -- What holds of one connection and its task.
    pub record IsSafe (j : ConnectionId) (r : Registry Tx) (stage : Stage IoError WsError Value)
        : Type 0 where
      pub from : From (claims_of stage)
      pub left : AsksLeft stage
      pub held : (d : String) → holds r j d ≡ true → Permitted services (claims_of stage) d
      pub subject : subject_at r j ≡ some (claims_of stage).subject

    pub foreign-IsSafe :
        (x : Option Call) (r : Registry Tx) (j : ConnectionId) (stage : Stage IoError WsError Value)
        → IsForeign x r.next_id j
        → IsValid r
        → IsSafe j r stage
        → IsSafe j (performed config.max_subscriptions config.send_queue x r) stage
    foreign-IsSafe x r j stage q v h = record {
      from = h.from;
      left = h.left;
      held = λ d e.
          h.held d (performed-holds config.max_subscriptions config.send_queue x r j d q v e);
      subject = performed-subject config.max_subscriptions config.send_queue x r j q v ∙ h.subject;
    }

    -- The task moves on.
    pub next-IsSafe :
        (r : Registry Tx) (j : ConnectionId) (stage stage' : Stage IoError WsError Value)
        → claims_of stage' ≡ claims_of stage
        → AsksLeft stage'
        → IsSafe j r stage
        → IsSafe j r stage'
    next-IsSafe r j stage stage' same left h = record {
      from = subst From (sym same) h.from;
      left = left;
      held = λ d e. subst (λ c. Permitted services c d) (sym same) (h.held d e);
      subject = h.subject ∙ ap (λ (c : Claims Value). some c.subject) (sym same);
    }

    pub proceed-IsSafe :
        (id : ConnectionId) (claims : Claims Value) (t : Task (Session × Flow IoError WsError))
        (r : Registry Tx)
        → IsValid r
        → IsSafe id r (serving claims t)
        → IsSafe id (proceed services id claims t r).0 (proceed services id claims t r).1
    unfolding proceed claims_of performed IsForeign perform subject_after
    proceed-IsSafe id claims (ret (s, continue)) r v h = h
    proceed-IsSafe id claims (ret (s, finish result)) r v h =
        foreign-IsSafe (some (hanging_up id)) r id (parted claims) tt v
          (next-IsSafe r id (serving claims (ret (s, finish result))) (parted claims) refl tt h)
    proceed-IsSafe id claims (subscribe chs k) r v h = record {
      from = h.from;
      left = h.left.1 _;
      held = λ d e. elim (Bool-cases (holds r id d)) [
        | inl old ↦ h.held d old
        | inr new ↦ All-contains (Permitted services claims) d chs h.left.0 (
            ground (
              arith,
              e,
              new,
              subscribe-holds r id id chs config.max_subscriptions d v,
              subscribe-added r id chs config.max_subscriptions v d,
            ))
      ];
      subject =
          perform-subject config.max_subscriptions config.send_queue (subscribing id chs) r id v
          ∙ h.subject;
    }
    proceed-IsSafe id claims (unsubscribe chs k) r v h =
        foreign-IsSafe (some (unsubscribing id chs)) r id _ tt v
          (next-IsSafe r id (serving claims (unsubscribe chs k)) _ refl (h.left _) h)
    proceed-IsSafe id claims (send frame k) r v h =
        foreign-IsSafe (some (sending id frame)) r id _ tt v
          (next-IsSafe r id (serving claims (send frame k)) _ refl (h.left _) h)
    proceed-IsSafe id claims (drops k) r v h =
        next-IsSafe r id (serving claims (drops k)) _ refl (h.left _) h
    proceed-IsSafe id claims (close_sink t) r v h =
        next-IsSafe r id (serving claims (close_sink t)) _ refl h.left h
    proceed-IsSafe id claims (heartbeat_timeout t) r v h =
        foreign-IsSafe (some timing_out) r id _ tt v
          (next-IsSafe r id (serving claims (heartbeat_timeout t)) _ refl h.left h)

    -- A connection that has just joined.
    pub joined-IsSafe :
        (p : Peer WsError) (claims : Claims Value) (r : Registry Tx)
        → From claims
        → IsValid r
        → IsSafe r.next_id
            (perform config.max_subscriptions config.send_queue (join claims.subject) r)
            (serving claims (
              session services claims p.events
                (begun (opening services p.handshake p.first p.answer).0 p.started)))
    unfolding claims_of perform subject_after
    joined-IsSafe p claims r from v = record {
      from = from;
      left = session-Asks services claims p.events _;
      held = λ d e. absurd (
          ground (
            arith,
            e,
            ==_refl r.next_id,
            add-holds r claims.subject (mpsc.channel config.send_queue) r.next_id d,
          ));
      subject =
          perform-subject config.max_subscriptions config.send_queue (join claims.subject) r
            r.next_id v
          ∙ ground (arith, ==_refl r.next_id);
    }

    same-IsSafe :
        (i j : ConnectionId) (r : Registry Tx) (stage stage' : Stage IoError WsError Value)
        → (i == j) ≡ true
        → stage ≡ stage'
        → IsSafe i r stage
        → IsSafe j r stage'
    same-IsSafe i j r stage stage' own e h =
        subst (λ k. IsSafe k r stage') ((==_iff i j).0 own) (subst (IsSafe i r) e h)

    -- The stage of one connection has been written over.
    pub written-IsSafe :
        (id j : ConnectionId) (stage stage' : Stage IoError WsError Value)
        (m : HashMap.HashMap ConnectionId (Stage IoError WsError Value)) (r : Registry Tx)
        → HashMap.get j (HashMap.insert id stage m) ≡ some stage'
        → IsSafe id r stage
        → ((id == j) ≡ false → HashMap.get j m ≡ some stage' → IsSafe j r stage')
        → IsSafe j r stage'
    written-IsSafe id j stage stage' m r e own others = elim (Bool-cases (id == j)) [
      | inl same ↦
          same-IsSafe id j r stage stage' same
            (ground (arith, e, same, HashMap.get-insert id j stage m)) own
      | inr other ↦ others other (ground (arith, e, other, HashMap.get-insert id j stage m))
    ]

    -- The next call of one session leaves another connection as safe as it was.
    pub others-IsSafe :
        (id j : ConnectionId) (claims : Claims Value) (t : Task (Session × Flow IoError WsError))
        (r : Registry Tx) (stage : Stage IoError WsError Value)
        → (id == j) ≡ false
        → IsValid r
        → IsSafe j r stage
        → IsSafe j (proceed services id claims t r).0 stage
    others-IsSafe id j claims t r stage other v h =
        subst (λ s. IsSafe j s stage) (sym (task_call-proceed services id claims t r))
          (foreign-IsSafe (task_call id t) r j stage (task_call-IsForeign id j t r.next_id other) v
            h)
