-- ===== src/Server/Session/Among.antt =====
-- A session of src/server.rs among the tasks of other connections, publishers and the accept loop.
use ws_fanout.Prelude.{
  ℕ, ◌≡◌, true, false, String, List, arith, ◌==◌, Bool-cases, inl, inr, ◌⊎◌, ◌∙◌, ap, sym, nat_eq,
  string_eq, ==_comm,
}
use ws_fanout.Auth.{Claims}
use ws_fanout.Mpsc.{Mpsc}
use ws_fanout.Registry.{Registry, ConnectionId}
use ws_fanout.Registry.Invariant.{IsValid, subscribe-IsValid, unsubscribe-IsValid}
use ws_fanout.Registry.Keeps.{
  Keeps-holds, Keeps-IsValid, send-Keeps, publish-Keeps, broadcast-Keeps, count_timeout-Keeps,
  count_refused-Keeps,
}
use ws_fanout.Registry.Reach.{
  Step, joins, leaves, subscribes, unsubscribes, publishes, broadcasts, sends, receives, hangs_up,
  times_out, refuses, Step-IsValid,
}
use ws_fanout.Registry.Receiver.{with_tx}
use ws_fanout.Registry.Receiver.Keeps.{with_tx-Keeps, receive-with_tx, hang_up-Keeps}
use ws_fanout.Registry.Subscriptions.{
  holds, subscribe-holds, unsubscribe-holds, remove-holds, subscribe-added,
}
use ws_fanout.Server.Connection.Lifecycle.{add-holds}
use ws_fanout.Server.Handle.{Services}
use ws_fanout.Server.Handle.Permits.{Permitted}
use ws_fanout.Server.Session.{Event, Session, Flow, session}
use ws_fanout.Server.Session.Permits.{session-Asks}
use ws_fanout.Server.Task.{
  Task, ret, subscribe, unsubscribe, send, drops, heartbeat_timeout, close_sink, Among,
}
use ws_fanout.Server.Task.Asks.{Asks, All-contains}

module _ {Tx : Type 0} ⦃mpsc : Mpsc Tx⦄ (max cap : ℕ) (id : ConnectionId) where
  -- The step is no `subscribe` for the connection: only its own task makes those.
  abbrev IsForeign : {r s : Registry Tx} → Step max cap r s → Type 0
  IsForeign (subscribes j chs) = (id == j) ≡ false
  IsForeign (joins subject room) = Unit {0}
  IsForeign (leaves j) = Unit {0}
  IsForeign (unsubscribes j chs) = Unit {0}
  IsForeign (publishes ch f) = Unit {0}
  IsForeign (broadcasts f) = Unit {0}
  IsForeign (sends j f) = Unit {0}
  IsForeign (receives j f e) = Unit {0}
  IsForeign (hangs_up j) = Unit {0}
  IsForeign times_out = Unit {0}
  IsForeign refuses = Unit {0}

  -- Any number of such steps.
  pub data Foreign (r : Registry Tx) : Registry Tx → Type 0 where
    stay : Foreign r r
    next : {s t : Registry Tx} → Foreign r s → (st : Step max cap s t) → IsForeign st → Foreign r t

  -- After such a step the connection holds no more than before.
  Step-holds :
      {r s : Registry Tx} (st : Step max cap r s) (d : String)
      → IsForeign st
      → IsValid r
      → holds s id d ≡ true
      → holds r id d ≡ true
  Step-holds {r} (subscribes j chs) d q v h =
      ground (arith, h, q, ==_comm id j, subscribe-holds r j id chs max d v)
  Step-holds {r} (joins subject room) d q v h =
      ground (arith, h, add-holds r subject (mpsc.channel cap) id d)
  Step-holds {r} (leaves j) d q v h = ground (arith, h, remove-holds r j id d)
  Step-holds {r} (unsubscribes j chs) d q v h = ground (arith, h, unsubscribe-holds r j id chs d)
  Step-holds {r} (publishes ch f) d q v h = sym (Keeps-holds r _ id d (publish-Keeps r ch f)) ∙ h
  Step-holds {r} (broadcasts f) d q v h = sym (Keeps-holds r _ id d (broadcast-Keeps r f)) ∙ h
  Step-holds {r} (sends j f) d q v h = sym (Keeps-holds r _ id d (send-Keeps r j f)) ∙ h
  Step-holds {r} {s} (receives j f e) d q v h =
      let (c, t, known, _, w) = receive-with_tx r s j f e in
      sym (Keeps-holds r (with_tx r j c t) id d (with_tx-Keeps r j c t known))
      ∙ ap (λ x. holds x id d) (sym w)
      ∙ h
  Step-holds {r} (hangs_up j) d q v h = sym (Keeps-holds r _ id d (hang_up-Keeps r j)) ∙ h
  Step-holds {r} times_out d q v h = sym (Keeps-holds r _ id d (count_timeout-Keeps r)) ∙ h
  Step-holds {r} refuses d q v h = sym (Keeps-holds r _ id d (count_refused-Keeps r)) ∙ h

  Foreign-IsValid : {r s : Registry Tx} → Foreign r s → IsValid r → IsValid s
  Foreign-IsValid stay v = v
  Foreign-IsValid (next before st q) v = Step-IsValid max cap st (Foreign-IsValid before v)

  Foreign-holds :
      {r s : Registry Tx} (d : String)
      → Foreign r s
      → IsValid r
      → holds s id d ≡ true
      → holds r id d ≡ true
  Foreign-holds d stay v h = h
  Foreign-holds d (next before st q) v h =
      Foreign-holds d before v (Step-holds st d q (Foreign-IsValid before v) h)

  -- What the connection holds after its task it held before, or the task may ask for it.
  Among-Asks :
      {A : Type 0} (P : String → Type 0) (t : Task A) (r s : Registry Tx) (b : A) (d : String)
      → Asks P t
      → IsValid r
      → Among Foreign id max t r s b
      → holds s id d ≡ true
      → (holds r id d ≡ true) ⊎ P d
  Among-Asks P (ret a) r s b d asks v (others, _) h = inl (Foreign-holds d others v h)
  Among-Asks P (subscribe chs k) r s b d asks v (m, before, e) h =
      let u = Foreign-IsValid before v in
      elim (Among-Asks P (k _) _ s b d (asks.1 _) (subscribe-IsValid m id chs max u) e h) [
        | inr now ↦ inr now
        | inl held ↦ elim (Bool-cases (holds m id d)) [
          | inl old ↦ inl (Foreign-holds d before v old)
          | inr new ↦ inr (
              All-contains P d chs asks.0 (
                ground (
                  arith,
                  held,
                  new,
                  subscribe-holds m id id chs max d u,
                  subscribe-added m id chs max u d,
                )))
        ]
      ]
  Among-Asks P (unsubscribe chs k) r s b d asks v (m, before, e) h =
      let u = Foreign-IsValid before v in
      elim (Among-Asks P (k _) _ s b d (asks _) (unsubscribe-IsValid m id chs u) e h) [
        | inr now ↦ inr now
        | inl held ↦
            inl (Foreign-holds d before v (ground (arith, held, unsubscribe-holds m id id chs d)))
      ]
  Among-Asks P (send frame k) r s b d asks v (m, before, e) h =
      let u = Foreign-IsValid before v in
      let kept = send-Keeps m id frame in
      elim (Among-Asks P (k _) _ s b d (asks _) (Keeps-IsValid m _ kept u) e h) [
        | inr now ↦ inr now
        | inl held ↦ inl (Foreign-holds d before v (sym (Keeps-holds m _ id d kept) ∙ held))
      ]
  Among-Asks P (drops k) r s b d asks v (m, before, e) h =
      elim (Among-Asks P (k _) m s b d (asks _) (Foreign-IsValid before v) e h) [
        | inr now ↦ inr now
        | inl held ↦ inl (Foreign-holds d before v held)
      ]
  Among-Asks P (close_sink t) r s b d asks v (m, before, e) h =
      elim (Among-Asks P t m s b d asks (Foreign-IsValid before v) e h) [
        | inr now ↦ inr now
        | inl held ↦ inl (Foreign-holds d before v held)
      ]
  Among-Asks P (heartbeat_timeout t) r s b d asks v (m, before, e) h =
      let u = Foreign-IsValid before v in
      let kept = count_timeout-Keeps m in
      elim (Among-Asks P t _ s b d asks (Keeps-IsValid m _ kept u) e h) [
        | inr now ↦ inr now
        | inl held ↦ inl (Foreign-holds d before v (sym (Keeps-holds m _ id d kept) ∙ held))
      ]

module _ {Tx : Type 0} ⦃mpsc : Mpsc Tx⦄ {IoError WsError RawValue Value : Type 0}
    (services : Services IoError WsError RawValue Value) (claims : Claims Value) where
  -- In a valid registry, where any other connections, publishers and the accept loop make any
  -- calls before, between and after those of a session, but none subscribes for its connection:
  -- what the connection holds at the end it held before, or the channel is short enough and let
  -- through by the authorizer. Ids are taken not to run out.
  pub session-Among :
      (id : ConnectionId) (events : List (Event WsError)) (at : Session) (r s : Registry Tx)
      (b : Session × Flow IoError WsError) (d : String)
      → IsValid r
      → Among
          (Foreign services.config.max_subscriptions services.config.send_queue id)
          id
          services.config.max_subscriptions
          (session services claims events at)
          r
          s
          b
      → holds s id d ≡ true
      → (holds r id d ≡ true) ⊎ Permitted services claims d
  session-Among id events at r s b d v e h =
      Among-Asks services.config.max_subscriptions services.config.send_queue id
        (Permitted services claims) (session services claims events at) r s b d
        (session-Asks services claims events at) v e h
