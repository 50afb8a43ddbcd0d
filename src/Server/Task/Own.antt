-- ===== src/Server/Task/Own.antt =====
-- What a task of src/server.rs does to connections other than its own.
use ws_fanout.Prelude.{
  ℕ, ◌≡◌, refl, Bool, false, some, String, List, foldl, arith, ◌==◌, length, Option-cases, inl, inr,
  ◌∙◌, nat_eq, string_eq,
}
use ws_fanout.Collections.HashMap
use ws_fanout.Collections.HashMap.{HashMap}
use ws_fanout.Collections.Keys.{is_some}
use ws_fanout.Mpsc.{Mpsc}
use ws_fanout.Registry.{Registry, Connection, ConnectionId, admit, admission, withdraw, withdrawal}
use ws_fanout.Registry.Deliveries.{deliver}
use ws_fanout.Registry
use ws_fanout.Registry.Deliveries
use ws_fanout.Registry.Counters.{count_timeout}
use ws_fanout.Registry.Invariant.{IsValid, subscribe-IsValid, unsubscribe-IsValid}
use ws_fanout.Registry.Keeps.{
  send-Keeps, count_timeout-Keeps, Keeps-IsValid, Keeps-holds, Keeps, set_of,
}
use ws_fanout.Registry.Subscriptions.{holds, subscribe-holds, unsubscribe-holds}
use ws_fanout.Server.Task.{
  Task, ret, subscribe, unsubscribe, send, drops, heartbeat_timeout, close_sink, run,
}

-- Whether the connection is open.
abbrev pub open_at : {Tx : Type 0} → Registry Tx → ConnectionId → Bool
open_at r j = is_some (HashMap.get j r.connections)

-- From `r` to `s` nothing happened to connections other than `id`, and none came or went.
pub record Own {Tx : Type 0} (id : ConnectionId) (r s : Registry Tx) : Type 0 where
  pub valid : IsValid s
  pub present : (j : ConnectionId) → open_at s j ≡ open_at r j
  pub size : length s.connections ≡ length r.connections
  pub others : (j : ConnectionId) (d : String) → (id == j) ≡ false → holds s j d ≡ holds r j d

module _ {Tx : Type 0} (id : ConnectionId) where
  pub Own-refl : (r : Registry Tx) → IsValid r → Own id r r
  Own-refl r v = record { valid = v; present = λ j. refl; size = refl; others = λ j d h. refl }

  pub Own-trans : (r s t : Registry Tx) → Own id r s → Own id s t → Own id r t
  Own-trans r s t h k = record {
    valid = k.valid;
    present = λ j. k.present j ∙ h.present j;
    size = k.size ∙ h.size;
    others = λ j d o. k.others j d o ∙ h.others j d o;
  }

  pub Keeps-Own : (r s : Registry Tx) → Keeps r s → IsValid r → Own id r s
  unfolding set_of
  Keeps-Own r s k v = record {
    valid = Keeps-IsValid r s k v;
    present = λ j. ground (arith, k.sets j);
    size = k.size;
    others = λ j d h. Keeps-holds r s j d k;
  }

  -- One entry is written over.
  insert-present :
      (m : HashMap ConnectionId (Connection Tx)) (c c' : Connection Tx) (j : ConnectionId)
      → HashMap.get id m ≡ some c
      → is_some (HashMap.get j (HashMap.insert id c' m)) ≡ is_some (HashMap.get j m)
  insert-present m c c' j e = ground (arith, HashMap.get-insert id j c' m)

  pub subscribe-Own :
      (r : Registry Tx) (chs : List String) (max : ℕ)
      → IsValid r
      → Own id r (Registry.subscribe r id chs max).0
  unfolding Registry.subscribe
  subscribe-Own r chs max v = elim (Option-cases (HashMap.get id r.connections)) [
    | inl e ↦ rw (e, Registry.subscribe) (Own-refl r v)
    | inr (c, e) ↦
        let a = foldl (admit max) (admission c.subscriptions) chs in
        let c' = record c { subscriptions = a.subscriptions } in
        record {
          valid = subscribe-IsValid r id chs max v;
          present = λ j. ground (arith, e, insert-present r.connections c c' j);
          size = ground (arith, e, HashMap.length-insert_old id c' c r.connections);
          others = λ j d h. ground (arith, subscribe-holds r id j chs max d v);
        }
  ]

  pub unsubscribe-Own :
      (r : Registry Tx) (chs : List String) → IsValid r → Own id r (Registry.unsubscribe r id chs).0
  unfolding Registry.unsubscribe
  unsubscribe-Own r chs v = elim (Option-cases (HashMap.get id r.connections)) [
    | inl e ↦ rw (e, Registry.unsubscribe) (Own-refl r v)
    | inr (c, e) ↦
        let w = foldl withdraw (withdrawal c.subscriptions) chs in
        let c' = record c { subscriptions = w.subscriptions } in
        record {
          valid = unsubscribe-IsValid r id chs v;
          present = λ j. ground (arith, e, insert-present r.connections c c' j);
          size = ground (arith, e, HashMap.length-insert_old id c' c r.connections);
          others = λ j d h. ground (arith, unsubscribe-holds r id j chs d);
        }
  ]

  -- In a valid registry, a connection's task that runs with no other task in between leaves the
  -- registry valid, adds and removes no connection, and leaves every other connection's channels
  -- as they were.
  pub run-Own :
      ⦃mpsc : Mpsc Tx⦄ {A : Type 0} (max : ℕ) (t : Task A) (r : Registry Tx)
      → IsValid r
      → Own id r (run id max t r).0
  unfolding run
  run-Own max (ret a) r v = Own-refl r v
  run-Own max (subscribe chs k) r v =
      let own = subscribe-Own r chs max v in
      Own-trans r _ _ own (run-Own max (k _) (Registry.subscribe r id chs max).0 own.valid)
  run-Own max (unsubscribe chs k) r v =
      let own = unsubscribe-Own r chs v in
      Own-trans r _ _ own (run-Own max (k _) (Registry.unsubscribe r id chs).0 own.valid)
  run-Own max (send frame k) r v =
      let own = Keeps-Own r (Deliveries.send r id frame).0 (send-Keeps r id frame) v in
      Own-trans r _ _ own (run-Own max (k _) (Deliveries.send r id frame).0 own.valid)
  run-Own max (drops k) r v = run-Own max (k _) r v
  run-Own max (close_sink t) r v = run-Own max t r v
  run-Own max (heartbeat_timeout t) r v =
      let own = Keeps-Own r (count_timeout r) (count_timeout-Keeps r) v in
      Own-trans r _ _ own (run-Own max t (count_timeout r) own.valid)
