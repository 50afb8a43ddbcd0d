-- ===== src/Server/Task/Apart.antt =====
-- A task of src/server.rs among others, and the others' calls without it.
use ws_fanout.Prelude.{
  ℕ, ◌≡◌, refl, true, false, Option, arith, ◌==◌, ◌∙◌, ap, sym, nat_eq, string_eq, ==_refl, ==_iff,
}
use mathlib.Core.Path.{subst}
use ws_fanout.Collections.HashMap
use ws_fanout.Mpsc.{Mpsc}
use ws_fanout.Registry.{Registry, Connection, ConnectionId}
use ws_fanout.Registry.Calls.{
  Call, join, leave, subscribing, unsubscribing, publishing, broadcasting, sending, receiving,
  hanging_up, timing_out, refusing, perform, ids_after, entry_after,
}
use ws_fanout.Registry.Calls.Entries.{
  perform-get, perform-ids, call_of, perform-call_of, call_of-IsValid,
}
use ws_fanout.Registry.Invariant.{IsValid, subscribe-IsValid, unsubscribe-IsValid}
use ws_fanout.Registry.Keeps.{Keeps-IsValid, send-Keeps, count_timeout-Keeps}
use ws_fanout.Registry.Reach.{Step, Steps, stay, next, Step-IsValid}
use ws_fanout.Server.Task.{
  Task, ret, subscribe, unsubscribe, send, drops, heartbeat_timeout, close_sink, Exec,
}

-- The two registries differ at most in the connection `id`.
pub record Same {Tx : Type 0} (id : ConnectionId) (r r' : Registry Tx) : Type 0 where
  pub ids : r'.next_id ≡ r.next_id
  pub others :
      (j : ConnectionId)
      → (id == j) ≡ false
      → HashMap.get j r.connections ≡ HashMap.get j r'.connections

-- The call does nothing to connections other than `id`.
abbrev pub IsOwn : ConnectionId → Call → Type 0
IsOwn id (join subject) = ⊥
IsOwn id (leave j) = (id == j) ≡ true
IsOwn id (subscribing j chs) = (id == j) ≡ true
IsOwn id (unsubscribing j chs) = (id == j) ≡ true
IsOwn id (publishing ch f) = ⊥
IsOwn id (broadcasting f) = ⊥
IsOwn id (sending j f) = (id == j) ≡ true
IsOwn id (receiving j) = (id == j) ≡ true
IsOwn id (hanging_up j) = (id == j) ≡ true
IsOwn id timing_out = Unit {0}
IsOwn id refusing = Unit {0}

own-ids : (id : ConnectionId) (c : Call) (n : ℕ) → IsOwn id c → ids_after c n ≡ n
unfolding ids_after
own-ids id (join subject) n own = elim own [ ]
own-ids id (leave j) n own = refl
own-ids id (subscribing j chs) n own = refl
own-ids id (unsubscribing j chs) n own = refl
own-ids id (publishing ch f) n own = refl
own-ids id (broadcasting f) n own = refl
own-ids id (sending j f) n own = refl
own-ids id (receiving j) n own = refl
own-ids id (hanging_up j) n own = refl
own-ids id timing_out n own = refl
own-ids id refusing n own = refl

module _ {Tx : Type 0} ⦃mpsc : Mpsc Tx⦄ (max cap : ℕ) where
  own-entry :
      (id : ConnectionId) (c : Call) (n : ℕ) (k : ConnectionId) (o : Option (Connection Tx))
      → IsOwn id c
      → (id == k) ≡ false
      → entry_after max cap c n k o ≡ o
  unfolding entry_after
  own-entry id (join subject) n k o own h = elim own [ ]
  own-entry id (leave j) n k o own h = ground (arith, own, h, ==_iff id j)
  own-entry id (subscribing j chs) n k o own h = ground (arith, own, h, ==_iff id j)
  own-entry id (unsubscribing j chs) n k o own h = ground (arith, own, h, ==_iff id j)
  own-entry id (publishing ch f) n k o own h = elim own [ ]
  own-entry id (broadcasting f) n k o own h = elim own [ ]
  own-entry id (sending j f) n k o own h = ground (arith, own, h, ==_iff id j)
  own-entry id (receiving j) n k o own h = ground (arith, own, h, ==_iff id j)
  own-entry id (hanging_up j) n k o own h = ground (arith, own, h, ==_iff id j)
  own-entry id timing_out n k o own h = refl
  own-entry id refusing n k o own h = refl

  Same-own :
      (id : ConnectionId) (c : Call) (r r' : Registry Tx)
      → IsOwn id c
      → IsValid r
      → Same id r r'
      → Same id (perform max cap c r) r'
  Same-own id c r r' own v same = record {
    ids = same.ids ∙ sym (own-ids id c r.next_id own) ∙ sym (perform-ids max cap c r);
    others = λ j h.
        perform-get max cap c r j v
        ∙ (own-entry id c r.next_id j (HashMap.get j r.connections) own h)
        ∙ same.others j h;
  }

  Same-both :
      (id : ConnectionId) (c : Call) (r r' : Registry Tx)
      → IsValid r
      → IsValid r'
      → Same id r r'
      → Same id (perform max cap c r) (perform max cap c r')
  Same-both id c r r' v v' same = record {
    ids = perform-ids max cap c r' ∙ ap (ids_after c) same.ids ∙ sym (perform-ids max cap c r);
    others = λ j h.
        perform-get max cap c r j v
        ∙ ap (entry_after max cap c r.next_id j) (same.others j h)
        ∙ ap (λ n. entry_after max cap c n j (HashMap.get j r'.connections)) (sym same.ids)
        ∙ sym (perform-get max cap c r' j v');
  }

  -- The others' calls, from another registry.
  unfoldable pub replay : {r s : Registry Tx} → Steps max cap r s → Registry Tx → Registry Tx
  replay stay x = x
  replay (next before st) x = perform max cap (call_of max cap st) (replay before x)

  module _ (id : ConnectionId) where
    -- Both are valid, and they differ at most in the connection.
    pub record Apart (r r' : Registry Tx) : Type 0 where
      pub valid : IsValid r
      pub valid_alone : IsValid r'
      pub same : Same id r r'

    pub own-Apart :
        (c : Call) (r s r' : Registry Tx)
        → IsOwn id c
        → s ≡ perform max cap c r
        → IsValid s
        → Apart r r'
        → Apart s r'
    own-Apart c r s r' own e v a = record {
      valid = v;
      valid_alone = a.valid_alone;
      same = subst (λ x. Same id x r') (sym e) (Same-own id c r r' own a.valid a.same);
    }

    Step-Apart :
        {r s : Registry Tx} (st : Step max cap r s) (r' : Registry Tx)
        → Apart r r'
        → Apart s (perform max cap (call_of max cap st) r')
    Step-Apart {r} st r' a = record {
      valid = Step-IsValid max cap st a.valid;
      valid_alone = call_of-IsValid max cap st r' a.same.ids a.valid_alone;
      same =
          subst (λ x. Same id x (perform max cap (call_of max cap st) r'))
            (perform-call_of max cap st)
            (Same-both id (call_of max cap st) r r' a.valid a.valid_alone a.same);
    }

    pub replay-Apart :
        {r s : Registry Tx} (steps : Steps max cap r s) (r' : Registry Tx)
        → Apart r r'
        → Apart s (replay steps r')
    unfolding replay
    replay-Apart stay r' a = a
    replay-Apart (next before st) r' a = Step-Apart st (replay before r') (replay-Apart before r' a)

    -- The others' calls in an execution of a task, from another registry.
    unfoldable pub others :
        {A : Type 0} (t : Task A) (r s : Registry Tx) (b : A)
        → Exec id max cap t r s b
        → Registry Tx
        → Registry Tx
    unfolding replay
    others (ret a) r s b (steps, _) x = replay steps x
    others (subscribe chs k) r s b (m, before, e) x = others (k _) _ s b e (replay before x)
    others (unsubscribe chs k) r s b (m, before, e) x = others (k _) _ s b e (replay before x)
    others (send frame k) r s b (m, before, e) x = others (k _) _ s b e (replay before x)
    others (drops k) r s b (m, before, e) x = others (k _) m s b e (replay before x)
    others (close_sink t) r s b (m, before, e) x = others t m s b e (replay before x)
    others (heartbeat_timeout t) r s b (m, before, e) x = others t _ s b e (replay before x)

    pub others-Apart :
        {A : Type 0} (t : Task A) (r s : Registry Tx) (b : A) (e : Exec id max cap t r s b)
        (r' : Registry Tx)
        → Apart r r'
        → Apart s (others t r s b e r')
    unfolding others perform
    others-Apart (ret a) r s b (steps, _) r' p = replay-Apart steps r' p
    others-Apart (subscribe chs k) r s b (m, before, e) r' p =
        let q = replay-Apart before r' p in
        others-Apart (k _) _ s b e (replay before r') (
          own-Apart (subscribing id chs) m _ (replay before r') (==_refl id) refl
            (subscribe-IsValid m id chs max q.valid) q)
    others-Apart (unsubscribe chs k) r s b (m, before, e) r' p =
        let q = replay-Apart before r' p in
        others-Apart (k _) _ s b e (replay before r') (
          own-Apart (unsubscribing id chs) m _ (replay before r') (==_refl id) refl
            (unsubscribe-IsValid m id chs q.valid) q)
    others-Apart (send frame k) r s b (m, before, e) r' p =
        let q = replay-Apart before r' p in
        others-Apart (k _) _ s b e (replay before r') (
          own-Apart (sending id frame) m _ (replay before r') (==_refl id) refl
            (Keeps-IsValid m _ (send-Keeps m id frame) q.valid) q)
    others-Apart (drops k) r s b (m, before, e) r' p =
        others-Apart (k _) m s b e (replay before r') (replay-Apart before r' p)
    others-Apart (close_sink t) r s b (m, before, e) r' p =
        others-Apart t m s b e (replay before r') (replay-Apart before r' p)
    others-Apart (heartbeat_timeout t) r s b (m, before, e) r' p =
        let q = replay-Apart before r' p in
        others-Apart t _ s b e (replay before r') (
          own-Apart timing_out m _ (replay before r') tt refl
            (Keeps-IsValid m _ (count_timeout-Keeps m) q.valid) q)
