-- ===== src/Server/Task/Asks.antt =====
-- What the calls of a task in src/server.rs may ask for, whatever the registry answers.
use ws_fanout.Prelude.{
  ℕ, ◌≡◌, Bool, true, String, List, [], ◌∷◌, arith, ◌==◌, All, Bool-cases, inl, inr, ◌⊎◌, ◌∙◌, sym,
  nat_eq, string_eq, ==_iff,
}
use mathlib.Core.Path.{subst}
use ws_fanout.Collections.HashSet
use ws_fanout.Mpsc.{Mpsc}
use ws_fanout.Registry.{Registry, ConnectionId}
use ws_fanout.Registry
use ws_fanout.Registry.Deliveries
use ws_fanout.Registry.Counters.{count_timeout}
use ws_fanout.Registry.Invariant.{IsValid, subscribe-IsValid, unsubscribe-IsValid}
use ws_fanout.Registry.Keeps.{send-Keeps, count_timeout-Keeps, Keeps-IsValid, Keeps-holds}
use ws_fanout.Registry.Subscriptions.{holds, subscribe-holds, subscribe-added, unsubscribe-holds}
use ws_fanout.Server.Task.{
  Task, ret, subscribe, unsubscribe, send, drops, heartbeat_timeout, close_sink, ◌>>=◌, run,
}

-- Every `subscribe` of the task is for channels of which `P` holds.
abbrev pub Asks : (String → Type 0) → {A : Type 0} → Task A → Type 0
Asks P (ret a) = Unit {0}
Asks P (subscribe chs k) = All P chs × ((x : List String × List String) → Asks P (k x))
Asks P (unsubscribe chs k) = (x : List String) → Asks P (k x)
Asks P (send frame k) = (x : Bool) → Asks P (k x)
Asks P (drops k) = (x : ℕ) → Asks P (k x)
Asks P (heartbeat_timeout t) = Asks P t
Asks P (close_sink t) = Asks P t

pub >>=-Asks :
    {A B : Type 0} (P : String → Type 0) (t : Task A) (f : A → Task B)
    → Asks P t
    → ((a : A) → Asks P (f a))
    → Asks P (t >>= f)
unfolding ◌>>=◌
>>=-Asks P (ret a) f h k = k a
>>=-Asks P (subscribe chs g) f h k = (h.0, λ x. >>=-Asks P (g x) f (h.1 x) k)
>>=-Asks P (unsubscribe chs g) f h k = λ x. >>=-Asks P (g x) f (h x) k
>>=-Asks P (send frame g) f h k = λ x. >>=-Asks P (g x) f (h x) k
>>=-Asks P (drops g) f h k = λ x. >>=-Asks P (g x) f (h x) k
>>=-Asks P (heartbeat_timeout t) f h k = >>=-Asks P t f h k
>>=-Asks P (close_sink t) f h k = >>=-Asks P t f h k

pub All-contains :
    (P : String → Type 0) (d : String) (chs : List String)
    → All P chs
    → HashSet.contains d chs ≡ true
    → P d
unfolding HashSet.contains
All-contains P d [] h e = absurd (ground arith)
All-contains P d (ch ∷ chs) h e = elim (Bool-cases (ch == d)) [
  | inl same ↦ subst P ((==_iff ch d).0 same) h.0
  | inr other ↦ All-contains P d chs h.1 (ground arith)
]

module _ {Tx : Type 0} ⦃mpsc : Mpsc Tx⦄ (id : ConnectionId) (max : ℕ) where
  -- What a connection holds after the task it held before, or it is the task's own and `P` holds of
  -- the channel.
  pub run-Asks :
      {A : Type 0} (P : String → Type 0) (t : Task A) (r : Registry Tx) (j : ConnectionId)
      (d : String)
      → Asks P t
      → IsValid r
      → holds (run id max t r).0 j d ≡ true
      → (holds r j d ≡ true) ⊎ ((j ≡ id) × P d)
  unfolding run
  run-Asks P (ret a) r j d asks v h = inl h
  run-Asks P (subscribe chs k) r j d asks v h =
      let r' = (Registry.subscribe r id chs max).0 in
      let v' = subscribe-IsValid r id chs max v in
      elim (run-Asks P (k _) r' j d (asks.1 _) v' h) [
        | inl before ↦ elim (Bool-cases (holds r j d)) [
          | inl old ↦ inl old
          | inr new ↦ inr (
            ground (arith, before, new, subscribe-holds r id j chs max d v),
            All-contains P d chs asks.0 (
                ground (
                  arith,
                  before,
                  new,
                  subscribe-holds r id j chs max d v,
                  subscribe-added r id chs max v d,
                )),
          )
        ]
        | inr now ↦ inr now
      ]
  run-Asks P (unsubscribe chs k) r j d asks v h =
      let r' = (Registry.unsubscribe r id chs).0 in
      elim (run-Asks P (k _) r' j d (asks _) (unsubscribe-IsValid r id chs v) h) [
        | inl before ↦ inl (ground (arith, before, unsubscribe-holds r id j chs d))
        | inr now ↦ inr now
      ]
  run-Asks P (send frame k) r j d asks v h =
      let r' = (Deliveries.send r id frame).0 in
      let kept = send-Keeps r id frame in
      elim (run-Asks P (k _) r' j d (asks _) (Keeps-IsValid r r' kept v) h) [
        | inl before ↦ inl (sym (Keeps-holds r r' j d kept) ∙ before)
        | inr now ↦ inr now
      ]
  run-Asks P (drops k) r j d asks v h = run-Asks P (k _) r j d (asks _) v h
  run-Asks P (close_sink t) r j d asks v h = run-Asks P t r j d asks v h
  run-Asks P (heartbeat_timeout t) r j d asks v h =
      let kept = count_timeout-Keeps r in
      elim (run-Asks P t (count_timeout r) j d asks (Keeps-IsValid r (count_timeout r) kept v) h) [
        | inl before ↦ inl (sym (Keeps-holds r (count_timeout r) j d kept) ∙ before)
        | inr now ↦ inr now
      ]
