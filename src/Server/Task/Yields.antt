-- ===== src/Server/Task/Yields.antt =====
-- What a task of src/server.rs may come to, whatever the registry answers, and its connection's queue
-- meanwhile.
use ws_fanout.Prelude.{ℕ, Bool, String, List, nat_eq, string_eq}
use mathlib.Core.Path.{subst}
use ws_fanout.Mpsc.{Mpsc}
use ws_fanout.Registry.{Registry, ConnectionId}
use ws_fanout.Registry.Calls.{Call, subscribing, unsubscribing, sending, timing_out, perform}
use ws_fanout.Registry.Invariant.{IsValid, subscribe-IsValid, unsubscribe-IsValid}
use ws_fanout.Registry.Keeps.{Keeps-IsValid, send-Keeps, count_timeout-Keeps}
use ws_fanout.Registry.Stream.{
  Extends, Extends-trans, LeavesQueue, queue_of, perform-Extends, Undisturbed, Undisturbed-IsValid,
  Undisturbed-Extends,
}
use ws_fanout.Server.Task.{
  Task, ret, subscribe, unsubscribe, send, drops, heartbeat_timeout, close_sink, ◌>>=◌, Among,
}

-- Every result of the task has the property.
abbrev pub Yields : {A : Type 0} → (A → Type 0) → Task A → Type 0
Yields P (ret a) = P a
Yields P (subscribe chs k) = (x : List String × List String) → Yields P (k x)
Yields P (unsubscribe chs k) = (x : List String) → Yields P (k x)
Yields P (send frame k) = (x : Bool) → Yields P (k x)
Yields P (drops k) = (x : ℕ) → Yields P (k x)
Yields P (heartbeat_timeout t) = Yields P t
Yields P (close_sink t) = Yields P t

pub >>=-Yields :
    {A B : Type 0} (P : A → Type 0) (Q : B → Type 0) (t : Task A) (f : A → Task B)
    → Yields P t
    → ((a : A) → P a → Yields Q (f a))
    → Yields Q (t >>= f)
unfolding ◌>>=◌
>>=-Yields P Q (ret a) f h k = k a h
>>=-Yields P Q (subscribe chs g) f h k = λ x. >>=-Yields P Q (g x) f (h x) k
>>=-Yields P Q (unsubscribe chs g) f h k = λ x. >>=-Yields P Q (g x) f (h x) k
>>=-Yields P Q (send frame g) f h k = λ x. >>=-Yields P Q (g x) f (h x) k
>>=-Yields P Q (drops g) f h k = λ x. >>=-Yields P Q (g x) f (h x) k
>>=-Yields P Q (heartbeat_timeout t) f h k = >>=-Yields P Q t f h k
>>=-Yields P Q (close_sink t) f h k = >>=-Yields P Q t f h k

pub Yields-all : {A : Type 0} (P : A → Type 0) (t : Task A) → ((a : A) → P a) → Yields P t
Yields-all P (ret a) h = h a
Yields-all P (subscribe chs k) h = λ x. Yields-all P (k x) h
Yields-all P (unsubscribe chs k) h = λ x. Yields-all P (k x) h
Yields-all P (send frame k) h = λ x. Yields-all P (k x) h
Yields-all P (drops k) h = λ x. Yields-all P (k x) h
Yields-all P (heartbeat_timeout t) h = Yields-all P t h
Yields-all P (close_sink t) h = Yields-all P t h

-- Every result of the task has the property, where what it reads of the streak of drops has `R`.
abbrev pub YieldsWhere : {A : Type 0} → (ℕ → Type 0) → (A → Type 0) → Task A → Type 0
YieldsWhere R P (ret a) = P a
YieldsWhere R P (subscribe chs k) = (x : List String × List String) → YieldsWhere R P (k x)
YieldsWhere R P (unsubscribe chs k) = (x : List String) → YieldsWhere R P (k x)
YieldsWhere R P (send frame k) = (x : Bool) → YieldsWhere R P (k x)
YieldsWhere R P (drops k) = (x : ℕ) → R x → YieldsWhere R P (k x)
YieldsWhere R P (heartbeat_timeout t) = YieldsWhere R P t
YieldsWhere R P (close_sink t) = YieldsWhere R P t

pub Yields-Where :
    {A : Type 0} (R : ℕ → Type 0) (P : A → Type 0) (t : Task A) → Yields P t → YieldsWhere R P t
Yields-Where R P (ret a) h = h
Yields-Where R P (subscribe chs k) h = λ x. Yields-Where R P (k x) (h x)
Yields-Where R P (unsubscribe chs k) h = λ x. Yields-Where R P (k x) (h x)
Yields-Where R P (send frame k) h = λ x. Yields-Where R P (k x) (h x)
Yields-Where R P (drops k) h = λ x _. Yields-Where R P (k x) (h x)
Yields-Where R P (heartbeat_timeout t) h = Yields-Where R P t h
Yields-Where R P (close_sink t) h = Yields-Where R P t h

pub >>=-YieldsWhere :
    {A B : Type 0} (R : ℕ → Type 0) (P : A → Type 0) (Q : B → Type 0) (t : Task A) (f : A → Task B)
    → YieldsWhere R P t
    → ((a : A) → P a → YieldsWhere R Q (f a))
    → YieldsWhere R Q (t >>= f)
unfolding ◌>>=◌
>>=-YieldsWhere R P Q (ret a) f h k = k a h
>>=-YieldsWhere R P Q (subscribe chs g) f h k = λ x. >>=-YieldsWhere R P Q (g x) f (h x) k
>>=-YieldsWhere R P Q (unsubscribe chs g) f h k = λ x. >>=-YieldsWhere R P Q (g x) f (h x) k
>>=-YieldsWhere R P Q (send frame g) f h k = λ x. >>=-YieldsWhere R P Q (g x) f (h x) k
>>=-YieldsWhere R P Q (drops g) f h k = λ x r. >>=-YieldsWhere R P Q (g x) f (h x r) k
>>=-YieldsWhere R P Q (heartbeat_timeout t) f h k = >>=-YieldsWhere R P Q t f h k
>>=-YieldsWhere R P Q (close_sink t) f h k = >>=-YieldsWhere R P Q t f h k

module _ {Tx : Type 0} ⦃mpsc : Mpsc Tx⦄ (id : ConnectionId) (max : ℕ) where
  pub Among-Yields :
      {A : Type 0} (Others : Registry Tx → Registry Tx → Type 0) (P : A → Type 0) (t : Task A)
      (r s : Registry Tx) (b : A)
      → Yields P t
      → Among Others id max t r s b
      → P b
  Among-Yields Others P (ret a) r s b h (_, e) = subst P e h
  Among-Yields Others P (subscribe chs k) r s b h (m, _, e) =
      Among-Yields Others P (k _) _ s b (h _) e
  Among-Yields Others P (unsubscribe chs k) r s b h (m, _, e) =
      Among-Yields Others P (k _) _ s b (h _) e
  Among-Yields Others P (send frame k) r s b h (m, _, e) = Among-Yields Others P (k _) _ s b (h _) e
  Among-Yields Others P (drops k) r s b h (m, _, e) = Among-Yields Others P (k _) m s b (h _) e
  Among-Yields Others P (heartbeat_timeout t) r s b h (m, _, e) = Among-Yields Others P t _ s b h e
  Among-Yields Others P (close_sink t) r s b h (m, _, e) = Among-Yields Others P t m s b h e

module _ {Tx : Type 0} ⦃mpsc : Mpsc Tx⦄ (max cap : ℕ) (id : ConnectionId) where
  -- The registry stays valid, and the queue only gets longer.
  abbrev pub Onwards : Registry Tx → Registry Tx → Type 0
  Onwards r s = IsValid s × Extends (queue_of id r) (queue_of id s)

  Onwards-trans : (r m s : Registry Tx) → Onwards r m → Onwards m s → Onwards r s
  Onwards-trans r m s (_, p) (v, q) =
      (v, Extends-trans (queue_of id r) (queue_of id m) (queue_of id s) p q)

  others-Onwards : (r s : Registry Tx) → Undisturbed max cap id r s → IsValid r → Onwards r s
  others-Onwards r s o v = (Undisturbed-IsValid max cap id o v, Undisturbed-Extends max cap id o v)

  own-Onwards :
      (c : Call) (r m : Registry Tx)
      → LeavesQueue id c
      → IsValid (perform max cap c m)
      → Undisturbed max cap id r m
      → IsValid r
      → Onwards r (perform max cap c m)
  own-Onwards c r m q w o v =
      let before = others-Onwards r m o v in
      Onwards-trans r m (perform max cap c m) before (w, perform-Extends max cap id c m q before.0)

  pub Among-Onwards :
      {A : Type 0} (t : Task A) (r s : Registry Tx) (b : A)
      → IsValid r
      → Among (Undisturbed max cap id) id max t r s b
      → Onwards r s
  unfolding perform
  Among-Onwards (ret a) r s b v (o, _) = others-Onwards r s o v
  Among-Onwards (subscribe chs k) r s b v (m, o, e) =
      let x =
        own-Onwards (subscribing id chs) r m tt
          (subscribe-IsValid m id chs max (others-Onwards r m o v).0) o v in
      Onwards-trans r _ s x (Among-Onwards (k _) _ s b x.0 e)
  Among-Onwards (unsubscribe chs k) r s b v (m, o, e) =
      let x =
        own-Onwards (unsubscribing id chs) r m tt
          (unsubscribe-IsValid m id chs (others-Onwards r m o v).0) o v in
      Onwards-trans r _ s x (Among-Onwards (k _) _ s b x.0 e)
  Among-Onwards (send frame k) r s b v (m, o, e) =
      let x =
        own-Onwards (sending id frame) r m tt
          (Keeps-IsValid m _ (send-Keeps m id frame) (others-Onwards r m o v).0) o v in
      Onwards-trans r _ s x (Among-Onwards (k _) _ s b x.0 e)
  Among-Onwards (drops k) r s b v (m, o, e) =
      let x = others-Onwards r m o v in Onwards-trans r m s x (Among-Onwards (k _) m s b x.0 e)
  Among-Onwards (close_sink t) r s b v (m, o, e) =
      let x = others-Onwards r m o v in Onwards-trans r m s x (Among-Onwards t m s b x.0 e)
  Among-Onwards (heartbeat_timeout t) r s b v (m, o, e) =
      let x =
        own-Onwards timing_out r m tt
          (Keeps-IsValid m _ (count_timeout-Keeps m) (others-Onwards r m o v).0) o v in
      Onwards-trans r _ s x (Among-Onwards t _ s b x.0 e)
