-- ===== src/Server/Task.antt =====
-- What a connection's task in src/server.rs does to the shared registry, as a sequence of calls on
-- it. Each call takes the registry's lock for itself, so other tasks may run between two of them:
-- `run` is the task alone, `Among` and `Exec` the task among others.
pub mod Asks
pub mod Runs
pub mod Own
pub mod Apart
pub mod Yields
use ws_fanout.Prelude.{
  ℕ, suc, ◌+◌, ◌-◌, ◌*◌, ◌%◌, ◌≤◌, ◌<◌, ◌≡◌, ◌≢◌, ◌↔◌, refl, Bool, true, false, ◌||◌, ◌&&◌, not,
  Option, none, some, String, List, [], ◌∷◌, ◌++◌, map, foldl, arith, Eq, ◌==◌, leb, ltb,
  if◌then◌else◌, length, is_empty, All, Bool-cases, Option-cases, inl, inr, ◌⊎◌, ◌∙◌, ap, sym,
  nat_eq, string_eq, wrapping_add, wrapping_sub, u64_mod, wrapping_add_exact, wrapping_add-lt,
  ==_refl, ==_iff, ==_comm, Result, ok, err, Result-cases, filter_b, filter_b-All, All-filter_b,
  partition, Bool-ext, All-append, length-append,
}
use ws_fanout.Protocol.{Frame}
use ws_fanout.Mpsc.{Mpsc}
use ws_fanout.Registry.{Registry, Metrics, ConnectionId}
use ws_fanout.Registry
use ws_fanout.Registry.Deliveries
use ws_fanout.Registry.Counters.{count_timeout}
use ws_fanout.Registry.Reach.{
  Step, Steps, stay, next, subscribes, unsubscribes, sends, times_out, Steps-trans,
}

-- A program over the calls that the session makes for its own connection.
pub data Task (A : Type 0) : Type 0 where
  ret : A → Task A
  subscribe : List String → (List String × List String → Task A) → Task A
  unsubscribe : List String → (List String → Task A) → Task A
  send : Frame → (Bool → Task A) → Task A
  drops : (ℕ → Task A) → Task A
  heartbeat_timeout : Task A → Task A
  -- `sink.close().await`, which nothing bounds.
  close_sink : Task A → Task A

infixl 5 ◌>>=◌ ◌>>◌
unfoldable pub ◌>>=◌ : {A B : Type 0} → Task A → (A → Task B) → Task B
ret a >>= f = f a
subscribe chs k >>= f = subscribe chs (λ x. k x >>= f)
unsubscribe chs k >>= f = unsubscribe chs (λ x. k x >>= f)
send frame k >>= f = send frame (λ x. k x >>= f)
drops k >>= f = drops (λ x. k x >>= f)
heartbeat_timeout t >>= f = heartbeat_timeout (t >>= f)
close_sink t >>= f = close_sink (t >>= f)

unfoldable pub ◌>>◌ : {B : Type 0} → Task (Unit {0}) → Task B → Task B
unfolding ◌>>=◌
m >> k = m >>= λ _. k

abbrev pub subscribing : List String → Task (List String × List String)
subscribing chs = subscribe chs ret

abbrev pub unsubscribing : List String → Task (List String)
unsubscribing chs = unsubscribe chs ret

abbrev pub sending : Frame → Task (Unit {0})
sending frame = send frame (λ _. ret tt)

abbrev pub reading_drops : Task ℕ
reading_drops = drops ret

abbrev pub counting_timeout : Task (Unit {0})
counting_timeout = heartbeat_timeout (ret tt)

abbrev pub closing : Task (Unit {0})
closing = close_sink (ret tt)

module _ {Tx : Type 0} ⦃mpsc : Mpsc Tx⦄ (id : ConnectionId) (max : ℕ) where
  -- The task with nothing in between, each of its waits over at once.
  unfoldable pub run : {A : Type 0} → Task A → Registry Tx → Registry Tx × A
  run (ret a) r = (r, a)
  run (subscribe chs k) r =
      let (r', added, over) = Registry.subscribe r id chs max in run (k (added, over)) r'
  run (unsubscribe chs k) r =
      let (r', removed) = Registry.unsubscribe r id chs in run (k removed) r'
  run (send frame k) r = let (r', received) = Deliveries.send r id frame in run (k received) r'
  run (drops k) r = run (k (Registry.drops r id)) r
  run (heartbeat_timeout t) r = run t (count_timeout r)
  run (close_sink t) r = run t r

module _ {Tx : Type 0} ⦃mpsc : Mpsc Tx⦄ (Others : Registry Tx → Registry Tx → Type 0)
    (id : ConnectionId) (max : ℕ) where
  -- The task from `r` with result `b` in `s`, where others may act before each of its calls and after
  -- the last.
  abbrev pub Among : {A : Type 0} → Task A → Registry Tx → Registry Tx → A → Type 0
  Among (ret a) r s b = Others r s × (a ≡ b)
  Among (subscribe chs k) r s b =
      (m : Registry Tx) × Others r m
      × Among (k ((Registry.subscribe m id chs max).1, (Registry.subscribe m id chs max).2))
          (Registry.subscribe m id chs max).0 s b
  Among (unsubscribe chs k) r s b =
      (m : Registry Tx) × Others r m
      × Among (k (Registry.unsubscribe m id chs).1) (Registry.unsubscribe m id chs).0 s b
  Among (send frame k) r s b =
      (m : Registry Tx) × Others r m
      × Among (k (Deliveries.send m id frame).1) (Deliveries.send m id frame).0 s b
  Among (drops k) r s b = (m : Registry Tx) × Others r m × Among (k (Registry.drops m id)) m s b
  Among (heartbeat_timeout t) r s b = (m : Registry Tx) × Others r m × Among t (count_timeout m) s b
  Among (close_sink t) r s b = (m : Registry Tx) × Others r m × Among t m s b

module _ {Tx : Type 0} ⦃mpsc : Mpsc Tx⦄ (id : ConnectionId) (max cap : ℕ) where
  -- The task among others that may take any steps.
  abbrev pub Exec : {A : Type 0} → Task A → Registry Tx → Registry Tx → A → Type 0
  Exec = Among (Steps max cap) id max

  -- Whatever happens in between, the task and the others together take steps of the registry.
  pub Exec-Steps :
      {A : Type 0} (t : Task A) (r s : Registry Tx) (b : A) → Exec t r s b → Steps max cap r s
  Exec-Steps (ret a) r s b e = e.0
  Exec-Steps (subscribe chs k) r s b (m, before, e) =
      Steps-trans max cap (next before (subscribes id chs)) (Exec-Steps (k _) _ s b e)
  Exec-Steps (unsubscribe chs k) r s b (m, before, e) =
      Steps-trans max cap (next before (unsubscribes id chs)) (Exec-Steps (k _) _ s b e)
  Exec-Steps (send frame k) r s b (m, before, e) =
      Steps-trans max cap (next before (sends id frame)) (Exec-Steps (k _) _ s b e)
  Exec-Steps (drops k) r s b (m, before, e) = Steps-trans max cap before (Exec-Steps (k _) m s b e)
  Exec-Steps (heartbeat_timeout t) r s b (m, before, e) =
      Steps-trans max cap (next before times_out) (Exec-Steps t (count_timeout m) s b e)
  Exec-Steps (close_sink t) r s b (m, before, e) = Steps-trans max cap before (Exec-Steps t m s b e)

module _ {Tx : Type 0} ⦃mpsc : Mpsc Tx⦄ (Others : Registry Tx → Registry Tx → Type 0)
    (idle : (r : Registry Tx) → Others r r) (id : ConnectionId) (max : ℕ) where
  -- The task alone is one of its executions.
  pub run-Among :
      {A : Type 0} (t : Task A) (r : Registry Tx)
      → Among Others id max t r (run id max t r).0 (run id max t r).1
  unfolding run
  run-Among (ret a) r = (idle r, refl)
  run-Among (subscribe chs k) r = (r, idle r, run-Among (k _) (Registry.subscribe r id chs max).0)
  run-Among (unsubscribe chs k) r = (r, idle r, run-Among (k _) (Registry.unsubscribe r id chs).0)
  run-Among (send frame k) r = (r, idle r, run-Among (k _) (Deliveries.send r id frame).0)
  run-Among (drops k) r = (r, idle r, run-Among (k (Registry.drops r id)) r)
  run-Among (heartbeat_timeout t) r = (r, idle r, run-Among t (count_timeout r))
  run-Among (close_sink t) r = (r, idle r, run-Among t r)

module _ {Tx : Type 0} ⦃mpsc : Mpsc Tx⦄ (id : ConnectionId) (max cap : ℕ) where
  pub run-Exec :
      {A : Type 0} (t : Task A) (r : Registry Tx)
      → Exec id max cap t r (run id max t r).0 (run id max t r).1
  run-Exec t r = run-Among (Steps max cap) (λ s. stay) id max t r
