-- ===== src/Server/Serve/Slots.antt =====
-- The permits of src/server.rs's `serve` against the tasks that hold them.
use ws_fanout.Prelude.{
  ltb→lt, ℕ, ◌+◌, ◌≤◌, ◌<◌, ◌≡◌, refl, arith, ltb, length, Bool-cases, inl, inr, ◌⊎◌, nat_eq,
  string_eq,
}
use ws_fanout.Mpsc.{Mpsc}
use ws_fanout.Registry.{Registry, ConnectionId, no_metrics}
use ws_fanout.Registry
use ws_fanout.Registry.Counters.{count_refused}
use ws_fanout.Registry.Receiver.{with_tx}
use ws_fanout.Registry.Receiver.Keeps.{with_tx-Keeps, receive-with_tx, hang_up-Keeps}
use ws_fanout.Registry.Invariant.{IsValid, new-IsValid, add-IsValid, remove-IsValid}
use ws_fanout.Registry.Keeps.{
  Keeps, Keeps-IsValid, send-Keeps, publish-Keeps, broadcast-Keeps, count_timeout-Keeps,
  count_refused-Keeps,
}
use ws_fanout.Server.Connection.Lifecycle.{add-length, remove-length}
use ws_fanout.Server.Serve.{
  Semaphore, Running, started, accept, fail, join, leave, drop_permit, Call, subscribes,
  unsubscribes, publishes, broadcasts, sends, receives, hangs_up, times_out, Move, accepts, fails,
  joins, calls, leaves, drops_permit, Serves, start, later,
}
use ws_fanout.Server.Task.Own.{subscribe-Own, unsubscribe-Own}

-- What a call leaves as it was.
record Steady {Tx : Type 0} (r s : Registry Tx) : Type 0 where
  valid : IsValid s
  size : length s.connections ≡ length r.connections

module _ {Tx : Type 0} where
  Keeps-Steady : (r s : Registry Tx) → Keeps r s → IsValid r → Steady r s
  Keeps-Steady r s k v = record { valid = Keeps-IsValid r s k v; size = k.size }

  Call-Steady :
      ⦃mpsc : Mpsc Tx⦄ (r : Registry Tx) {s : Registry Tx} → Call r s → IsValid r → Steady r s
  Call-Steady r (subscribes id chs max) v =
      let own = subscribe-Own id r chs max v in record { valid = own.valid; size = own.size }
  Call-Steady r (unsubscribes id chs) v =
      let own = unsubscribe-Own id r chs v in record { valid = own.valid; size = own.size }
  Call-Steady r (publishes ch f) v = Keeps-Steady r _ (publish-Keeps r ch f) v
  Call-Steady r (broadcasts f) v = Keeps-Steady r _ (broadcast-Keeps r f) v
  Call-Steady r (sends id f) v = Keeps-Steady r _ (send-Keeps r id f) v
  Call-Steady r {s} (receives id f e) v =
      let (c, t, known, _, q) = receive-with_tx r s id f e in
      rw q (Keeps-Steady r (with_tx r id c t) (with_tx-Keeps r id c t known) v)
  Call-Steady r (hangs_up id) v = Keeps-Steady r _ (hang_up-Keeps r id) v
  Call-Steady r times_out v = Keeps-Steady r _ (count_timeout-Keeps r) v

module _ {Tx Sem : Type 0} ⦃semaphore : Semaphore Sem⦄ where
  -- How many tasks there are.
  unfoldable pub tasks : Running Tx Sem → ℕ
  tasks w = w.entering + length w.registry.connections + w.leaving

  -- Every permit is free or held by one task.
  pub record IsBounded (max : ℕ) (w : Running Tx Sem) : Type 0 where
    pub valid : IsValid w.registry
    pub permits : semaphore.available w.slots + tasks w ≡ max

  accept-cases :
      (w : Running Tx Sem)
      → ((semaphore.available w.slots ≡ 0)
          × (accept w ≡ record w { registry = count_refused w.registry }))
        ⊎ ((s : Sem) × (semaphore.available s + 1 ≡ semaphore.available w.slots)
            × (accept w ≡ record w { slots = s; entering = w.entering + 1 }))
  unfolding accept
  accept-cases w = elim (Bool-cases (ltb 0 (semaphore.available w.slots))) [
    | inl free ↦
        let (s, e, less) = semaphore.try_acquire_some w.slots (omega (arith, ltb→lt 0 _ free)) in
        inr (s, less, rw (e, accept) refl)
    | inr none_free ↦
        let zero_free : semaphore.available w.slots ≡ 0 = ground (arith, none_free) in
        inl (zero_free, rw (semaphore.try_acquire_none w.slots zero_free, accept) refl)
  ]

  Move-IsBounded :
      ⦃mpsc : Mpsc Tx⦄ (max : ℕ) {v w : Running Tx Sem}
      → Move v w
      → IsBounded max v
      → IsBounded max w
  unfolding tasks fail join leave drop_permit count_refused
  Move-IsBounded max {v} accepts b = elim (accept-cases v) [
    | inl (_, e) ↦ rw e (record {
      valid = Keeps-IsValid _ _ (count_refused-Keeps v.registry) b.valid;
      permits = b.permits;
    })
    | inr (s, less, e) ↦ rw e (record { valid = b.valid; permits = omega (arith, b.permits, less) })
  ]
  Move-IsBounded max {v} (fails h) b = record {
    valid = b.valid;
    permits = omega (arith, b.permits);
  }
  Move-IsBounded max {v} (joins subject tx h room) b = record {
    valid = add-IsValid v.registry subject tx room b.valid;
    permits = omega (arith, b.permits, add-length v.registry subject tx b.valid);
  }
  Move-IsBounded max {v} (calls c) b =
      let s = Call-Steady v.registry c b.valid in
      record { valid = s.valid; permits = omega (arith, b.permits, s.size) }
  Move-IsBounded max {v} (leaves id h) b = record {
    valid = remove-IsValid v.registry id b.valid;
    permits = omega (arith, b.permits, remove-length v.registry id b.valid h);
  }
  Move-IsBounded max {v} (drops_permit h) b = record {
    valid = b.valid;
    permits = omega (arith, b.permits, semaphore.release_lem v.slots);
  }

  pub Serves-IsBounded :
      ⦃mpsc : Mpsc Tx⦄ (max : ℕ) {w : Running Tx Sem}
      → max ≤ semaphore.max_permits
      → Serves max w
      → IsBounded max w
  unfolding started tasks Registry.new
  Serves-IsBounded max few start = record {
    valid = new-IsValid;
    permits = omega (arith, semaphore.new_lem max few);
  }
  Serves-IsBounded max few (later before m) = Move-IsBounded max m (Serves-IsBounded max few before)

  -- Whatever moves a server with a limit that the semaphore takes makes from its start, the tasks
  -- that authenticate, are in the registry or are about to end are never more than the limit. Ids
  -- are taken not to run out.
  pub tasks-max :
      ⦃mpsc : Mpsc Tx⦄ (max : ℕ) (w : Running Tx Sem)
      → max ≤ semaphore.max_permits
      → Serves max w
      → tasks w ≤ max
  tasks-max max w few h = omega (arith, (Serves-IsBounded max few h).permits)

  -- In whatever such a server comes to, a new socket gets a task, and the registry is untouched,
  -- exactly if the tasks are below the limit; at the limit it is refused, and only refused_full
  -- changes.
  pub accept-tasks :
      ⦃mpsc : Mpsc Tx⦄ (max : ℕ) (w : Running Tx Sem)
      → max ≤ semaphore.max_permits
      → Serves max w
      → ((tasks w < max) × (tasks (accept w) ≡ tasks w + 1) × ((accept w).registry ≡ w.registry))
        ⊎ ((tasks w ≡ max) × (accept w ≡ record w { registry = count_refused w.registry }))
  unfolding tasks
  accept-tasks max w few h =
      let full = (Serves-IsBounded max few h).permits in
      elim (accept-cases w) [
        | inl (none_free, e) ↦ inr (omega (arith, full, none_free), e)
        | inr (s, less, e) ↦ inl (omega (arith, full, less), rw e (omega arith), rw e refl)
      ]
