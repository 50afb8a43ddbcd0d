-- ===== src/Tests/Slow.antt =====
-- A server of src/server.rs with one client who does not read.
use ws_fanout.Prelude.{
  ℕ, zero, suc, ◌+◌, ◌-◌, ◌*◌, ◌&&◌, ◌%◌, ◌≤◌, ◌<◌, ◌≡◌, refl, Bool, true, false, Option, none,
  some, String, List, [], ◌∷◌, arith, ◌==◌, leb, if◌then◌else◌, Bool-cases, inl, inr, ◌∙◌, ap,
  nat_eq, string_eq, u64_mod,
}
use ws_fanout.Collections.HashMap
use ws_fanout.Registry.{Registry, Connection}
use ws_fanout.Registry
use ws_fanout.Registry.Deliveries.{publish}
use ws_fanout.Registry.Reach.{Reach, Reach-IsValid}
use ws_fanout.Registry.Reach
use ws_fanout.Server.Session.{Event, Write, session}
use ws_fanout.Server.System.{System, Action, serving, calls, departs, called, departed, enact}
use ws_fanout.Server.System.Coherent.{IsCoherent}
use ws_fanout.Server.System.Ends.{run_to}
use ws_fanout.Server.System.Slow.{run_to-slow}
use ws_fanout.Tests.Ends.{crowded, crowded-Reach, impatient}
use ws_fanout.Tests.Queue.{Chan, chan_mpsc, chan_try_send}
use ws_fanout.Tests.Sample.{hello}
use ws_fanout.Tests.Services.{claims, at_start}
use ws_fanout.Tests.Slots.{Permits, permits_semaphore}
use ws_fanout.Tests.System.{schedule, calling, departing}

-- Two frames more are published, and dropped.
abbrev flooded : Registry Chan
flooded = (publish (publish crowded "a" hello).0 "a" hello).0

flooded-Reach : Reach 2 1 flooded
flooded-Reach =
    Reach.later (Reach.later crowded-Reach (Reach.publishes "a" hello)) (Reach.publishes "a" hello)

-- A ping is due.
abbrev due : Event String
due = Event.tick 5 Write.written

abbrev stuck : System Chan Permits String String String
stuck = record {
  running = record {
    registry = flooded;
    slots = permits_semaphore.new 9;
    entering = 0;
    leaving = 0;
  };
  sessions = (1, serving claims (session impatient claims (due ∷ []) at_start)) ∷ [];
}

stuck-IsCoherent : IsCoherent impatient stuck
unfolding HashMap.get enact nat_eq ws_fanout.Prelude.ℕ_discrete HashMap.insert session
    ws_fanout.Server.Session.round Registry.drops publish Registry.subscribe Registry.add
    Registry.new Registry.admit ws_fanout.Collections.HashSet.contains Registry.link string_eq
    HashMap.remove ws_fanout.Collections.HashSet.insert ws_fanout.Collections.HashSet.remove
    ws_fanout.Prelude.wrapping_add ws_fanout.Prelude.wrapping_sub ws_fanout.Protocol.to_message
    ws_fanout.Registry.Deliveries.deliver ws_fanout.Registry.Deliveries.publish_loop
    ws_fanout.Registry.Deliveries.send ws_fanout.Registry.Receiver.hang_up Registry.remove
    Registry.unlink ws_fanout.Server.Serve.leave ws_fanout.Server.Session.branch
    ws_fanout.Server.Session.check_drops ws_fanout.Server.Session.on_tick
    ws_fanout.Server.Session.send_now called departed ws_fanout.Server.System.proceed
    ws_fanout.Server.Task.◌>>=◌ ws_fanout.Server.Task.◌>>◌ chan_mpsc chan_try_send permits_semaphore
stuck-IsCoherent = record { valid = Reach-IsValid 2 1 flooded-Reach; same = λ j. ground arith }

-- Nothing happens to a task that is gone.
idle :
    (n : ℕ) (s : System Chan Permits String String String)
    → HashMap.get 1 s.sessions ≡ none
    → enact impatient (schedule n) s ≡ s
unfolding schedule enact called departed
idle n s gone = elim (Bool-cases (n % 2 == 0)) [
  | inl even ↦ ground (arith, even, gone)
  | inr odd ↦ ground (arith, odd, gone)
]

-- The connection is out, or its streak is long.
unfoldable slow_enough : Option (Connection Chan) → Bool
slow_enough none = true
slow_enough (some c) = leb 2 c.dropped

slow_enough-leb :
    (o : Option (Connection Chan)) (c : Connection Chan)
    → slow_enough o ≡ true
    → o ≡ some c
    → 2 ≤ c.dropped
unfolding slow_enough
slow_enough-leb none c h e = absurd (ground (arith, e))
slow_enough-leb (some x) c h e = ground (arith, h, e)

unfoldable is_fine : System Chan Permits String String String → Bool
unfolding slow_enough
is_fine s = s.registry.next_id == 2 && slow_enough (HashMap.get 1 s.registry.connections)

abbrev at : ℕ → System Chan Permits String String String
at n = run_to impatient schedule stuck n

gone_then : HashMap.get 1 (at 6).sessions ≡ none
unfolding run_to HashMap.get enact schedule nat_eq ws_fanout.Prelude.ℕ_discrete HashMap.insert
    session ws_fanout.Server.Session.round Registry.drops publish Registry.subscribe Registry.add
    Registry.new Registry.admit ws_fanout.Collections.HashSet.contains Registry.link string_eq
    HashMap.remove ws_fanout.Collections.HashSet.insert ws_fanout.Collections.HashSet.remove
    ws_fanout.Prelude.wrapping_add ws_fanout.Prelude.wrapping_sub ws_fanout.Protocol.to_message
    ws_fanout.Registry.Deliveries.deliver ws_fanout.Registry.Deliveries.publish_loop
    ws_fanout.Registry.Deliveries.send ws_fanout.Registry.Receiver.hang_up Registry.remove
    Registry.unlink ws_fanout.Server.Serve.leave ws_fanout.Server.Session.branch
    ws_fanout.Server.Session.check_drops ws_fanout.Server.Session.on_tick
    ws_fanout.Server.Session.send_now called departed ws_fanout.Server.System.proceed
    ws_fanout.Server.Task.◌>>=◌ ws_fanout.Server.Task.◌>>◌ chan_mpsc chan_try_send permits_semaphore
gone_then = refl

settled : (k : ℕ) → at (k + 6) ≡ at 6
unfolding run_to
settled zero = refl
settled (suc k) =
    let before : at (k + 6) ≡ at 6 = settled k in
    let next : suc k + 6 ≡ suc (k + 6) = omega arith in
    ap at next
    ∙ idle (k + 6) (at (k + 6)) (ap (λ s. HashMap.get 1 s.sessions) before ∙ gone_then)
    ∙ before

fine_first :
    (is_fine (at 0) ≡ true)
    × (is_fine (at 1) ≡ true)
    × (is_fine (at 2) ≡ true)
    × (is_fine (at 3) ≡ true)
    × (is_fine (at 4) ≡ true)
    × (is_fine (at 5) ≡ true)
    × (is_fine (at 6) ≡ true)
unfolding is_fine slow_enough run_to HashMap.get enact schedule nat_eq ws_fanout.Prelude.ℕ_discrete
    HashMap.insert session ws_fanout.Server.Session.round Registry.drops publish Registry.subscribe
    Registry.add Registry.new Registry.admit ws_fanout.Collections.HashSet.contains Registry.link
    string_eq HashMap.remove ws_fanout.Collections.HashSet.insert
    ws_fanout.Collections.HashSet.remove ws_fanout.Prelude.wrapping_add
    ws_fanout.Prelude.wrapping_sub ws_fanout.Protocol.to_message
    ws_fanout.Registry.Deliveries.deliver ws_fanout.Registry.Deliveries.publish_loop
    ws_fanout.Registry.Deliveries.send ws_fanout.Registry.Receiver.hang_up Registry.remove
    Registry.unlink ws_fanout.Server.Serve.leave ws_fanout.Server.Session.branch
    ws_fanout.Server.Session.check_drops ws_fanout.Server.Session.on_tick
    ws_fanout.Server.Session.send_now called departed ws_fanout.Server.System.proceed
    ws_fanout.Server.Task.◌>>=◌ ws_fanout.Server.Task.◌>>◌ chan_mpsc chan_try_send permits_semaphore
fine_first = (refl, refl, refl, refl, refl, refl, refl)

fine-early : (n : ℕ) → n < 6 → is_fine (at n) ≡ true
fine-early zero h = fine_first.0
fine-early (suc zero) h = fine_first.1
fine-early (suc (suc zero)) h = fine_first.2
fine-early (suc (suc (suc zero))) h = fine_first.3
fine-early (suc (suc (suc (suc zero)))) h = fine_first.4
fine-early (suc (suc (suc (suc (suc zero))))) h = fine_first.5
fine-early (suc (suc (suc (suc (suc (suc n)))))) h = absurd (omega (arith, h))

fine-at : (n : ℕ) → is_fine (at n) ≡ true
fine-at n = elim (Bool-cases (leb 6 n)) [
  | inl late ↦
      let more : 6 ≤ n = ground (arith, late) in
      let again : n ≡ n - 6 + 6 = omega (arith, more) in
      ap (λ m. is_fine (at m)) again ∙ ap is_fine (settled (n - 6)) ∙ fine_first.6
  | inr early ↦ fine-early n (ground (arith, early))
]

fine-id : (n : ℕ) → (at n).registry.next_id + 1 < u64_mod
unfolding is_fine
fine-id n = let two : (at n).registry.next_id ≡ 2 = ground (arith, fine-at n) in omega (arith, two)

fine-slow :
    (n : ℕ) (c : Connection Chan)
    → HashMap.get 1 (at n).registry.connections ≡ some c
    → 2 ≤ c.dropped
unfolding is_fine
fine-slow n c e =
    slow_enough-leb (HashMap.get 1 (at n).registry.connections) c (ground (arith, fine-at n)) e

run_to-slow_example :
    (n : ℕ) × ((k : ℕ)
      → HashMap.get 1 (run_to impatient schedule stuck (n + k)).registry.connections ≡ none)
unfolding HashMap.get nat_eq ws_fanout.Prelude.ℕ_discrete
run_to-slow_example =
    run_to-slow impatient schedule stuck stuck-IsCoherent fine-id 1 claims due [] at_start refl
      fine-slow calling departing
