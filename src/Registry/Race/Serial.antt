-- ===== src/Registry/Race/Serial.antt =====
-- Deliveries of src/registry.rs that run at once against the same deliveries one after another, each
-- as a whole at its `try_send`.
use ws_fanout.Prelude.{
  ℕ, ◌+◌, ◌%◌, ◌<◌, ◌≡◌, refl, none, some, List, [], ◌∷◌, arith, All, Option-cases, inl, inr, ◌∙◌,
  ap, sym, nat_eq, string_eq, wrapping_add, u64_mod,
}
use mathlib.Core.Option
use ws_fanout.Protocol.{Frame}
use ws_fanout.Mpsc.{Mpsc}
use ws_fanout.Registry.{Metrics}
use ws_fanout.Registry.Deliveries.{deliver}
use ws_fanout.Registry.Race.{
  Shared, Phase, ready, arm, advance, take_frame, Turn, thread, receiver, phase_of, set_phase, turn,
  race,
}
use ws_fanout.Registry.Race.Finish.{
  finish, owes_sent, owes_dropped, finished, phase_of-finished, finished-set_phase,
  starting-finished, HasReturned, returned-finished,
}
use ws_fanout.Registry.Race.Counters.{total, total-set_phase, starting}

module _ {Tx : Type 0} ⦃mpsc : Mpsc Tx⦄ where
  -- A call as a whole, if it has not been made.
  unfoldable pub deliver_now : Shared Tx → Phase → Shared Tx × Phase
  unfolding deliver finish arm
  deliver_now s (ready frame) =
      let d = deliver s.metrics s.connection frame in
      (
        record { metrics = d.metrics; connection = d.connection },
        finish (arm (mpsc.try_send s.connection.tx frame).0),
      )
  deliver_now s p = (s, p)

  unfoldable pub serial_turn : Shared Tx × List Phase → Turn → Shared Tx × List Phase
  unfolding deliver_now
  serial_turn (s, ps) (thread i) = elim (phase_of i ps) [
    | none ↦ (s, ps)
    | some p ↦ let (s', q) = deliver_now s p in (s', set_phase i q ps)
  ]
  serial_turn (s, ps) receiver = (take_frame s, ps)

  unfoldable pub serial : List Turn → Shared Tx × List Phase → Shared Tx × List Phase
  unfolding serial_turn
  serial [] x = x
  serial (t ∷ ts) x = serial ts (serial_turn x t)

  -- `t` is `s` with so many counts that are still owed, but for the streak.
  record Near (s t : Shared Tx) (sends drops : ℕ) : Type 0 where
    tx : t.connection.tx ≡ s.connection.tx
    frames_sent : t.metrics.frames_sent ≡ (s.metrics.frames_sent + sends) % u64_mod
    frames_dropped : t.metrics.frames_dropped ≡ (s.metrics.frames_dropped + drops) % u64_mod
    rest :
        record t.metrics { frames_sent = 0; frames_dropped = 0 }
        ≡ record s.metrics { frames_sent = 0; frames_dropped = 0 }
    sent_fits : s.metrics.frames_sent < u64_mod
    dropped_fits : s.metrics.frames_dropped < u64_mod

  advance-Near :
      (s t : Shared Tx) (p : Phase) (a b a' b' : ℕ)
      → Near s t a b
      → a' + owes_sent p ≡ a + owes_sent (advance s p).1
      → b' + owes_dropped p ≡ b + owes_dropped (advance s p).1
      → Near (advance s p).0 (deliver_now t (finish p)).0 a' b'
        × ((deliver_now t (finish p)).1 ≡ finish (advance s p).1)
  unfolding advance arm deliver_now deliver finish owes_sent owes_dropped wrapping_add
  advance-Near s t p a b a' b' n hs hd =
      let same : (f : Frame) → mpsc.try_send t.connection.tx f ≡ mpsc.try_send s.connection.tx f =
        λ f. ap (λ x. mpsc.try_send x f) n.tx in
      (
        record {
          tx = ground (arith, same, n.tx);
          frames_sent = ground (arith, same, n.frames_sent, hs);
          frames_dropped = ground (arith, same, n.frames_dropped, hd);
          rest = ground (arith, same, n.rest);
          sent_fits = ground (arith, n.sent_fits);
          dropped_fits = ground (arith, n.dropped_fits);
        },
        ground (arith, same),
      )

  take_frame-Near :
      (s t : Shared Tx) (a b : ℕ) → Near s t a b → Near (take_frame s) (take_frame t) a b
  unfolding take_frame
  take_frame-Near s t a b n =
      let same : mpsc.recv t.connection.tx ≡ mpsc.recv s.connection.tx =
        ap (λ x. mpsc.recv x) n.tx in
      record {
        tx = ground (arith, same, n.tx);
        frames_sent = ground (arith, same, n.frames_sent);
        frames_dropped = ground (arith, same, n.frames_dropped);
        rest = ground (arith, same, n.rest);
        sent_fits = ground (arith, n.sent_fits);
        dropped_fits = ground (arith, n.dropped_fits);
      }

  -- The two runs after the same turns.
  record Follows (x y : Shared Tx × List Phase) : Type 0 where
    phases : y.1 ≡ finished x.1
    near : Near x.0 y.0 (total owes_sent x.1) (total owes_dropped x.1)

  turn-Follows :
      (x y : Shared Tx × List Phase) (o : Turn) → Follows x y → Follows (turn x o) (serial_turn y o)
  unfolding turn serial_turn
  turn-Follows (s, ps) (t, qs) receiver h = record {
    phases = h.phases;
    near = take_frame-Near s t _ _ h.near;
  }
  turn-Follows (s, ps) (t, qs) (thread i) h = elim (Option-cases (phase_of i ps)) [
    | inl e ↦
        let f : phase_of i qs ≡ none =
          ap (phase_of i) h.phases ∙ phase_of-finished i ps ∙ ap (Option.map finish) e in
        rw (e, f, turn, serial_turn) h
    | inr (p, e) ↦
        let q = (advance s p).1 in
        let (near, same) =
          advance-Near s t p _ _ _ _ h.near (total-set_phase owes_sent i ps p q e)
            (total-set_phase owes_dropped i ps p q e) in
        let f : phase_of i qs ≡ some (finish p) =
          ap (phase_of i) h.phases ∙ phase_of-finished i ps ∙ ap (Option.map finish) e in
        rw (e, f, turn, serial_turn)
          (record {
            phases =
                ap (λ x. set_phase i x qs) same
                ∙ ap (set_phase i (finish q)) h.phases
                ∙ sym (finished-set_phase i q ps);
            near = near;
          })
  ]

  race-Follows :
      (ts : List Turn) (x y : Shared Tx × List Phase)
      → Follows x y
      → Follows (race ts x) (serial ts y)
  unfolding race serial
  race-Follows [] x y h = h
  race-Follows (t ∷ ts) x y h = race-Follows ts (turn x t) (serial_turn y t) (turn-Follows x y t h)

same_metrics :
    (m k : Metrics)
    → record k { frames_sent = 0; frames_dropped = 0 }
      ≡ record m { frames_sent = 0; frames_dropped = 0 }
    → k.frames_sent ≡ m.frames_sent
    → k.frames_dropped ≡ m.frames_dropped
    → k ≡ m
same_metrics m k rest s d = ground (arith, rest, s, d)

module _ {Tx : Type 0} ⦃mpsc : Mpsc Tx⦄ where
  -- Where any number of deliveries to one connection run at once, their atomic operations in any
  -- order and the connection's task taking frames in between, and all of them have returned: what
  -- each of them returned, the connection's queue and all of the counters are what they are where
  -- each delivery is made as a whole at its first operation. The streak of drops is left out. The
  -- two counters are below 2^64 before.
  pub race-serial :
      (before : Shared Tx) (fs : List Frame) (ts : List Turn)
      → before.metrics.frames_sent < u64_mod
      → before.metrics.frames_dropped < u64_mod
      → All HasReturned (race ts (before, starting fs)).1
      → let x = race ts (before, starting fs) in
        let y = serial ts (before, starting fs) in
        (y.1 ≡ x.1) × (y.0.metrics ≡ x.0.metrics) × (y.0.connection.tx ≡ x.0.connection.tx)
  race-serial before fs ts hs hd over =
      let (same, no_sent, no_dropped) = starting-finished fs in
      let x = race ts (before, starting fs) in
      let y = serial ts (before, starting fs) in
      let (done, all_sent, all_dropped) = returned-finished x.1 over in
      let h =
        race-Follows ts (before, starting fs) (before, starting fs)
          (record {
            phases = same;
            near = record {
              tx = refl;
              frames_sent = grind (arith, no_sent, hs);
              frames_dropped = grind (arith, no_dropped, hd);
              rest = refl;
              sent_fits = hs;
              dropped_fits = hd;
            };
          }) in
      (
        h.phases ∙ done,
        same_metrics x.0.metrics y.0.metrics h.near.rest
            (grind (arith, h.near.frames_sent, h.near.sent_fits, all_sent))
            (grind (arith, h.near.frames_dropped, h.near.dropped_fits, all_dropped)),
        h.near.tx,
      )
