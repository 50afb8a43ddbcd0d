-- ===== src/Registry/Race/Counters.antt =====
-- The counters of src/registry.rs under deliveries that run at once.
use ws_fanout.Prelude.{
  zero, ℕ, suc, ◌+◌, ◌%◌, ◌≤◌, ◌<◌, ◌≡◌, refl, some, List, [], ◌∷◌, arith, length, Option-cases,
  inl, inr, ap, nat_eq, string_eq, wrapping_add, u64_mod,
}
use ws_fanout.Protocol.{Frame}
use ws_fanout.Mpsc.{Mpsc}
use ws_fanout.Registry.Race.{
  Shared, Phase, ready, accepted_counted, returned_sent, refused_counted, returned_full, arm,
  advance, take_frame, Turn, thread, receiver, phase_of, set_phase, turn, race,
}

-- The threads that have counted a frame as sent, as dropped, and those that returned from `Full`.
unfoldable pub has_sent : Phase → ℕ
has_sent accepted_counted = 1
has_sent returned_sent = 1
has_sent _ = 0

unfoldable pub has_dropped : Phase → ℕ
has_dropped refused_counted = 1
has_dropped returned_full = 1
has_dropped _ = 0

unfoldable pub has_failed : Phase → ℕ
has_failed returned_full = 1
has_failed _ = 0

unfoldable pub total : (Phase → ℕ) → List Phase → ℕ
total w [] = 0
total w (p ∷ ps) = w p + total w ps

pub total-set_phase :
    (w : Phase → ℕ) (i : ℕ) (ps : List Phase) (p q : Phase)
    → phase_of i ps ≡ some p
    → total w (set_phase i q ps) + w p ≡ total w ps + w q
unfolding total phase_of set_phase
total-set_phase w i [] p q e = absurd (ground (arith, e))
total-set_phase w zero (x ∷ ps) p q e = ground (arith, e)
total-set_phase w (suc i) (x ∷ ps) p q e = ground (arith, total-set_phase w i ps p q e)

total-failed-le : (ps : List Phase) → total has_failed ps ≤ length ps
unfolding total has_failed
total-failed-le [] = omega arith
total-failed-le (p ∷ ps) = ground (arith, total-failed-le ps)

length-set_phase : (i : ℕ) (q : Phase) (ps : List Phase) → length (set_phase i q ps) ≡ length ps
unfolding set_phase
length-set_phase i q [] = refl
length-set_phase zero q (p ∷ ps) = refl
length-set_phase (suc i) q (p ∷ ps) = ap suc (length-set_phase i q ps)

module _ {Tx : Type 0} ⦃mpsc : Mpsc Tx⦄ where
  -- The counters are what they were, with what the threads have counted; the streak is no more than
  -- it was, with the deliveries that have failed.
  pub record Counted (before : Shared Tx) (x : Shared Tx × List Phase) : Type 0 where
    pub frames_sent :
        x.0.metrics.frames_sent ≡ (before.metrics.frames_sent + total has_sent x.1) % u64_mod
    pub frames_dropped :
        x.0.metrics.frames_dropped
        ≡ (before.metrics.frames_dropped + total has_dropped x.1) % u64_mod
    pub streak : x.0.connection.dropped ≤ before.connection.dropped + total has_failed x.1
    pub room : before.connection.dropped + length x.1 < u64_mod

  advance-frames_sent :
      (s : Shared Tx) (p : Phase) (n t t' : ℕ)
      → s.metrics.frames_sent ≡ (n + t) % u64_mod
      → t' + has_sent p ≡ t + has_sent (advance s p).1
      → (advance s p).0.metrics.frames_sent ≡ (n + t') % u64_mod
  unfolding advance arm has_sent wrapping_add
  advance-frames_sent s p n t t' e h = ground (arith, e, h)

  advance-frames_dropped :
      (s : Shared Tx) (p : Phase) (n t t' : ℕ)
      → s.metrics.frames_dropped ≡ (n + t) % u64_mod
      → t' + has_dropped p ≡ t + has_dropped (advance s p).1
      → (advance s p).0.metrics.frames_dropped ≡ (n + t') % u64_mod
  unfolding advance arm has_dropped wrapping_add
  advance-frames_dropped s p n t t' e h = ground (arith, e, h)

  advance-streak :
      (s : Shared Tx) (p : Phase) (n t t' : ℕ)
      → s.connection.dropped ≤ n + t
      → t' + has_failed p ≡ t + has_failed (advance s p).1
      → n + t' < u64_mod
      → (advance s p).0.connection.dropped ≤ n + t'
  unfolding advance arm has_failed wrapping_add
  advance-streak s p n t t' e h fits = ground (arith, e, h, fits)

  take_frame-counters :
      (s : Shared Tx)
      → ((take_frame s).metrics ≡ s.metrics)
        × ((take_frame s).connection.dropped ≡ s.connection.dropped)
  unfolding take_frame
  take_frame-counters s = elim (Option-cases (mpsc.recv s.connection.tx)) [
    | inl e ↦ ground (arith, e)
    | inr (f, e) ↦ ground (arith, e)
  ]

  receiver-Counted :
      (before s : Shared Tx) (ps : List Phase)
      → Counted before (s, ps)
      → Counted before (take_frame s, ps)
  receiver-Counted before s ps c = record {
    frames_sent = grind (arith, c.frames_sent, (take_frame-counters s).0);
    frames_dropped = grind (arith, c.frames_dropped, (take_frame-counters s).0);
    streak = grind (arith, c.streak, (take_frame-counters s).1);
    room = c.room;
  }

  thread-Counted :
      (before s : Shared Tx) (ps : List Phase) (i : ℕ) (p : Phase)
      → phase_of i ps ≡ some p
      → Counted before (s, ps)
      → Counted before ((advance s p).0, set_phase i (advance s p).1 ps)
  thread-Counted before s ps i p e c =
      let q = (advance s p).1 in
      let failed = total-failed-le (set_phase i q ps) in
      let long = length-set_phase i q ps in
      record {
        frames_sent =
            advance-frames_sent s p before.metrics.frames_sent (total has_sent ps) _ c.frames_sent
              (total-set_phase has_sent i ps p q e);
        frames_dropped =
            advance-frames_dropped s p before.metrics.frames_dropped (total has_dropped ps) _
              c.frames_dropped (total-set_phase has_dropped i ps p q e);
        streak =
            advance-streak s p before.connection.dropped (total has_failed ps) _ c.streak
              (total-set_phase has_failed i ps p q e) (grind (arith, c.room, failed, long));
        room = grind (arith, c.room, long);
      }

  turn-Counted :
      (before : Shared Tx) (x : Shared Tx × List Phase) (t : Turn)
      → Counted before x
      → Counted before (turn x t)
  unfolding turn
  turn-Counted before (s, ps) receiver c = receiver-Counted before s ps c
  turn-Counted before (s, ps) (thread i) c = elim (Option-cases (phase_of i ps)) [
    | inl e ↦ ground (arith, e, c)
    | inr (p, e) ↦ ground (arith, e, thread-Counted before s ps i p e c)
  ]

  race-turns :
      (before : Shared Tx) (x : Shared Tx × List Phase) (ts : List Turn)
      → Counted before x
      → Counted before (race ts x)
  unfolding race
  race-turns before x [] c = c
  race-turns before x (t ∷ ts) c = race-turns before (turn x t) ts (turn-Counted before x t c)

-- Calls that have not begun.
unfoldable pub starting : List Frame → List Phase
starting [] = []
starting (f ∷ fs) = ready f ∷ starting fs

total-starting :
    (fs : List Frame)
    → (total has_sent (starting fs) ≡ 0)
      × (total has_dropped (starting fs) ≡ 0)
      × (total has_failed (starting fs) ≡ 0)
      × (length (starting fs) ≡ length fs)
unfolding total starting has_sent has_dropped has_failed
total-starting [] = (refl, refl, refl, refl)
total-starting (f ∷ fs) = ground (arith, total-starting fs)

module _ {Tx : Type 0} ⦃mpsc : Mpsc Tx⦄ where
  -- Where any number of deliveries to one connection run at once, their atomic operations in any
  -- order and the connection's task taking frames in between, frames_sent and frames_dropped are
  -- at every moment what they were before (mod 2^64) with one for each call that has counted its
  -- frame, and the streak of drops is at most what it was with one for each call that has returned
  -- from a full queue. The counters are below 2^64 before, and so is the streak with one for each
  -- call.
  pub race-Counted :
      (before : Shared Tx) (fs : List Frame) (ts : List Turn)
      → before.metrics.frames_sent < u64_mod
      → before.metrics.frames_dropped < u64_mod
      → before.connection.dropped + length fs < u64_mod
      → Counted before (race ts (before, starting fs))
  race-Counted before fs ts hs hd hr =
      let (s, d, f, l) = total-starting fs in
      race-turns before (before, starting fs) ts
        record {
          frames_sent = grind (arith, s, hs);
          frames_dropped = grind (arith, d, hd);
          streak = grind (arith, f);
          room = grind (arith, l, hr);
        }
