-- ===== src/Registry/Race.antt =====
-- `deliver` of src/registry.rs taken apart. `publish`, `broadcast` and `send` hold the lock for reading
-- only, so that several threads deliver to one connection at once: each atomic operation is a step
-- of its own here, and the connection's task may take frames in between.
pub mod Alone
pub mod Counters
pub mod Finish
pub mod Serial
use ws_fanout.Prelude.{
  zero, ℕ, suc, ◌+◌, ◌-◌, ◌*◌, ◌%◌, ◌≤◌, ◌<◌, ◌≡◌, ◌≢◌, ◌↔◌, refl, Bool, true, false, ◌||◌, ◌&&◌,
  not, Option, none, some, String, List, [], ◌∷◌, ◌++◌, map, foldl, arith, Eq, ◌==◌, leb, ltb,
  if◌then◌else◌, length, is_empty, All, Bool-cases, Option-cases, inl, inr, ◌⊎◌, ◌∙◌, ap, sym,
  nat_eq, string_eq, wrapping_add, wrapping_sub, u64_mod, wrapping_add_exact, wrapping_add-lt,
  ==_refl, ==_iff, ==_comm, Result, ok, err, Result-cases, filter_b, filter_b-All, All-filter_b,
  partition, Bool-ext, All-append, length-append,
}
use ws_fanout.Protocol.{Frame}
use ws_fanout.Mpsc.{Mpsc, TrySend, sent, full, closed}
use ws_fanout.Registry.{Connection, Metrics}

-- What the threads share.
pub record Shared (Tx : Type 0) : Type 0 where
  pub metrics : Metrics
  pub connection : Connection Tx

-- Where a call of `deliver` stands: before `try_send`; before each of the two updates that follow `Ok`,
-- and those that follow `Full`; returned from one of the three arms.
pub data Phase : Type 0 where
  ready : Frame → Phase
  accepted accepted_counted returned_sent : Phase
  refused refused_counted returned_full : Phase
  returned_closed : Phase

-- The arm that `try_send` chooses.
unfoldable pub arm : TrySend → Phase
arm sent = accepted
arm full = refused
arm closed = returned_closed

module _ {Tx : Type 0} ⦃mpsc : Mpsc Tx⦄ where
  -- One atomic operation of one thread.
  unfoldable pub advance : Shared Tx → Phase → Shared Tx × Phase
  unfolding arm
  advance s (ready frame) =
      let (outcome, tx) = mpsc.try_send s.connection.tx frame in
      (record s { connection = record s.connection { tx = tx } }, arm outcome)
  advance s accepted = (
    record s { metrics = record s.metrics { frames_sent = wrapping_add s.metrics.frames_sent 1 } },
    accepted_counted,
  )
  advance s accepted_counted =
      (record s { connection = record s.connection { dropped = 0 } }, returned_sent)
  advance s refused = (
    record s {
      metrics = record s.metrics { frames_dropped = wrapping_add s.metrics.frames_dropped 1 };
    },
    refused_counted,
  )
  advance s refused_counted = (
    record s { connection = record s.connection { dropped = wrapping_add s.connection.dropped 1 } },
    returned_full,
  )
  advance s returned_sent = (s, returned_sent)
  advance s returned_full = (s, returned_full)
  advance s returned_closed = (s, returned_closed)

  -- The connection's task takes a frame, if there is one.
  unfoldable pub take_frame : Shared Tx → Shared Tx
  take_frame s = elim (mpsc.recv s.connection.tx) [
    | none ↦ s
    | some (frame, tx) ↦ record s { connection = record s.connection { tx = tx } }
  ]

-- The phase of a thread, and a new phase for it.
unfoldable pub phase_of : ℕ → List Phase → Option Phase
phase_of i [] = none
phase_of zero (p ∷ ps) = some p
phase_of (suc i) (p ∷ ps) = phase_of i ps

unfoldable pub set_phase : ℕ → Phase → List Phase → List Phase
set_phase i q [] = []
set_phase zero q (p ∷ ps) = q ∷ ps
set_phase (suc i) q (p ∷ ps) = p ∷ set_phase i q ps

-- Whose turn it is.
pub data Turn : Type 0 where
  thread : ℕ → Turn
  receiver : Turn

module _ {Tx : Type 0} ⦃mpsc : Mpsc Tx⦄ where
  unfoldable pub turn : Shared Tx × List Phase → Turn → Shared Tx × List Phase
  unfolding take_frame
  turn (s, ps) (thread i) = elim (phase_of i ps) [
    | none ↦ (s, ps)
    | some p ↦ let (s', q) = advance s p in (s', set_phase i q ps)
  ]
  turn (s, ps) receiver = (take_frame s, ps)

  -- Any interleaving.
  unfoldable pub race : List Turn → Shared Tx × List Phase → Shared Tx × List Phase
  race [] x = x
  race (t ∷ ts) x = race ts (turn x t)
