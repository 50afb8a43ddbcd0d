-- ===== src/Tests/Races.antt =====
-- Deliveries of src/registry.rs that run at once.
use ws_fanout.Prelude.{◌≡◌, refl, false, List, [], ◌∷◌, arith, All, nat_eq, string_eq, wrapping_add}
use ws_fanout.Registry.{no_metrics}
use ws_fanout.Registry.Deliveries.{deliver}
use ws_fanout.Registry.Race.{
  Shared, Phase, Turn, thread, receiver, race, turn, advance, arm, take_frame, phase_of, set_phase,
}
use ws_fanout.Registry.Race.Alone.{returned}
use ws_fanout.Registry.Race.Finish.{HasReturned, finish}
use ws_fanout.Registry.Race.Serial.{serial, serial_turn, deliver_now, race-serial}
use ws_fanout.Registry.Race.Counters.{Counted, starting, race-Counted}
use ws_fanout.Tests.Queue.{Chan, chan_mpsc, chan_try_send, chan_recv}
use ws_fanout.Tests.Sample.{hello}
use ws_fanout.Tests.Slots.{permits_semaphore}

-- One connection, whose queue is full.
abbrev meeting : Shared Chan
meeting = record {
  metrics = no_metrics;
  connection = record {
    subject = "ann";
    subscriptions = "a" ∷ [];
    tx = record { items = hello ∷ []; limit = 1; shut = false };
    dropped = 7;
  };
}

abbrev turns : List Turn
turns = thread 0 ∷ receiver ∷ thread 1 ∷ thread 0 ∷ thread 1 ∷ thread 1 ∷ thread 0 ∷ []

race-Counted_example : Counted meeting (race turns (meeting, starting (hello ∷ hello ∷ [])))
race-Counted_example =
    race-Counted meeting (hello ∷ hello ∷ []) turns (omega arith) (omega arith) (omega arith)

-- The first delivery finds the queue full, and counts only after the second has come through.
abbrev overtaken : List Turn
overtaken = thread 0 ∷ receiver ∷ thread 1 ∷ thread 1 ∷ thread 1 ∷ thread 0 ∷ thread 0 ∷ []

abbrev both : Shared Chan × List Phase
both = (meeting, starting (hello ∷ hello ∷ []))

overtaken_returned : All HasReturned (race overtaken both).1
unfolding race turn advance arm take_frame phase_of set_phase starting returned chan_mpsc
    chan_try_send chan_recv wrapping_add
overtaken_returned = (refl, (refl, tt))

race-serial_example :
    ((serial overtaken both).1 ≡ (race overtaken both).1)
    × ((serial overtaken both).0.metrics ≡ (race overtaken both).0.metrics)
    × ((serial overtaken both).0.connection.tx ≡ (race overtaken both).0.connection.tx)
race-serial_example =
    race-serial meeting (hello ∷ hello ∷ []) overtaken (omega arith) (omega arith)
      overtaken_returned

-- The streak is not what it would be one after the other.
overtaken_streak :
    ((race overtaken both).0.connection.dropped ≡ 1)
    × ((serial overtaken both).0.connection.dropped ≡ 0)
unfolding race turn advance arm take_frame phase_of set_phase starting serial serial_turn
    deliver_now deliver finish chan_mpsc chan_try_send chan_recv wrapping_add
overtaken_streak = (refl, refl)
