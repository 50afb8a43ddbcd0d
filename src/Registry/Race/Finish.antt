-- ===== src/Registry/Race/Finish.antt =====
-- The deliveries of src/registry.rs that run at once: where each will return from.
use ws_fanout.Prelude.{
  zero, ℕ, suc, ◌≡◌, refl, true, List, [], ◌∷◌, arith, All, ap, nat_eq, string_eq,
}
use mathlib.Core.Option
use ws_fanout.Protocol.{Frame}
use ws_fanout.Registry.Race.{
  Phase, accepted, accepted_counted, returned_sent, refused, refused_counted, returned_full,
  phase_of, set_phase,
}
use ws_fanout.Registry.Race.Alone.{returned}
use ws_fanout.Registry.Race.Counters.{total, starting}

-- Where the call will return from.
unfoldable pub finish : Phase → Phase
finish accepted = returned_sent
finish accepted_counted = returned_sent
finish refused = returned_full
finish refused_counted = returned_full
finish p = p

-- The threads that have still to count a frame as sent, and as dropped.
unfoldable pub owes_sent : Phase → ℕ
owes_sent accepted = 1
owes_sent _ = 0

unfoldable pub owes_dropped : Phase → ℕ
owes_dropped refused = 1
owes_dropped _ = 0

unfoldable pub finished : List Phase → List Phase
finished [] = []
finished (p ∷ ps) = finish p ∷ finished ps

pub phase_of-finished :
    (i : ℕ) (ps : List Phase) → phase_of i (finished ps) ≡ Option.map finish (phase_of i ps)
unfolding phase_of finished
phase_of-finished i [] = refl
phase_of-finished zero (p ∷ ps) = refl
phase_of-finished (suc i) (p ∷ ps) = phase_of-finished i ps

pub finished-set_phase :
    (i : ℕ) (q : Phase) (ps : List Phase)
    → finished (set_phase i q ps) ≡ set_phase i (finish q) (finished ps)
unfolding set_phase finished
finished-set_phase i q [] = refl
finished-set_phase zero q (p ∷ ps) = refl
finished-set_phase (suc i) q (p ∷ ps) = ap (λ x. finish p ∷ x) (finished-set_phase i q ps)

pub starting-finished :
    (fs : List Frame)
    → (starting fs ≡ finished (starting fs))
      × (total owes_sent (starting fs) ≡ 0)
      × (total owes_dropped (starting fs) ≡ 0)
unfolding starting finished finish total owes_sent owes_dropped
starting-finished [] = (refl, refl, refl)
starting-finished (f ∷ fs) = ground (arith, starting-finished fs)

abbrev pub HasReturned : Phase → Type 0
HasReturned p = returned p ≡ true

pub returned-finished :
    (ps : List Phase)
    → All HasReturned ps
    → (finished ps ≡ ps) × (total owes_sent ps ≡ 0) × (total owes_dropped ps ≡ 0)
unfolding finished finish total owes_sent owes_dropped returned
returned-finished [] h = (refl, refl, refl)
returned-finished (p ∷ ps) h = ground (arith, h.0, returned-finished ps h.1)
