-- ===== src/Registry/Race/Alone.antt =====
-- The atomic operations of one `deliver` of src/registry.rs, with no other thread.
use ws_fanout.Prelude.{◌≡◌, refl, Bool, true, false, arith, inl, inr, ◌⊎◌, nat_eq, string_eq}
use ws_fanout.Protocol.{Frame}
use ws_fanout.Mpsc.{Mpsc, TrySend, sent, full, closed}
use ws_fanout.Registry.Deliveries.{deliver}
use ws_fanout.Registry.Race.{
  Shared, Phase, ready, returned_sent, returned_full, returned_closed, arm, advance,
}

-- The result of a call that has returned.
unfoldable pub result : Phase → Bool
result returned_sent = true
result _ = false

TrySend-cases : (o : TrySend) → (o ≡ sent) ⊎ ((o ≡ full) ⊎ (o ≡ closed))
TrySend-cases sent = inl refl
TrySend-cases full = inr (inl refl)
TrySend-cases closed = inr (inr refl)

unfoldable pub returned : Phase → Bool
returned returned_sent = true
returned returned_full = true
returned returned_closed = true
returned _ = false

module _ {Tx : Type 0} ⦃mpsc : Mpsc Tx⦄ where
  -- Three turns of one thread.
  abbrev thrice : Shared Tx → Frame → Shared Tx × Phase
  thrice s f = let (s1, p1) = advance s (ready f) in let (s2, p2) = advance s1 p1 in advance s2 p2

  thrice-deliver :
      (s : Shared Tx) (f : Frame)
      → let d = deliver s.metrics s.connection f in
        (returned (thrice s f).1 ≡ true)
        × (result (thrice s f).1 ≡ d.received)
        × ((thrice s f).0 ≡ record { metrics = d.metrics; connection = d.connection })
  unfolding advance arm deliver result returned
  thrice-deliver s f = elim (TrySend-cases (mpsc.try_send s.connection.tx f).0) [
    | inl e ↦ ground (arith, e)
    | inr (inl e) ↦ ground (arith, e)
    | inr (inr e) ↦ ground (arith, e)
  ]
