-- ===== src/Registry/Order/Entries.antt =====
-- What a call on src/registry.rs makes of two entries that differ at most in the order of the set.
use ws_fanout.Prelude.{
  ℕ, ◌≡◌, refl, Bool, true, false, Option, none, some, String, List, foldl, arith, ◌==◌,
  if◌then◌else◌, Bool-cases, inl, inr, ap, nat_eq, string_eq,
}
use mathlib.Core.Option
use ws_fanout.Collections.HashSet
use ws_fanout.Protocol.{Frame}
use ws_fanout.Mpsc.{Mpsc}
use ws_fanout.Registry.{Connection, ConnectionId, admit, admission, withdraw, withdrawal, joined}
use ws_fanout.Registry.Calls.{
  Call, join, leave, subscribing, unsubscribing, publishing, broadcasting, sending, receiving,
  hanging_up, timing_out, refusing, drained, entry_after,
}
use ws_fanout.Registry.Deliver.{after_delivery}
use ws_fanout.Registry.Deliveries.{deliver}
use ws_fanout.Registry.Order.{Alike, Alike-refl, AlikeEntry, SameMembers}
use ws_fanout.Registry.Order.Loops.{admit_all-Same, admission-Same, withdraw_all-Same}

module _ {Tx : Type 0} where
  -- One entry is written over, the others stay.
  write-Alike :
      (b : Bool) (g : Connection Tx → Connection Tx) (o o' : Option (Connection Tx))
      → ((c c' : Connection Tx) → o ≡ some c → o' ≡ some c' → Alike c c' → Alike (g c) (g c'))
      → AlikeEntry o o'
      → AlikeEntry (if b then Option.map g o else o) (if b then Option.map g o' else o')
  unfolding AlikeEntry
  write-Alike false g o o' h k = k
  write-Alike true g none none h k = tt
  write-Alike true g none (some c') h k = elim k [ ]
  write-Alike true g (some c) none h k = elim k [ ]
  write-Alike true g (some c) (some c') h k = h c c' refl refl k

  hold-Alike :
      (c c' : Connection Tx) (s s' : List String)
      → SameMembers s s'
      → Alike c c'
      → Alike (record c { subscriptions = s }) (record c' { subscriptions = s' })
  hold-Alike c c' s s' same h = record {
    subject = h.subject;
    tx = h.tx;
    dropped = h.dropped;
    held = same;
  }

module _ {Tx : Type 0} ⦃mpsc : Mpsc Tx⦄ where
  after_delivery-Alike :
      (f : Frame) (c c' : Connection Tx)
      → Alike c c'
      → Alike (after_delivery f c) (after_delivery f c')
  unfolding after_delivery deliver
  after_delivery-Alike f c c' h = record {
    subject = ground (arith, h.subject, h.tx);
    tx = ground (arith, h.tx);
    dropped = ground (arith, h.tx, h.dropped);
    held = λ a. ground (arith, h.held a, h.tx);
  }

  drained-Alike : (c c' : Connection Tx) → Alike c c' → Alike (drained c) (drained c')
  unfolding drained
  drained-Alike c c' h = record {
    subject = ground (arith, h.subject, h.tx);
    tx = ground (arith, h.tx);
    dropped = ground (arith, h.tx, h.dropped);
    held = λ a. ground (arith, h.held a, h.tx);
  }

  publish-Alike :
      (ch : String) (f : Frame) (c c' : Connection Tx)
      → Alike c c'
      → Alike
          (if HashSet.contains ch c.subscriptions then after_delivery f c else c)
          (if HashSet.contains ch c'.subscriptions then after_delivery f c' else c')
  publish-Alike ch f c c' h =
      rw (h.held ch) (elim (Bool-cases (HashSet.contains ch c'.subscriptions)) [
        | inl e ↦ rw e (after_delivery-Alike f c c' h)
        | inr e ↦ rw e h
      ])

  module _ (max cap : ℕ) where
    pub entry_after-Alike :
        (x : Call) (n : ℕ) (k : ConnectionId) (o o' : Option (Connection Tx))
        → ((c : Connection Tx) → o ≡ some c → HashSet.Distinct c.subscriptions)
        → ((c : Connection Tx) → o' ≡ some c → HashSet.Distinct c.subscriptions)
        → AlikeEntry o o'
        → AlikeEntry (entry_after max cap x n k o) (entry_after max cap x n k o')
    unfolding entry_after AlikeEntry
    entry_after-Alike (join subject) n k o o' d d' h = elim (Bool-cases (n == k)) [
      | inl e ↦ rw (e) (Alike-refl (joined subject (mpsc.channel cap)))
      | inr e ↦ rw (e) h
    ]
    entry_after-Alike (leave id) n k o o' d d' h = elim (Bool-cases (id == k)) [
      | inl e ↦ rw (e) tt
      | inr e ↦ rw (e) h
    ]
    entry_after-Alike (subscribing id chs) n k o o' d d' h =
        write-Alike (id == k)
          (λ c. record c {
            subscriptions = (foldl (admit max) (admission c.subscriptions) chs).subscriptions;
          })
          o o'
          (λ c c' e e' q.
            hold-Alike c c' _ _
              (admit_all-Same max chs (admission c.subscriptions) (admission c'.subscriptions)
                (admission-Same c.subscriptions c'.subscriptions (d c e) (d' c' e') q.held)).held
              q)
          h
    entry_after-Alike (unsubscribing id chs) n k o o' d d' h =
        write-Alike (id == k)
          (λ c. record c {
            subscriptions = (foldl withdraw (withdrawal c.subscriptions) chs).subscriptions;
          })
          o o'
          (λ c c' e e' q.
            hold-Alike c c' _ _
              (withdraw_all-Same chs (withdrawal c.subscriptions) (withdrawal c'.subscriptions)
                (record { held = q.held; removed = refl })).held
              q)
          h
    entry_after-Alike (publishing ch f) n k o o' d d' h =
        write-Alike true
          (λ c. if HashSet.contains ch c.subscriptions then after_delivery f c else c) o o'
          (λ c c' e e' q. publish-Alike ch f c c' q) h
    entry_after-Alike (broadcasting f) n k o o' d d' h =
        write-Alike true (after_delivery f) o o' (λ c c' e e' q. after_delivery-Alike f c c' q) h
    entry_after-Alike (sending id f) n k o o' d d' h =
        write-Alike (id == k) (after_delivery f) o o' (λ c c' e e' q. after_delivery-Alike f c c' q)
          h
    entry_after-Alike (receiving id) n k o o' d d' h =
        write-Alike (id == k) drained o o' (λ c c' e e' q. drained-Alike c c' q) h
    entry_after-Alike (hanging_up id) n k o o' d d' h =
        write-Alike (id == k) (λ c. record c { tx = mpsc.close c.tx }) o o'
          (λ c c' e e' q. record {
            subject = q.subject;
            tx = ap mpsc.close q.tx;
            dropped = q.dropped;
            held = q.held;
          })
          h
    entry_after-Alike timing_out n k o o' d d' h = h
    entry_after-Alike refusing n k o o' d d' h = h
