-- ===== src/Server/System/Foreign.antt =====
-- What a call on the registry of src/registry.rs leaves of a connection that it is not made for.
use ws_fanout.Prelude.{
  ℕ, ◌≡◌, refl, true, false, Option, none, some, String, arith, ◌==◌, if◌then◌else◌, ◌∙◌, ap, sym,
  nat_eq, string_eq,
}
use mathlib.Core.Option
use ws_fanout.Collections.HashMap
use ws_fanout.Mpsc.{Mpsc}
use ws_fanout.Registry.{Registry, Connection, ConnectionId}
use ws_fanout.Registry.Calls.{
  Call, join, leave, subscribing, unsubscribing, publishing, broadcasting, sending, receiving,
  hanging_up, timing_out, refusing, perform, entry_after, drained,
}
use ws_fanout.Registry.Calls.Entries.{perform-get, received-Keeps}
use ws_fanout.Registry.Invariant.{IsValid}
use ws_fanout.Registry.Keeps.{
  Keeps-holds, send-Keeps, publish-Keeps, broadcast-Keeps, count_timeout-Keeps, count_refused-Keeps,
}
use ws_fanout.Registry.Queues.{deliver-fixed}
use ws_fanout.Registry.Receiver.Keeps.{hang_up-Keeps}
use ws_fanout.Registry.Subscriptions.{holds, subscribe-holds, unsubscribe-holds, remove-holds}
use ws_fanout.Server.Connection.Lifecycle.{add-holds}
use ws_fanout.Server.System.Calls.{performed}

-- The call neither joins as the connection, nor takes it out, nor subscribes for it, where the next id is `n`.
unfoldable pub IsForeign : Option Call → ℕ → ConnectionId → Type 0
IsForeign (some (join subject)) n j = (n == j) ≡ false
IsForeign (some (leave id)) n j = (id == j) ≡ false
IsForeign (some (subscribing id chs)) n j = (id == j) ≡ false
IsForeign _ n j = Unit {0}

abbrev pub subject_at : {Tx : Type 0} → Registry Tx → ConnectionId → Option String
subject_at r j = Option.map (λ c. c.subject) (HashMap.get j r.connections)

-- The subject of a connection after a call, from the one before.
unfoldable pub subject_after : Call → ℕ → ConnectionId → Option String → Option String
subject_after (join subject) n j o = if n == j then some subject else o
subject_after (leave id) n j o = if id == j then none else o
subject_after _ n j o = o

foreign-subject :
    (x : Call) (n : ℕ) (j : ConnectionId) (o : Option String)
    → IsForeign (some x) n j
    → subject_after x n j o ≡ o
unfolding IsForeign subject_after
foreign-subject (join subject) n j o q = ground (arith, q)
foreign-subject (leave id) n j o q = ground (arith, q)
foreign-subject (subscribing id chs) n j o q = refl
foreign-subject (unsubscribing id chs) n j o q = refl
foreign-subject (publishing ch f) n j o q = refl
foreign-subject (broadcasting f) n j o q = refl
foreign-subject (sending id f) n j o q = refl
foreign-subject (receiving id) n j o q = refl
foreign-subject (hanging_up id) n j o q = refl
foreign-subject timing_out n j o q = refl
foreign-subject refusing n j o q = refl

module _ {Tx : Type 0} ⦃mpsc : Mpsc Tx⦄ (max cap : ℕ) where
  perform-holds :
      (x : Call) (r : Registry Tx) (j : ConnectionId) (d : String)
      → IsForeign (some x) r.next_id j
      → IsValid r
      → holds (perform max cap x r) j d ≡ true
      → holds r j d ≡ true
  unfolding IsForeign perform
  perform-holds (join subject) r j d q v h =
      ground (arith, h, q, add-holds r subject (mpsc.channel cap) j d)
  perform-holds (leave id) r j d q v h = ground (arith, h, remove-holds r id j d)
  perform-holds (subscribing id chs) r j d q v h =
      ground (arith, h, q, subscribe-holds r id j chs max d v)
  perform-holds (unsubscribing id chs) r j d q v h =
      ground (arith, h, unsubscribe-holds r id j chs d)
  perform-holds (publishing ch f) r j d q v h = sym (Keeps-holds r _ j d (publish-Keeps r ch f)) ∙ h
  perform-holds (broadcasting f) r j d q v h = sym (Keeps-holds r _ j d (broadcast-Keeps r f)) ∙ h
  perform-holds (sending id f) r j d q v h = sym (Keeps-holds r _ j d (send-Keeps r id f)) ∙ h
  perform-holds (receiving id) r j d q v h = sym (Keeps-holds r _ j d (received-Keeps r id)) ∙ h
  perform-holds (hanging_up id) r j d q v h = sym (Keeps-holds r _ j d (hang_up-Keeps r id)) ∙ h
  perform-holds timing_out r j d q v h = sym (Keeps-holds r _ j d (count_timeout-Keeps r)) ∙ h
  perform-holds refusing r j d q v h = sym (Keeps-holds r _ j d (count_refused-Keeps r)) ∙ h

  drained-subject : (c : Connection Tx) → (drained c).subject ≡ c.subject
  unfolding drained
  drained-subject c = ground arith

  entry_after-subject :
      (x : Call) (n : ℕ) (k : ConnectionId) (o : Option (Connection Tx))
      → Option.map (λ (c : Connection Tx). c.subject) (entry_after max cap x n k o)
        ≡ subject_after x n k (Option.map (λ (c : Connection Tx). c.subject) o)
  unfolding entry_after subject_after
  entry_after-subject (join subject) n k o = ground arith
  entry_after-subject (leave id) n k o = ground arith
  entry_after-subject (subscribing id chs) n k o = ground arith
  entry_after-subject (unsubscribing id chs) n k o = ground arith
  entry_after-subject (publishing ch f) n k none = refl
  entry_after-subject (publishing ch f) n k (some c) = ground (arith, deliver-fixed c f)
  entry_after-subject (broadcasting f) n k none = refl
  entry_after-subject (broadcasting f) n k (some c) = ground (arith, deliver-fixed c f)
  entry_after-subject (sending id f) n k none = ground arith
  entry_after-subject (sending id f) n k (some c) = ground (arith, deliver-fixed c f)
  entry_after-subject (receiving id) n k none = ground arith
  entry_after-subject (receiving id) n k (some c) = ground (arith, drained-subject c)
  entry_after-subject (hanging_up id) n k o = ground arith
  entry_after-subject timing_out n k o = refl
  entry_after-subject refusing n k o = refl

  pub perform-subject :
      (x : Call) (r : Registry Tx) (j : ConnectionId)
      → IsValid r
      → subject_at (perform max cap x r) j ≡ subject_after x r.next_id j (subject_at r j)
  perform-subject x r j v =
      ap (Option.map (λ (c : Connection Tx). c.subject)) (perform-get max cap x r j v)
      ∙ entry_after-subject x r.next_id j (HashMap.get j r.connections)

  pub performed-holds :
      (x : Option Call) (r : Registry Tx) (j : ConnectionId) (d : String)
      → IsForeign x r.next_id j
      → IsValid r
      → holds (performed max cap x r) j d ≡ true
      → holds r j d ≡ true
  unfolding performed
  performed-holds none r j d q v h = h
  performed-holds (some x) r j d q v h = perform-holds x r j d q v h

  pub performed-subject :
      (x : Option Call) (r : Registry Tx) (j : ConnectionId)
      → IsForeign x r.next_id j
      → IsValid r
      → subject_at (performed max cap x r) j ≡ subject_at r j
  unfolding performed
  performed-subject none r j q v = refl
  performed-subject (some x) r j q v =
      perform-subject x r j v ∙ foreign-subject x r.next_id j (subject_at r j) q
