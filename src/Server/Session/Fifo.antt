-- ===== src/Server/Session/Fifo.antt =====
-- Rounds of src/server.rs's `session` that take frames from the connection's queue, with other tasks
-- between any two calls.
use ws_fanout.Prelude.{
  ℕ, ◌≡◌, refl, some, List, [], ◌∷◌, ◌++◌, arith, ◌∙◌, ap, sym, nat_eq, string_eq, ==_refl,
}
use mathlib.Core.Path.{subst}
use mathlib.Core.List.{append_assoc}
use ws_fanout.Auth.{Claims}
use ws_fanout.Collections.HashMap
use ws_fanout.Mpsc.{Mpsc}
use ws_fanout.Protocol.{Frame}
use ws_fanout.Registry.{Registry, ConnectionId}
use ws_fanout.Registry.Invariant.{IsValid}
use ws_fanout.Registry.Keeps.{Keeps-IsValid}
use ws_fanout.Registry.Receiver.{receive, with_tx}
use ws_fanout.Registry.Receiver.Keeps.{with_tx-Keeps, receive-with_tx}
use ws_fanout.Registry.Stream.{
  Extends, Extends-refl, Extends-trans, waiting, queue_of, Undisturbed, Undisturbed-IsValid,
  Undisturbed-Extends,
}
use ws_fanout.Server.Handle.{Services}
use ws_fanout.Server.Session.{Write, Event, outbound, Session, continue, round}
use ws_fanout.Server.Session.Slow.{goes_on}
use ws_fanout.Server.Session.Stream.{texts, taken, After, round-Wrote}
use ws_fanout.Server.Task.{Among}
use ws_fanout.Server.Task.Yields.{Among-Yields, Among-Onwards}

regroup : (a b c d : List Frame) → a ++ b ++ (c ++ d) ≡ a ++ (b ++ c) ++ d
regroup a b c d =
    append_assoc a b (c ++ d)
    ∙ ap (λ x. a ++ x) (sym (append_assoc b c d))
    ∙ sym (append_assoc a (b ++ c) d)

-- The same beginning before both.
Extends-behind : (a fs gs : List Frame) → Extends fs gs → Extends (a ++ fs) (a ++ gs)
Extends-behind a fs gs (new, e) = (new, ap (λ x. a ++ x) e ∙ sym (append_assoc a fs new))

module _ {Tx : Type 0} ⦃mpsc : Mpsc Tx⦄ where
  head-recv :
      (t u : Tx) (f : Frame) (fs : List Frame)
      → mpsc.recv t ≡ some (f, u)
      → mpsc.queued t ≡ fs
      → fs ≡ f ∷ mpsc.queued u
  head-recv t u f [] e q = absurd (ground (arith, mpsc.recv_empty t q))
  head-recv t u f (g ∷ fs) e q =
      let (u', got, rest, _, _) = mpsc.recv_next t g fs q in ground (arith, got, rest, e)

  receive-queue_of :
      (r s : Registry Tx) (id : ConnectionId) (f : Frame)
      → receive r id ≡ some (f, s)
      → IsValid r
      → IsValid s × (queue_of id r ≡ f ∷ queue_of id s)
  unfolding waiting with_tx
  receive-queue_of r s id f e v =
      let (c, t, known, got, w) = receive-with_tx r s id f e in
      (
        subst IsValid (sym w) (Keeps-IsValid r (with_tx r id c t) (with_tx-Keeps r id c t known) v),
        ground (
          arith,
          known,
          w,
          head-recv c.tx t f (mpsc.queued c.tx) got refl,
          HashMap.get-insert id id (record c { tx = t }) r.connections,
          ==_refl id,
        ),
      )

  -- What is on the wire, and then what waits.
  abbrev pub stream : ConnectionId → Session → Registry Tx → List Frame
  stream id s r = texts s.wire ++ queue_of id r

module _ {IoError WsError RawValue Value : Type 0} {Tx : Type 0} ⦃mpsc : Mpsc Tx⦄
    (services : Services IoError WsError RawValue Value) (claims : Claims Value) (id : ConnectionId)
    (max cap : ℕ) where
  -- The round between the others' calls, after which the loop goes on.
  abbrev pub Goes : Event WsError → Session → Registry Tx → Session → Registry Tx → Type 0
  Goes e s r s' r' =
      Among (Undisturbed max cap id) id max (round services claims s e) r r' (s', continue)

  -- Any number of rounds: a frame that a round writes is the next of the queue.
  pub data Rounds (s : Session) (r : Registry Tx) : Session → Registry Tx → Type 0 where
    start : Rounds s r s r
    other_round :
        {s1 s2 : Session} {r1 r2 : Registry Tx}
        → Rounds s r s1 r1
        → (e : Event WsError) → taken e ≡ []
        → Goes e s1 r1 s2 r2
        → Rounds s r s2 r2
    outbound_round :
        {s1 s2 : Session} {r1 m m' r2 : Registry Tx} {f : Frame}
        → Rounds s r s1 r1
        → Undisturbed max cap id r1 m
        → receive m id ≡ some (f, m')
        → (w : Write WsError) → Goes (outbound (some f) w) s1 m' s2 r2
        → Rounds s r s2 r2

  Goes-wire :
      (e : Event WsError) (s s' : Session) (r r' : Registry Tx)
      → Goes e s r s' r'
      → texts s'.wire ≡ texts s.wire ++ taken e
  unfolding goes_on
  Goes-wire e s s' r r' g =
      Among-Yields id max (Undisturbed max cap id) (After services claims s (taken e))
        (round services claims s e) r r' (s', continue) (round-Wrote services claims s e) g refl

  -- The wire gets what the queue has lost.
  Goes-Extends :
      (e : Event WsError) (s s' : Session) (r r' : Registry Tx)
      → IsValid r
      → Goes e s r s' r'
      → IsValid r' × Extends (texts s.wire ++ (taken e ++ queue_of id r)) (stream id s' r')
  Goes-Extends e s s' r r' v g =
      let (w, (new, q)) =
        Among-Onwards max cap id (round services claims s e) r r' (s', continue) v g in
      (
        w,
        (
          new,
          ap (λ x. x ++ queue_of id r') (Goes-wire e s s' r r' g)
              ∙ ap (λ x. texts s.wire ++ taken e ++ x) q
              ∙ regroup (texts s.wire) (taken e) (queue_of id r) new,
        ),
      )

  -- In a valid registry, after any number of rounds of a session after which its loop goes on,
  -- with any calls of others between any two calls that leave the receiving end of its queue alone
  -- and do not remove the connection: the registry is valid, and the texts on the wire followed by
  -- the frames in the queue are what they were, in the same order, with any new ones behind. Ids
  -- are taken not to run out.
  pub Rounds-Extends :
      (s : Session) (r : Registry Tx) {s' : Session} {r' : Registry Tx}
      → IsValid r
      → Rounds s r s' r'
      → IsValid r' × Extends (stream id s r) (stream id s' r')
  unfolding taken
  Rounds-Extends s r v start = (v, Extends-refl (stream id s r))
  Rounds-Extends s r v (other_round {s1 = s1} {s2 = s2} {r1 = r1} {r2 = r2} before e nothing g) =
      let (v1, x) = Rounds-Extends s r v before in
      let (v2, y) = Goes-Extends e s1 s2 r1 r2 v1 g in
      (
        v2,
        Extends-trans (stream id s r) (stream id s1 r1) (stream id s2 r2) x (
            subst (λ fs. Extends (texts s1.wire ++ (fs ++ queue_of id r1)) (stream id s2 r2))
              nothing y),
      )
  Rounds-Extends s r v
        (outbound_round {s1 = s1} {s2 = s2} {r1 = r1} {m = m} {m' = m'} {r2 = r2} {f = f} before o
          got w g) =
      let (v1, x) = Rounds-Extends s r v before in
      let (vm, head) = receive-queue_of m m' id f got (Undisturbed-IsValid max cap id o v1) in
      let (v2, z) = Goes-Extends (outbound (some f) w) s1 s2 m' r2 vm g in
      let y =
        Extends-behind (texts s1.wire) (queue_of id r1) (queue_of id m)
          (Undisturbed-Extends max cap id o v1) in
      (
        v2,
        Extends-trans (stream id s r) (stream id s1 m) (stream id s2 r2)
            (Extends-trans (stream id s r) (stream id s1 r1) (stream id s1 m) x y)
            (subst (λ q. Extends (texts s1.wire ++ q) (stream id s2 r2)) (sym head) z),
      )
