-- ===== src/Server/Session/Stuck.antt =====
-- A client that is too slow for the loop of src/server.rs's `session`.
use ws_fanout.Prelude.{
  ℕ, ◌+◌, ◌-◌, ◌≤◌, ◌<◌, ◌≡◌, refl, true, false, none, some, String, List, arith, leb, ltb, length,
  Bool-cases, inl, inr, ◌∙◌, ap, nat_eq, string_eq, u64_mod,
}
use ws_fanout.Auth.{Claims}
use ws_fanout.Protocol.{Frame}
use ws_fanout.Mpsc.{Mpsc}
use ws_fanout.Collections.HashMap
use ws_fanout.Mpsc.{full}
use ws_fanout.Registry.{Registry, Connection, ConnectionId}
use ws_fanout.Registry.Counters.{count_timeout}
use ws_fanout.Registry.Deliver.{verdict}
use ws_fanout.Registry.Full.{publish_all, publish_all-dropped}
use ws_fanout.Registry.Invariant.{IsValid}
use ws_fanout.Registry.Subscriptions.{holds}
use ws_fanout.Registry
use ws_fanout.Server.Handle.{Services}
use ws_fanout.Server.Session.{
  Write, Event, outbound, inbound, tick, Session, Flow, continue, finish, on_outbound, on_tick,
  branch, check_drops, round,
}
use ws_fanout.Server.Session.Ends.{IsQuiet}
use ws_fanout.Server.Session.Slow.{goes_on, round-fast, round-parts}
use ws_fanout.Server.Task.{run, ◌>>=◌, ◌>>◌}

module _ {IoError WsError RawValue Value : Type 0} {Tx : Type 0} ⦃mpsc : Mpsc Tx⦄
    (services : Services IoError WsError RawValue Value) (claims : Claims Value) (id : ConnectionId)
    (max : ℕ) where
  open services use {config}

  check_drops-registry :
      (x : Session × Flow IoError WsError) (r : Registry Tx)
      → (run id max (check_drops services claims x) r).0 ≡ r
  unfolding check_drops run ◌>>=◌ ◌>>◌
  check_drops-registry (s, continue) r =
      elim (Bool-cases (leb config.max_consecutive_drops (Registry.drops r id))) [
        | inl many ↦ rw (many, run) refl
        | inr few ↦ rw (few, run) refl
      ]
  check_drops-registry (s, finish result) r = refl

  tick-drops :
      (s : Session) (now : ℕ) (w : Write WsError) (r : Registry Tx)
      → Registry.drops (run id max (on_tick services claims s now w) r).0 id ≡ Registry.drops r id
  unfolding on_tick run ◌>>=◌ ◌>>◌ count_timeout Registry.drops
  tick-drops s now w r = elim (Bool-cases (ltb config.heartbeat_timeout (now - s.last_seen))) [
    | inl late ↦ rw (late, on_tick) refl
    | inr heard ↦ rw (heard, on_tick) refl
  ]

  branch-drops :
      (s : Session) (e : Event WsError) (r : Registry Tx)
      → IsQuiet e
      → Registry.drops (run id max (branch services claims s e) r).0 id ≡ Registry.drops r id
  unfolding branch on_outbound run
  branch-drops s (outbound none w) r q = refl
  branch-drops s (outbound (some frame) w) r q = refl
  branch-drops s (inbound i now w) r q = elim q [ ]
  branch-drops s (tick now w) r q = tick-drops s now w r

  round-drops :
      (s : Session) (e : Event WsError) (r : Registry Tx)
      → IsQuiet e
      → Registry.drops (run id max (round services claims s e) r).0 id ≡ Registry.drops r id
  round-drops s e r q =
      let x = run id max (branch services claims s e) r in
      ap (λ y. Registry.drops y.0 id) (round-parts services claims id max s e r)
      ∙ ap (λ y. Registry.drops y id) (check_drops-registry x.1 x.0)
      ∙ branch-drops s e r q

  -- For a connection of a valid registry whose queue is open and full, if so many frames are
  -- published on one of its channels that they reach max_consecutive_drops and the streak stays
  -- below 2^64, a round of the session's loop in which nothing comes from the client, with no
  -- other task in between, does not go on with the loop, where the close of the socket, for which
  -- the round waits, comes to an end.
  pub round-slow :
      (s : Session) (e : Event WsError) (ch : String) (fs : List Frame) (r : Registry Tx)
      (c : Connection Tx)
      → IsValid r
      → HashMap.get id r.connections ≡ some c
      → holds r id ch ≡ true
      → verdict c.tx ≡ full
      → c.dropped + length fs < u64_mod
      → config.max_consecutive_drops ≤ length fs
      → IsQuiet e
      → goes_on (run id max (round services claims s e) (publish_all ch fs r)).1.1 ≡ false
  round-slow s e ch fs r c v known held stuck fits many quiet =
      elim (Bool-cases
        (goes_on (run id max (round services claims s e) (publish_all ch fs r)).1.1)) [
          | inl goes ↦ absurd (
              omega (
                arith,
                many,
                round-fast services claims id max s e (publish_all ch fs r) goes,
                round-drops s e (publish_all ch fs r) quiet,
                dropped,
              ))
          | inr ends ↦ ends
        ]
    where
      dropped : Registry.drops (publish_all ch fs r) id ≡ c.dropped + length fs
      dropped =
          unfold Registry.drops in
          rw (publish_all-dropped ch fs r id c v known held stuck fits, Registry.drops) refl
