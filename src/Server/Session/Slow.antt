-- ===== src/Server/Session/Slow.antt =====
-- When the loop of src/server.rs's `session` goes on.
use ws_fanout.Prelude.{
  ℕ, ◌-◌, ◌≤◌, ◌<◌, ◌≡◌, refl, Bool, true, false, arith, ltb, ◌∙◌, ap, sym, nat_eq, string_eq,
}
use ws_fanout.Auth.{Claims}
use ws_fanout.Mpsc.{Mpsc}
use ws_fanout.Registry.{Registry, ConnectionId}
use ws_fanout.Registry
use ws_fanout.Server.Handle.{Services}
use ws_fanout.Server.Session.{
  Write, Event, tick, Session, Flow, continue, finish, on_tick, branch, check_drops, round,
}
use ws_fanout.Server.Task.{run, ◌>>=◌, ◌>>◌}
use ws_fanout.Server.Task.Runs.{run->>=}

-- Whether the loop goes on.
unfoldable pub goes_on : {IoError WsError : Type 0} → Flow IoError WsError → Bool
goes_on continue = true
goes_on (finish result) = false

module _ {IoError WsError RawValue Value : Type 0} {Tx : Type 0} ⦃mpsc : Mpsc Tx⦄
    (services : Services IoError WsError RawValue Value) (claims : Claims Value) (id : ConnectionId)
    (max : ℕ) where
  open services use {config}

  check_drops-fast :
      (x : Session × Flow IoError WsError) (r : Registry Tx)
      → goes_on (run id max (check_drops services claims x) r).1.1 ≡ true
      → (goes_on x.1 ≡ true)
        × (Registry.drops (run id max (check_drops services claims x) r).0 id
            < config.max_consecutive_drops)
  unfolding check_drops run goes_on
  check_drops-fast (s, finish result) r h = absurd (ground (arith, h))
  check_drops-fast (s, continue) r h = (refl, ground (arith, h))

  tick-late :
      (s : Session) (now : ℕ) (w : Write WsError) (r : Registry Tx)
      → ltb config.heartbeat_timeout (now - s.last_seen) ≡ true
      → goes_on (run id max (on_tick services claims s now w) r).1.1 ≡ false
  unfolding on_tick run goes_on ◌>>=◌ ◌>>◌
  tick-late s now w r late = rw (late, on_tick) refl

  branch-heard :
      (s : Session) (now : ℕ) (w : Write WsError) (r : Registry Tx)
      → goes_on (run id max (branch services claims s (tick now w)) r).1.1 ≡ true
      → now - s.last_seen ≤ config.heartbeat_timeout
  unfolding branch
  branch-heard s now w r h = ground (arith, h, tick-late s now w r)

  -- A round is the branch that was taken, and the test behind it.
  pub round-parts :
      (s : Session) (e : Event WsError) (r : Registry Tx)
      → let x = run id max (branch services claims s e) r in
        run id max (round services claims s e) r ≡ run id max (check_drops services claims x.1) x.0
  unfolding round
  round-parts s e r = run->>= id max (branch services claims s e) (check_drops services claims) r

  round-checked :
      (s : Session) (e : Event WsError) (r : Registry Tx)
      → goes_on (run id max (round services claims s e) r).1.1 ≡ true
      → (goes_on (run id max (branch services claims s e) r).1.1 ≡ true)
        × (Registry.drops (run id max (round services claims s e) r).0 id
            < config.max_consecutive_drops)
  round-checked s e r h =
      let x = run id max (branch services claims s e) r in
      let q = check_drops-fast x.1 x.0 (ap (λ y. goes_on y.1.1) (sym (round-parts s e r)) ∙ h) in
      (q.0, rw (round-parts s e r) q.1)

  -- If the session's loop goes on after a round that ran with no other task in between, the
  -- connection's streak of drops is below max_consecutive_drops.
  pub round-fast :
      (s : Session) (e : Event WsError) (r : Registry Tx)
      → goes_on (run id max (round services claims s e) r).1.1 ≡ true
      → Registry.drops (run id max (round services claims s e) r).0 id
        < config.max_consecutive_drops
  round-fast s e r h = (round-checked s e r h).1

  -- If the session's loop goes on after a heartbeat, the client was heard from within
  -- heartbeat_timeout.
  pub round-heard :
      (s : Session) (now : ℕ) (w : Write WsError) (r : Registry Tx)
      → goes_on (run id max (round services claims s (tick now w)) r).1.1 ≡ true
      → now - s.last_seen ≤ config.heartbeat_timeout
  round-heard s now w r h = branch-heard s now w r (round-checked s (tick now w) r h).0
