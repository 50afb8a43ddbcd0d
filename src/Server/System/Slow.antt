-- ===== src/Server/System/Slow.antt =====
-- A client that is too slow, in the server of src/server.rs as a whole.
use ws_fanout.Prelude.{
  ℕ, ◌+◌, ◌≤◌, ◌<◌, ◌≡◌, refl, leb, none, some, List, ◌∷◌, arith, Bool-cases, Option-cases, inl,
  inr, nat_eq, string_eq, u64_mod,
}
use ws_fanout.Auth.{Claims}
use ws_fanout.Collections.HashMap
use ws_fanout.Mpsc.{Mpsc}
use ws_fanout.Registry.{Registry, Connection, ConnectionId}
use ws_fanout.Registry
use ws_fanout.Server.Handle.{Services}
use ws_fanout.Server.Serve.{Semaphore}
use ws_fanout.Server.Session.{
  Session, Flow, Event, Round, continue, finish, branch, check_drops, round, session,
}
use ws_fanout.Server.Session.Ends.{Over}
use ws_fanout.Server.Session.Slow.{goes_on}
use ws_fanout.Server.System.{serving, System, Action, calls, departs}
use ws_fanout.Server.System.Coherent.{IsCoherent}
use ws_fanout.Server.System.Ends.{Recurs, run_to, at-IsCoherent, Serving-Parted, Parted-out}
use ws_fanout.Server.Task.{Task, ret, ◌>>=◌, ◌>>◌}
use ws_fanout.Server.Task.Yields.{YieldsWhere, Yields-Where, Yields-all, >>=-YieldsWhere}

module _ {IoError WsError RawValue Value : Type 0}
    (services : Services IoError WsError RawValue Value) (claims : Claims Value) where
  open services use {config}

  -- So many drops that the loop ends.
  abbrev pub TooMany : ℕ → Type 0
  TooMany n = config.max_consecutive_drops ≤ n

  check_drops-Over :
      (x : Session × Flow IoError WsError)
      → YieldsWhere TooMany (Over services claims) (check_drops services claims x)
  unfolding check_drops ◌>>=◌ ◌>>◌ goes_on
  check_drops-Over (s, finish result) = refl
  check_drops-Over (s, continue) = λ n many.
      elim (Bool-cases (leb config.max_consecutive_drops n)) [
        | inl over ↦ rw over refl
        | inr few ↦ absurd (ground (arith, few, many))
      ]

  round-Over :
      (s : Session) (e : Event WsError)
      → YieldsWhere TooMany (Over services claims) (round services claims s e)
  unfolding round
  round-Over s e =
      >>=-YieldsWhere TooMany (λ _. Unit {0}) (Over services claims) (branch services claims s e)
        (check_drops services claims)
        (Yields-Where TooMany (λ _. Unit {0}) (branch services claims s e)
          (Yields-all (λ _. Unit {0}) (branch services claims s e) (λ _. tt)))
        (λ x _. check_drops-Over x)

  -- Whatever the next round is, it is the last.
  pub session-slow :
      (s : Session) (e : Event WsError) (events : List (Event WsError))
      → YieldsWhere TooMany (Over services claims) (session services claims (e ∷ events) s)
  unfolding session goes_on
  session-slow s e events =
      >>=-YieldsWhere TooMany (Over services claims) (Over services claims)
        (round services claims s e) (rest events) (round-Over s e) rest-Over
    where
      rest : List (Event WsError) → Session × Flow IoError WsError → Round IoError WsError
      rest evs r = elim r.1 [
        | continue ↦ session services claims evs r.0
        | finish result ↦ ret (r.0, finish result)
      ]

      rest-Over :
          (x : Session × Flow IoError WsError)
          → Over services claims x
          → YieldsWhere TooMany (Over services claims) (rest events x)
      rest-Over (u, continue) h = absurd (ground (arith, h))
      rest-Over (u, finish result) h = refl

module _ {Tx Sem IoError WsError RawValue Value : Type 0} ⦃mpsc : Mpsc Tx⦄
    ⦃semaphore : Semaphore Sem⦄ (services : Services IoError WsError RawValue Value)
    (next : ℕ → Action WsError) (s : System Tx Sem IoError WsError Value)
    (coherent : IsCoherent services s)
    (room : (n : ℕ) → (run_to services next s n).registry.next_id + 1 < u64_mod) (id : ConnectionId)
    (claims : Claims Value) (e : Event WsError) (events : List (Event WsError))
    (start : Session) where
  -- In an endless run of a server whose registry is valid and has the connections of its tasks at
  -- the start: a connection at the start of a round of its session, whose streak of drops is at
  -- max_consecutive_drops or above for as long as it is in the registry, is from some point on not
  -- in the registry, whatever the round is and whatever the other tasks do. Its task is scheduled
  -- again and again, so each of its waits ends, the wait for the close of the socket included, and
  -- its guard is due again and again. The next id is below 2^64 - 1 throughout.
  pub run_to-slow :
      HashMap.get id s.sessions ≡ some (serving claims (session services claims (e ∷ events) start))
      → ((n : ℕ) (c : Connection Tx)
          → HashMap.get id (run_to services next s n).registry.connections ≡ some c
          → services.config.max_consecutive_drops ≤ c.dropped)
      → Recurs next (calls id)
      → Recurs next (departs id)
      → (n : ℕ) × ((k : ℕ)
          → HashMap.get id (run_to services next s (n + k)).registry.connections ≡ none)
  unfolding run_to
  run_to-slow there slow calling departing =
      let reads : (c : Claims Value) (u : Task (Session × Flow IoError WsError)) (i : ℕ)
          → HashMap.get id (run_to services next s i).sessions ≡ some (serving c u)
          → TooMany services claims (Registry.drops (run_to services next s i).registry id) =
        λ c u i was. streak c u i was in
      let (m, q) =
        Serving-Parted services next s coherent room id (TooMany services claims) reads claims
          (session services claims (e ∷ events) start) 0 calling
          (session-slow services claims start e events) there in
      Parted-out services next s coherent room id claims
        (serving claims (session services claims (e ∷ events) start)) m there departing q
    where
      streak :
          (c : Claims Value) (u : Task (Session × Flow IoError WsError)) (i : ℕ)
          → HashMap.get id (run_to services next s i).sessions ≡ some (serving c u)
          → TooMany services claims (Registry.drops (run_to services next s i).registry id)
      streak c u i was =
          elim (Option-cases (HashMap.get id (run_to services next s i).registry.connections)) [
            | inl gone ↦
                absurd (
                  ground
                    (arith, was, gone, (at-IsCoherent services next s coherent room i).same id))
            | inr (conn, h) ↦ unfold Registry.drops in ground (arith, h, slow i conn h)
          ]
