-- ===== src/Server/System/Ends.antt =====
-- The end of a connection in the server of src/server.rs, where its task is scheduled again and again and
-- the others do what they like.
use ws_fanout.Prelude.{
  ℕ, zero, suc, ◌+◌, ◌-◌, ◌≤◌, ◌<◌, ◌≡◌, refl, true, false, Option, List, All, none, some, arith,
  inl, inr, ◌⊎◌, ◌∙◌, ap, nat_eq, string_eq, u64_mod,
}
use ws_fanout.Auth.{Claims}
use mathlib.Core.Path.{subst}
use ws_fanout.Collections.HashMap
use ws_fanout.Mpsc.{Mpsc}
use ws_fanout.Registry.{Registry, ConnectionId}
use ws_fanout.Registry
use ws_fanout.Server.Handle.{Services}
use ws_fanout.Server.Serve.{Semaphore}
use ws_fanout.Server.Session.{Session, Flow, Event, continue, finish, session}
use ws_fanout.Server.Session.Ends.{IsQuiet, has_late, Over, session-Over}
use ws_fanout.Server.Session.Slow.{goes_on}
use ws_fanout.Server.Task.Yields.{YieldsWhere, Yields-Where}
use ws_fanout.Server.System.{
  Stage, serving, parted, System, Action, calls, departs, proceed, called, departed, enact,
}
use ws_fanout.Server.System.Calls.{call_made}
use ws_fanout.Registry.Calls.{Call, join, leave}
use ws_fanout.Server.System.Coherent.{
  IsCoherent, enact-IsCoherent, enact-ids, enact-sessions, present_after,
}
use ws_fanout.Server.System.Stages.{called-serving, departed-parted, enact-serving, enact-parted}
use ws_fanout.Server.Task.{
  Task, ret, subscribe, unsubscribe, send, drops, heartbeat_timeout, close_sink,
}

-- The action is frame_taken again and again.
abbrev pub Recurs : {WsError : Type 0} → (ℕ → Action WsError) → Action WsError → Type 0
Recurs next a = (n : ℕ) → (m : ℕ) × (n ≤ m) × (next m ≡ a)

-- What stays as it is at every step or is done with, up to any later time.
until :
    (Stays Done : ℕ → Type 0)
    → ((n : ℕ) → Stays n → Stays (suc n) ⊎ Done (suc n))
    → (k n m : ℕ) → m ≡ k + n
    → Stays n
    → Stays m ⊎ ((i : ℕ) × Done i)
until Stays Done step zero n m e h = inl (subst Stays (omega (arith, e)) h)
until Stays Done step (suc k) n zero e h = absurd (omega (arith, e))
until Stays Done step (suc k) n (suc m) e h =
    elim (until Stays Done step k n m (omega (arith, e)) h) [
      | inl still ↦ elim (step m still) [ inl again ↦ inl again | inr done ↦ inr (suc m, done) ]
      | inr done ↦ inr done
    ]

absent-present :
    (id : ConnectionId) (x : Option Call) (n : ℕ) → id < n → present_after x n id false ≡ false
unfolding present_after
absent-present id none n h = refl
absent-present id (some (join subject)) n h = ground (arith, h)
absent-present id (some (leave j)) n h = ground arith
absent-present id (some x) n h = refl

module _ {Tx Sem IoError WsError RawValue Value : Type 0} ⦃mpsc : Mpsc Tx⦄
    ⦃semaphore : Semaphore Sem⦄ (services : Services IoError WsError RawValue Value) where
  -- The first `n` actions of an endless run.
  unfoldable pub run_to :
      (ℕ → Action WsError)
      → System Tx Sem IoError WsError Value
      → ℕ
      → System Tx Sem IoError WsError Value
  run_to next s zero = s
  run_to next s (suc n) = enact services (next n) (run_to next s n)

  module _ (next : ℕ → Action WsError) (s : System Tx Sem IoError WsError Value)
      (coherent : IsCoherent services s)
      (room : (n : ℕ) → (run_to next s n).registry.next_id + 1 < u64_mod) where
    pub at-IsCoherent : (n : ℕ) → IsCoherent services (run_to next s n)
    unfolding run_to
    at-IsCoherent zero = coherent
    at-IsCoherent (suc n) =
        enact-IsCoherent services (next n) (run_to next s n) (room n) (at-IsCoherent n)

    module _ (id : ConnectionId) where
      abbrev pub Serving : Claims Value → Task (Session × Flow IoError WsError) → ℕ → Type 0
      Serving claims t n = HashMap.get id (run_to next s n).sessions ≡ some (serving claims t)

      abbrev pub Parted : Claims Value → ℕ → Type 0
      Parted claims n = HashMap.get id (run_to next s n).sessions ≡ some (parted claims)

      -- The next call has been made, or the session was dropped.
      abbrev Moved : Claims Value → Task (Session × Flow IoError WsError) → ℕ → Type 0
      Moved claims t n =
          ((i : ℕ) × Serving claims t i
            × (HashMap.get id (run_to next s n).sessions
                ≡ some (proceed services id claims t (run_to next s i).registry).1))
          ⊎ Parted claims n

      Serving-Moved :
          (claims : Claims Value) (t : Task (Session × Flow IoError WsError)) (n : ℕ)
          → Recurs next (calls id)
          → Serving claims t n
          → (m : ℕ) × Moved claims t m
      unfolding run_to enact
      Serving-Moved claims t n again e =
          let (m, late, due) = again n in
          let steps : (i : ℕ)
              → Serving claims t i
              → Serving claims t (suc i) ⊎ Moved claims t (suc i) =
            λ i still.
              elim (enact-serving services (next i) (run_to next s i) id claims t (at-IsCoherent i)
                still) [
                  | inl q ↦ inl q
                  | inr (inl q) ↦ inr (inl (i, still, q))
                  | inr (inr q) ↦ inr (inr q)
                ] in
          elim (until (Serving claims t) (Moved claims t) steps (m - n) n m (omega (arith, late))
            e) [
              | inl still ↦
                  let due_now : HashMap.get id (run_to next s (suc m)).sessions
                      ≡ HashMap.get id (called services id (run_to next s m)).sessions =
                    ap (λ a. HashMap.get id (enact services a (run_to next s m)).sessions) due in
                  (
                    suc m,
                    inl (
                      m,
                      still,
                      due_now ∙ called-serving services id claims t (run_to next s m) still,
                    ),
                  )
              | inr done ↦ done
            ]

      or_dropped :
          (claims : Claims Value) (t : Task (Session × Flow IoError WsError))
          → ((m : ℕ) × Moved claims t m)
          → ((m i : ℕ)
              → Serving claims t i
              → HashMap.get id (run_to next s m).sessions
                ≡ some (proceed services id claims t (run_to next s i).registry).1
              → (i : ℕ) × Parted claims i)
          → (i : ℕ) × Parted claims i
      or_dropped claims t (m, inl (i, was, q)) further = further m i was q
      or_dropped claims t (m, inr q) further = (m, q)

      -- A session whose loop is left, whatever the registry answers, but for the streak of drops, comes
      -- to its end.
      pub Serving-Parted :
          (R : ℕ → Type 0)
          → ((c : Claims Value) (u : Task (Session × Flow IoError WsError)) (i : ℕ)
              → Serving c u i
              → R (Registry.drops (run_to next s i).registry id))
          → (claims : Claims Value) (t : Task (Session × Flow IoError WsError)) (n : ℕ)
          → Recurs next (calls id)
          → YieldsWhere R (Over services claims) t
          → Serving claims t n
          → (m : ℕ) × Parted claims m
      unfolding proceed goes_on
      Serving-Parted R reads claims (ret (x, continue)) n again over e =
          absurd (ground (arith, over))
      Serving-Parted R reads claims (ret (x, finish result)) n again over e =
          or_dropped claims (ret (x, finish result))
            (Serving-Moved claims (ret (x, finish result)) n again e) (λ m i was q. (m, q))
      Serving-Parted R reads claims (subscribe chs k) n again over e =
          or_dropped claims (subscribe chs k) (Serving-Moved claims (subscribe chs k) n again e)
            (λ m i was q. Serving-Parted R reads claims (k _) m again (over _) q)
      Serving-Parted R reads claims (unsubscribe chs k) n again over e =
          or_dropped claims (unsubscribe chs k) (Serving-Moved claims (unsubscribe chs k) n again e)
            (λ m i was q. Serving-Parted R reads claims (k _) m again (over _) q)
      Serving-Parted R reads claims (send frame k) n again over e =
          or_dropped claims (send frame k) (Serving-Moved claims (send frame k) n again e)
            (λ m i was q. Serving-Parted R reads claims (k _) m again (over _) q)
      Serving-Parted R reads claims (drops k) n again over e =
          or_dropped claims (drops k) (Serving-Moved claims (drops k) n again e) (λ m i was q.
            Serving-Parted R reads claims (k _) m again (over _ (reads claims (drops k) i was)) q)
      Serving-Parted R reads claims (heartbeat_timeout t) n again over e =
          or_dropped claims (heartbeat_timeout t)
            (Serving-Moved claims (heartbeat_timeout t) n again e)
            (λ m i was q. Serving-Parted R reads claims t m again over q)
      Serving-Parted R reads claims (close_sink t) n again over e =
          or_dropped claims (close_sink t) (Serving-Moved claims (close_sink t) n again e)
            (λ m i was q. Serving-Parted R reads claims t m again over q)

      abbrev pub Gone : ℕ → Type 0
      Gone n = HashMap.get id (run_to next s n).sessions ≡ none

      pub Parted-Gone :
          (claims : Claims Value) (n : ℕ)
          → Recurs next (departs id)
          → Parted claims n
          → (m : ℕ) × Gone m
      unfolding run_to enact
      Parted-Gone claims n again e =
          let (m, late, due) = again n in
          let steps : (i : ℕ) → Parted claims i → Parted claims (suc i) ⊎ Gone (suc i) = λ i still.
            enact-parted services (next i) (run_to next s i) id claims (at-IsCoherent i) still in
          elim (until (Parted claims) Gone steps (m - n) n m (omega (arith, late)) e) [
            | inl still ↦
                let due_now : HashMap.get id (run_to next s (suc m)).sessions
                    ≡ HashMap.get id (departed services id (run_to next s m)).sessions =
                  ap (λ a. HashMap.get id (enact services a (run_to next s m)).sessions) due in
                (suc m, due_now ∙ departed-parted services id claims (run_to next s m) still)
            | inr done ↦ done
          ]

      ids-grow : (n : ℕ) → s.registry.next_id ≤ (run_to next s n).registry.next_id
      unfolding run_to
      ids-grow zero = omega arith
      ids-grow (suc n) =
          omega (arith, ids-grow n, enact-ids services (next n) (run_to next s n) (room n))

      pub Gone-stays : (n k m : ℕ) → m ≡ n + k → id < s.registry.next_id → Gone n → Gone m
      unfolding run_to
      Gone-stays n zero m e given h = subst Gone (omega (arith, e)) h
      Gone-stays n (suc k) zero e given h = absurd (omega (arith, e))
      Gone-stays n (suc k) (suc m) e given h =
          let t = run_to next s m in
          let before : Gone m = Gone-stays n k m (omega (arith, e)) given h in
          let absent : present_after (call_made services (next m) t) t.registry.next_id id false
              ≡ false =
            absent-present id (call_made services (next m) t) t.registry.next_id
              (omega (arith, given, ids-grow m)) in
          ground (arith, before, absent, enact-sessions services (next m) t id)

      -- A connection that was there and whose task has come to its end is out for good.
      pub Parted-out :
          (claims : Claims Value) (stage : Stage IoError WsError Value) (n : ℕ)
          → HashMap.get id s.sessions ≡ some stage
          → Recurs next (departs id)
          → Parted claims n
          → (m : ℕ) × ((k : ℕ) → HashMap.get id (run_to next s (m + k)).registry.connections ≡ none)
      unfolding run_to
      Parted-out claims stage n e departing parted_n =
          let (m, gone) = Parted-Gone claims n departing parted_n in
          let given : id < s.registry.next_id =
            ground (arith, e, coherent.same id, coherent.valid.fresh id) in
          (
            m,
            λ k.
                let after : Gone (m + k) = Gone-stays m k (m + k) refl given gone in
                ground (arith, after, (at-IsCoherent (m + k)).same id),
          )

      module _ (claims : Claims Value) (events : List (Event WsError)) (start : Session) where
        -- In an endless run of a server whose registry is valid and has the connections of its
        -- tasks at the start: a connection in its session, from whose client nothing comes and one
        -- of whose heartbeats falls later than heartbeat_timeout after the client was last heard
        -- from, is from some point on not in the registry, whatever the other tasks do. Its task
        -- is scheduled again and again, so each of its waits ends, the wait for the close of the
        -- socket included, and its guard is due again and again. The next id is below 2^64 - 1
        -- throughout.
        pub run_to-silent :
            HashMap.get id s.sessions ≡ some (serving claims (session services claims events start))
            → All IsQuiet events
            → has_late services.config.heartbeat_timeout start.last_seen events ≡ true
            → Recurs next (calls id)
            → Recurs next (departs id)
            → (n : ℕ) × ((k : ℕ)
                → HashMap.get id (run_to next s (n + k)).registry.connections ≡ none)
        unfolding run_to
        run_to-silent e quiet late calling departing =
            let over = session-Over services claims events start quiet late in
            let (m, q) =
              Serving-Parted (λ _. Unit {0}) (λ c u i was. tt) claims
                (session services claims events start) 0 calling
                (Yields-Where (λ _. Unit {0}) (Over services claims)
                  (session services claims events start) over)
                e in
            Parted-out claims (serving claims (session services claims events start)) m e departing
              q
