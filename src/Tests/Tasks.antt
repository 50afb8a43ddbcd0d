-- ===== src/Tests/Tasks.antt =====
-- The tasks of src/server.rs on the small registry.
use ws_fanout.Prelude.{
  ℕ, suc, ◌+◌, ◌-◌, ◌*◌, ◌%◌, ◌<◌, ◌≡◌, ◌≢◌, ◌↔◌, refl, Bool, true, false, ◌||◌, ◌&&◌, not, Option,
  none, some, String, List, [], ◌∷◌, ◌++◌, map, foldl, arith, Eq, ◌==◌, leb, ltb, if◌then◌else◌,
  length, is_empty, All, Bool-cases, Option-cases, inl, inr, ◌⊎◌, ◌∙◌, ap, sym, nat_eq, string_eq,
  wrapping_add, wrapping_sub, u64_mod, wrapping_add_exact, wrapping_add-lt, ==_refl, ==_iff,
  ==_comm, Result, ok, err, Result-cases, filter_b, filter_b-All, All-filter_b, partition, Bool-ext,
  All-append, length-append,
}
use mathlib.Core.Option
use Prim.Native.String.{len}
use ws_fanout.Auth.{Claims}
use ws_fanout.Collections.HashMap
use ws_fanout.Collections.HashSet
use ws_fanout.Protocol.{ClientMessage, ServerMessage, Rejected, Serde, Frame, Message, to_frame}
use ws_fanout.Protocol
use ws_fanout.Registry.{Registry, Connection, add, subscribe, admit, link}
use ws_fanout.Registry
use ws_fanout.Registry.Deliveries
use ws_fanout.Registry.Index.{subscribed}
use ws_fanout.Registry.Reach.{Steps}
use ws_fanout.Registry.Subscriptions.{holds}
use ws_fanout.Server.Config.{Config, default, validate, IsAccepted, validate-IsAccepted}
use ws_fanout.Server.Connection.{Peer, Handshake, First, Sent, connection}
use ws_fanout.Server.Connection.Validated.{Vouches, connection-Vouches}
use ws_fanout.Server.Connection.Lifecycle.{Restored, connection-Restored}
use ws_fanout.Server.Handle.{Services, rejections, sized, allowed, handle_subscribe}
use ws_fanout.Server.Handle.Acknowledges.{
  answer, acknowledgement, names, snapshot_frames, after_deliveries, subscribe-acknowledges,
  handle_subscribe-get,
}
use ws_fanout.Server.Handle.Again.{empty_acknowledgement, resubscribe-silent}
use ws_fanout.Server.Handle.Overtakes.{overtakes, PublishesOnce}
use ws_fanout.Server.Handle.Permits.{Permitted}
use ws_fanout.Server.Session.{Event, Inbound, Write, Session, session}
use ws_fanout.Server.Session.Among.{Foreign, session-Among}
use ws_fanout.Server.Task.{Among, Exec-Steps, run, run-Exec, run-Among}
use ws_fanout.Snapshot.{LastValue, snapshot, record_last, latest, snapshot-record}
use ws_fanout.Tests.Queue.{Chan, chan_mpsc}
use ws_fanout.Tests.Services.{services, claims, request, events, at_start, bob, bob_there}
use ws_fanout.Tests.Sample.{hello, pair, pair-IsValid}

session_subscribes :
    holds
      (run 2 services.config.max_subscriptions (session services claims events at_start) pair).0
      2
      "a"
    ≡ true
unfolding run session subscribed HashMap.get ws_fanout.Server.Session.round
    ws_fanout.Server.Handle.handle string_eq ws_fanout.Server.Handle.send_snapshots subscribe nat_eq
    ws_fanout.Prelude.ℕ_discrete partition admit HashSet.contains Registry.drops Deliveries.send
    HashMap.insert Deliveries.deliver chan_mpsc HashSet.insert filter_b wrapping_add
    Protocol.to_frame link allowed ws_fanout.Server.Handle.dispatch handle_subscribe
    ws_fanout.Server.Handle.rejections sized ws_fanout.Server.Session.branch
    ws_fanout.Server.Session.check_drops ws_fanout.Server.Session.on_inbound
    ws_fanout.Server.Session.on_message ws_fanout.Server.Session.reply ws_fanout.Server.Task.◌>>=◌
    ws_fanout.Server.Task.◌>>◌ ws_fanout.Tests.Queue.chan_try_send
session_subscribes = refl

session-Among_example : (holds pair 2 "a" ≡ true) ⊎ Permitted services claims "a"
session-Among_example =
    session-Among services claims 2 events at_start pair
      (run 2 services.config.max_subscriptions (session services claims events at_start) pair).0
      (run 2 services.config.max_subscriptions (session services claims events at_start) pair).1 "a"
      pair-IsValid
      (run-Among (Foreign services.config.max_subscriptions services.config.send_queue 2)
        (λ r. Foreign.stay) 2 services.config.max_subscriptions
        (session services claims events at_start) pair)
      session_subscribes

abbrev peer : Peer String
peer = record {
  handshake = Handshake.upgraded;
  first = First.received (Message.text "auth");
  answer = Sent.delivered;
  started = 0;
  events = events;
}

connection-Vouches_example :
    ((connection services peer pair).0 ≡ pair)
    ⊎ ((c : Claims String) × Vouches services peer.first c)
connection-Vouches_example = connection-Vouches services peer pair

connection-Restored_example : Restored pair (connection services peer pair).0
connection-Restored_example = connection-Restored services peer pair (omega arith) pair-IsValid

subscribe-acknowledges_example :
    let after =
      (run 2 services.config.max_subscriptions (handle_subscribe services claims request) pair).0 in
    (added : List String) × (refused : List Rejected) × (s : HashSet.HashSet String) × (HashMap.get
        2 after.connections
      ≡ some (
          after_deliveries
            (to_frame services.serde (ServerMessage.subscribed added refused)
              ∷ snapshot_frames services claims added)
            (record bob { subscriptions = s })))
    × (holds after 2 "a" ≡ (
        holds pair 2 "a"
        || (HashSet.contains {A = String} "a" request
            && not (HashSet.contains {A = String} "a" (names refused)))))
    × ((not (holds pair 2 "a") && holds after 2 "a") ≡ HashSet.contains {A = String} "a" added)
subscribe-acknowledges_example =
    subscribe-acknowledges services claims pair 2 request bob "a" pair-IsValid bob_there

handle_subscribe-get_example :
    HashMap.get 2
      (run 2 services.config.max_subscriptions
        (handle_subscribe services claims request)
        pair).0.connections
    ≡ Option.map
        (after_deliveries (
          acknowledgement services claims pair 2 request
          ∷ snapshot_frames services claims (answer services claims pair 2 request).1))
        (HashMap.get 2 (answer services claims pair 2 request).0.connections)
handle_subscribe-get_example = handle_subscribe-get services claims pair 2 request

held_already : holds pair 1 "a" ≡ true
unfolding subscribed HashMap.get HashSet.contains nat_eq string_eq ws_fanout.Prelude.ℕ_discrete
held_already = refl

resubscribe-silent_example :
    (HashMap.get 1
        (run 1 services.config.max_subscriptions
          (handle_subscribe services claims ("a" ∷ []))
          pair).0.connections
      ≡ Option.map
          (after_deliveries (empty_acknowledgement services claims pair 1 ("a" ∷ []) ∷ []))
          (HashMap.get 1 (answer services claims pair 1 ("a" ∷ [])).0.connections))
    × (HashSet.contains {A = String} "b" (
          names (
            rejections
              (sized services ("a" ∷ [])).1
              (allowed services claims (sized services ("a" ∷ [])).0).1
              []))
        ≡ (HashSet.contains {A = String} "b" ("a" ∷ [])
            && not
                (leb (len "b") services.config.max_channel_len && services.authorizer claims "b")))
resubscribe-silent_example =
    resubscribe-silent services claims pair 1 ("a" ∷ []) "b" (held_already, tt)

added_a : HashSet.contains {A = String} "a" (answer services claims pair 2 request).1 ≡ true
unfolding sized allowed partition filter_b Registry.subscribe admit HashMap.get HashSet.contains
    nat_eq string_eq ws_fanout.Prelude.ℕ_discrete
added_a = refl

overtakes_example :
    (holds pair 2 "a" ≡ false)
    × (s : Registry Chan) × (c' : Connection Chan) × (rest : List Frame) × Among
        (PublishesOnce services claims pair 2 request "a" hello)
        2
        services.config.max_subscriptions
        (handle_subscribe services claims request)
        pair
        s
        none
    × (HashMap.get 2 s.connections ≡ some c')
    × (c'.tx.items ≡ hello ∷ acknowledgement services claims pair 2 request ∷ rest)
unfolding chan_mpsc
overtakes_example =
    overtakes services claims pair 2 request "a" hello bob pair-IsValid bob_there added_a refl
      (omega arith)

Exec-Steps_example : Steps 2 4 pair (run 2 2 (handle_subscribe services claims request) pair).0
Exec-Steps_example =
    Exec-Steps 2 2 4 (handle_subscribe services claims request) pair
      (run 2 2 (handle_subscribe services claims request) pair).0
      (run 2 2 (handle_subscribe services claims request) pair).1
      (run-Exec 2 2 4 (handle_subscribe services claims request) pair)

validate-IsAccepted_example :
    (validate {IoError = String} {WsError = String} 20000 default ≡ ok tt)
    ↔ IsAccepted 20000 default
validate-IsAccepted_example = validate-IsAccepted 20000 default

-- A queue that is longer than the semaphore's limit.
abbrev long_queue : Config
long_queue = record default { send_queue = 20001 }

snapshot-record_example :
    snapshot
      (foldl
        (λ (t : LastValue ℕ) (e : String × ℕ). record_last t e.0 e.1)
        (record { last = [] })
        (("a", 1) ∷ ("a", 2) ∷ []))
      "a"
    ≡ latest (snapshot (record { last = [] }) "a") "a" (("a", 1) ∷ ("a", 2) ∷ [])
snapshot-record_example = snapshot-record (record { last = [] }) (("a", 1) ∷ ("a", 2) ∷ []) "a"
