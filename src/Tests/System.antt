-- ===== src/Tests/System.antt =====
-- A server of src/server.rs with one client, who subscribes and goes away.
use ws_fanout.Prelude.{
  ℕ, zero, suc, ◌+◌, ◌-◌, ◌*◌, ◌%◌, ◌≤◌, ◌<◌, ◌≡◌, ◌≢◌, ◌↔◌, refl, Bool, true, false, ◌||◌, ◌&&◌,
  not, Option, none, some, String, List, [], ◌∷◌, ◌++◌, map, foldl, arith, Eq, ◌==◌, leb, ltb,
  if◌then◌else◌, length, is_empty, All, Bool-cases, Option-cases, inl, inr, ◌⊎◌, ◌∙◌, ap, sym,
  nat_eq, string_eq, wrapping_add, wrapping_sub, u64_mod, wrapping_add_exact, wrapping_add-lt,
  ==_refl, ==_iff, ==_comm, Result, ok, err, Result-cases, filter_b, filter_b-All, All-filter_b,
  partition, Bool-ext, All-append, length-append,
}
use ws_fanout.Auth.{Claims}
use ws_fanout.Collections.HashMap
use ws_fanout.Collections.HashSet
use ws_fanout.Protocol.{Message}
use ws_fanout.Registry.{Registry, Connection, ConnectionId}
use ws_fanout.Registry
use ws_fanout.Registry.Calls.{leave, ids_after}
use ws_fanout.Registry.Calls.Entries.{perform-ids}
use ws_fanout.Server.Connection.{Peer, Handshake, First, Sent, opening}
use ws_fanout.Server.Handle.Permits.{Permitted}
use ws_fanout.Server.Connection.Apart.{begun}
use ws_fanout.Server.Session.{Session, Flow, Event, Inbound, Write, continue, finish, session}
use ws_fanout.Server.Session.Ends.{has_late}
use ws_fanout.Tests.Ends.{silence}
use ws_fanout.Server.System.{
  System, Action, connects, releases, opens, calls, departs, boot, serving, enact, enacts,
}
use ws_fanout.Server.System.Calls.{performed, task_call, call_made, enact-performed, stage-cases}
use ws_fanout.Server.System.Coherent.{after, IsCoherent, after-IsCoherent}
use ws_fanout.Server.System.Empty.{IsEmpty, enacts-IsEmpty}
use ws_fanout.Server.System.Ends.{Recurs, run_to, run_to-silent}
use ws_fanout.Server.System.Permits.{enacts-Permitted}
use ws_fanout.Server.System.Safe.{Opened}
use ws_fanout.Server.Task.{
  Task, ret, subscribe, unsubscribe, send, drops, heartbeat_timeout, close_sink,
}
use ws_fanout.Tests.Queue.{Chan, chan_mpsc, chan_try_send}
use ws_fanout.Tests.Services.{services, events}
use ws_fanout.Tests.Slots.{Permits, permits_semaphore}

abbrev client : Peer String
client = record {
  handshake = Handshake.upgraded;
  first = First.received (Message.text "auth");
  answer = Sent.delivered;
  started = 0;
  events = events ++ Event.inbound Inbound.ended 40 Write.written ∷ [];
}

-- The client is let in, and its request for "a" and "secret" is frame_taken.
abbrev entering : List (Action String)
entering = connects ∷ opens client ∷ calls 1 ∷ []

abbrev member : Connection Chan
member = record {
  subject = "token";
  subscriptions = "a" ∷ [];
  tx = record { items = []; limit = 4; shut = false };
  dropped = 0;
}

member_there :
    HashMap.get 1 (after Chan Permits services entering).registry.connections ≡ some member
unfolding HashMap.get enacts permits_semaphore ws_fanout.Tests.Slots.permits_try_acquire boot
    string_eq HashMap.insert nat_eq ws_fanout.Prelude.ℕ_discrete Registry.new
    ws_fanout.Server.Session.session ws_fanout.Server.Session.round ws_fanout.Server.Handle.handle
    Registry.subscribe Registry.add partition chan_mpsc Registry.admit Registry.link
    HashSet.contains HashSet.insert
member_there = refl

enacts-Permitted_example :
    (claims : Claims String) × Opened services entering claims
    × ("token" ≡ claims.subject)
    × All (Permitted services claims) ("a" ∷ [])
enacts-Permitted_example =
    enacts-Permitted Chan Permits services entering 1 member (omega arith) member_there

-- It gets its answers, is gone, and another socket has come.
abbrev leaving : List (Action String)
leaving = entering ++ calls 1 ∷ calls 1 ∷ calls 1 ∷ calls 1 ∷ departs 1 ∷ connects ∷ releases ∷ []

left_none : (after Chan Permits services leaving).sessions ≡ []
unfolding HashMap.get enacts permits_semaphore ws_fanout.Tests.Slots.permits_try_acquire boot
    string_eq HashMap.insert nat_eq ws_fanout.Prelude.ℕ_discrete Registry.new
    ws_fanout.Server.Session.session ws_fanout.Server.Session.round ws_fanout.Server.Handle.handle
    Registry.subscribe Registry.add partition chan_mpsc Registry.admit Registry.link
    HashSet.contains HashSet.insert Registry.remove Registry.unlink HashMap.remove HashSet.remove
    wrapping_add wrapping_sub ws_fanout.Registry.Deliveries.send
    ws_fanout.Registry.Deliveries.deliver chan_try_send ws_fanout.Registry.drops
    ws_fanout.Registry.Receiver.hang_up ws_fanout.Server.Handle.send_snapshots
left_none = refl

few : 10 ≤ permits_semaphore.max_permits
unfolding permits_semaphore
few = omega arith

enacts-IsEmpty_example :
    IsEmpty (after Chan Permits services leaving).registry
    × (permits_semaphore.available (after Chan Permits services leaving).slots
          + (after Chan Permits services leaving).entering
          + (after Chan Permits services leaving).leaving
        ≡ 10)
enacts-IsEmpty_example = enacts-IsEmpty Chan Permits services leaving (omega arith) few left_none

-- One who says nothing more is let in, and from then on its task is run, and its guard may be dropped,
-- in turn.
abbrev silent_client : Peer String
silent_client = record client { events = silence }

abbrev let_in : System Chan Permits String String String
let_in = after Chan Permits services (connects ∷ opens silent_client ∷ [])

abbrev token_claims : Claims String
token_claims = record { subject = "token"; attributes = [] }

abbrev session_start : Session
session_start = begun (opening services Handshake.upgraded silent_client.first Sent.delivered).0 0

let_in_serving :
    HashMap.get 1 let_in.sessions
    ≡ some (serving token_claims (session services token_claims silence session_start))
unfolding HashMap.get enacts permits_semaphore ws_fanout.Tests.Slots.permits_try_acquire boot
    string_eq HashMap.insert nat_eq ws_fanout.Prelude.ℕ_discrete Registry.new opening
let_in_serving = refl

unfoldable pub schedule : ℕ → Action String
schedule n = if n % 2 == 0 then calls 1 else departs 1

pub calling : Recurs schedule (calls 1)
unfolding schedule
calling n = (2 * n, omega arith, (let e : 2 * n % 2 ≡ 0 = omega arith in ground (arith, e)))

pub departing : Recurs schedule (departs 1)
unfolding schedule
departing n =
    (2 * n + 1, omega arith, (let e : (2 * n + 1) % 2 ≡ 1 = omega arith in ground (arith, e)))

-- No id is frame_taken in it.
performed-task :
    (t : Task (Session × Flow String String)) (r : Registry Chan)
    → (performed 2 4 (task_call 1 t) r).next_id ≡ r.next_id
unfolding performed task_call ids_after
performed-task (ret (s, continue)) r = refl
performed-task (ret (s, finish result)) r = perform-ids 2 4 _ r
performed-task (subscribe chs k) r = perform-ids 2 4 _ r
performed-task (unsubscribe chs k) r = perform-ids 2 4 _ r
performed-task (send frame k) r = perform-ids 2 4 _ r
performed-task (drops k) r = refl
performed-task (heartbeat_timeout t) r = perform-ids 2 4 _ r
performed-task (close_sink t) r = refl

schedule-ids :
    (n : ℕ) (s : System Chan Permits String String String)
    → (enact services (schedule n) s).registry.next_id ≡ s.registry.next_id
unfolding schedule call_made performed ids_after
schedule-ids n s = elim (Bool-cases (n % 2 == 0)) [
  | inl even ↦
      rw (even, enact-performed services (calls 1) s)
        (elim (stage-cases services 1 s) [
          | inl e ↦ rw (e, call_made) refl
          | inr (inl (claims, e)) ↦ rw (e, call_made) refl
          | inr (inr (claims, t, e)) ↦ rw (e, call_made) (performed-task t s.registry)
        ])
  | inr odd ↦
      rw (odd, enact-performed services (departs 1) s)
        (elim (stage-cases services 1 s) [
          | inl e ↦ rw (e, call_made) refl
          | inr (inl (claims, e)) ↦ rw (e, call_made) (perform-ids 2 4 (leave 1) s.registry)
          | inr (inr (claims, t, e)) ↦ rw (e, call_made) refl
        ])
]

let_in_id : let_in.registry.next_id ≡ 2
unfolding HashMap.get enacts permits_semaphore ws_fanout.Tests.Slots.permits_try_acquire boot
    string_eq HashMap.insert nat_eq ws_fanout.Prelude.ℕ_discrete Registry.new
    ws_fanout.Server.Session.session Registry.add chan_mpsc wrapping_add
let_in_id = refl

scheduled-ids : (n : ℕ) → (run_to services schedule let_in n).registry.next_id ≡ 2
unfolding run_to
scheduled-ids zero = let_in_id
scheduled-ids (suc n) = schedule-ids n (run_to services schedule let_in n) ∙ scheduled-ids n

let_in-IsCoherent : IsCoherent services let_in
let_in-IsCoherent =
    after-IsCoherent Chan Permits services (connects ∷ opens silent_client ∷ []) (omega arith)

run_to-silent_example :
    (n : ℕ) × ((k : ℕ)
      → HashMap.get 1 (run_to services schedule let_in (n + k)).registry.connections ≡ none)
run_to-silent_example =
    run_to-silent services schedule let_in let_in-IsCoherent (λ n. omega (arith, scheduled-ids n)) 1
      token_claims silence session_start let_in_serving (tt, (tt, (tt, tt)))
      (unfold has_late in refl) calling departing
