-- ===== src/Server/System.antt =====
-- The server of src/server.rs as a whole: the accept loop, a task for every socket it let in, each
-- of them somewhere in `connection`, and publishers, all on one registry. An action is one call on
-- the registry or the semaphore, by whoever makes it.
pub mod Calls
pub mod Coherent
pub mod Refines
pub mod Empty
pub mod Foreign
pub mod Safe
pub mod Secure
pub mod Permits
pub mod Stages
pub mod Ends
pub mod Slow
use ws_fanout.Prelude.{
  ℕ, suc, ◌+◌, ◌-◌, ◌*◌, ◌%◌, ◌≤◌, ◌<◌, ◌≡◌, ◌≢◌, ◌↔◌, refl, Bool, true, false, ◌||◌, ◌&&◌, not,
  Option, none, some, String, List, [], ◌∷◌, ◌++◌, map, foldl, arith, Eq, ◌==◌, leb, ltb,
  if◌then◌else◌, length, is_empty, All, Bool-cases, Option-cases, inl, inr, ◌⊎◌, ◌∙◌, ap, sym,
  nat_eq, string_eq, wrapping_add, wrapping_sub, u64_mod, wrapping_add_exact, wrapping_add-lt,
  ==_refl, ==_iff, ==_comm, Result, ok, err, Result-cases, filter_b, filter_b-All, All-filter_b,
  partition, Bool-ext, All-append, length-append,
}
use ws_fanout.Auth.{Claims}
use ws_fanout.Collections.HashMap
use ws_fanout.Collections.HashMap.{HashMap}
use ws_fanout.Mpsc.{Mpsc}
use ws_fanout.Protocol.{Frame, Message}
use ws_fanout.Registry.{Registry, ConnectionId}
use ws_fanout.Registry
use ws_fanout.Registry.Calls.{received}
use ws_fanout.Registry.Counters.{count_timeout}
use ws_fanout.Registry.Deliveries
use ws_fanout.Registry.Receiver.{hang_up}
use ws_fanout.Server.Connection.{Peer, opening}
use ws_fanout.Server.Connection.Apart.{begun}
use ws_fanout.Server.Handle.{Services}
use ws_fanout.Server.Serve.{Semaphore, Running, started, accept, fail, join, leave, drop_permit}
use ws_fanout.Server.Session.{Session, Flow, continue, finish, session}
use ws_fanout.Server.Task.{
  Task, ret, subscribe, unsubscribe, send, drops, heartbeat_timeout, close_sink,
}

module _ (IoError WsError Value : Type 0) where
  -- The task of a connection that is in the registry: in its session, with the calls that are left,
  -- or past it, the receiver of the queue dropped and the guard not yet.
  pub data Stage : Type 0 where
    serving : Claims Value → Task (Session × Flow IoError WsError) → Stage
    parted : Claims Value → Stage

pub record System (Tx Sem IoError WsError Value : Type 0) : Type 0 where
  pub running : Running Tx Sem
  pub open running use *
  pub sessions : HashMap ConnectionId (Stage IoError WsError Value)

-- What can happen next: the listener gives a socket; a task that has a permit gets through the
-- handshake and the token, or does not; the task of a connection makes its next call, takes a frame
-- from its queue, is dropped in its session, or drops its guard; a permit is dropped; a publisher
-- publishes or broadcasts.
pub data Action (WsError : Type 0) : Type 0 where
  connects releases : Action WsError
  opens : Peer WsError → Action WsError
  calls takes aborts departs : ConnectionId → Action WsError
  publishes : String → Frame → Action WsError
  broadcasts : Frame → Action WsError

module _ {Tx IoError WsError RawValue Value : Type 0} ⦃mpsc : Mpsc Tx⦄
    (services : Services IoError WsError RawValue Value) where
  open services use {config}

  -- The next call of a session, and the drop of its receiver once its loop is left. Where nothing more
  -- happens to it, the session stays in its loop and waits.
  unfoldable pub proceed :
      ConnectionId
      → Claims Value
      → Task (Session × Flow IoError WsError)
      → Registry Tx
      → Registry Tx × Stage IoError WsError Value
  proceed id claims (ret (s, continue)) r = (r, serving claims (ret (s, continue)))
  proceed id claims (ret (s, finish result)) r = (hang_up r id, parted claims)
  proceed id claims (subscribe chs k) r =
      let (r', added, over) = Registry.subscribe r id chs config.max_subscriptions in
      (r', serving claims (k (added, over)))
  proceed id claims (unsubscribe chs k) r =
      let (r', removed) = Registry.unsubscribe r id chs in (r', serving claims (k removed))
  proceed id claims (send frame k) r =
      let (r', was_queued) = Deliveries.send r id frame in (r', serving claims (k was_queued))
  proceed id claims (drops k) r = (r, serving claims (k (Registry.drops r id)))
  proceed id claims (heartbeat_timeout t) r = (count_timeout r, serving claims t)
  proceed id claims (close_sink t) r = (r, serving claims t)

abbrev pub with_registry :
    {Tx Sem IoError WsError Value : Type 0}
    → System Tx Sem IoError WsError Value
    → Registry Tx
    → System Tx Sem IoError WsError Value
with_registry s r = record s { running = record s.running { registry = r } }

module _ {Tx Sem IoError WsError RawValue Value : Type 0} ⦃mpsc : Mpsc Tx⦄
    ⦃semaphore : Semaphore Sem⦄ (services : Services IoError WsError RawValue Value) where
  open services use {config}

  -- What `bind` starts.
  unfoldable pub boot : System Tx Sem IoError WsError Value
  unfolding started
  boot = record { running = started config.max_connections; sessions = [] }

  -- A task gets through `connection` up to the start of its session, or fails before it.
  unfoldable pub opened :
      Peer WsError → System Tx Sem IoError WsError Value → System Tx Sem IoError WsError Value
  unfolding opening join fail
  opened p s =
      let (wire, who) = opening services p.handshake p.first p.answer in
      elim who [
        | err e ↦ record s { running = fail s.running }
        | ok claims ↦ record s {
          running = join claims.subject (mpsc.channel config.send_queue) s.running;
          sessions =
              HashMap.insert s.registry.next_id
                (serving claims (session services claims p.events (begun wire p.started)))
                s.sessions;
        }
      ]

  -- The task of a connection moves on, if it is in its session.
  unfoldable pub called :
      ConnectionId → System Tx Sem IoError WsError Value → System Tx Sem IoError WsError Value
  unfolding proceed
  called id s = elim (HashMap.get id s.sessions) [
    | none ↦ s
    | some (parted claims) ↦ s
    | some (serving claims t) ↦
        let (r, stage) = proceed services id claims t s.registry in
        record s {
          running = record s.running { registry = r };
          sessions = HashMap.insert id stage s.sessions;
        }
  ]

  unfoldable pub frame_taken :
      ConnectionId → System Tx Sem IoError WsError Value → System Tx Sem IoError WsError Value
  unfolding received
  frame_taken id s = elim (HashMap.get id s.sessions) [
    | some (serving claims t) ↦ with_registry s (received s.registry id)
    | _ ↦ s
  ]

  -- The session is dropped before its end, as by a panic in it.
  unfoldable pub aborted :
      ConnectionId → System Tx Sem IoError WsError Value → System Tx Sem IoError WsError Value
  aborted id s = elim (HashMap.get id s.sessions) [
    | some (serving claims t) ↦ record s {
      running = record s.running { registry = hang_up s.registry id };
      sessions = HashMap.insert id (parted claims) s.sessions;
    }
    | _ ↦ s
  ]

  -- `Registered` is dropped.
  unfoldable pub departed :
      ConnectionId → System Tx Sem IoError WsError Value → System Tx Sem IoError WsError Value
  unfolding leave
  departed id s = elim (HashMap.get id s.sessions) [
    | some (parted claims) ↦ record s {
      running = leave id s.running;
      sessions = HashMap.remove id s.sessions;
    }
    | _ ↦ s
  ]

  unfoldable pub enact :
      Action WsError → System Tx Sem IoError WsError Value → System Tx Sem IoError WsError Value
  unfolding accept opened called frame_taken aborted departed drop_permit
  enact connects s = record s { running = accept s.running }
  enact releases s = if ltb 0 s.leaving then record s { running = drop_permit s.running } else s
  enact (opens p) s = if ltb 0 s.entering then opened p s else s
  enact (calls id) s = called id s
  enact (takes id) s = frame_taken id s
  enact (aborts id) s = aborted id s
  enact (departs id) s = departed id s
  enact (publishes ch f) s = with_registry s (Deliveries.publish s.registry ch f).0
  enact (broadcasts f) s = with_registry s (Deliveries.broadcast s.registry f).0

  unfoldable pub enacts :
      List (Action WsError)
      → System Tx Sem IoError WsError Value
      → System Tx Sem IoError WsError Value
  unfolding enact
  enacts [] s = s
  enacts (a ∷ rest) s = enacts rest (enact a s)
