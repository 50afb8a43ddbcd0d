-- ===== src/Server/Connection/Lifecycle.antt =====
-- The registry before and after a connection of src/server.rs has come and gone.
use ws_fanout.Prelude.{
  ℕ, suc, ◌+◌, ◌<◌, ◌≡◌, refl, true, false, String, List, arith, ◌==◌, if◌then◌else◌, length,
  Option-cases, inl, inr, ◌∙◌, nat_eq, string_eq, u64_mod, ==_refl, ==_iff, Result-cases,
}
use ws_fanout.Auth.{Claims}
use ws_fanout.Collections.HashMap
use ws_fanout.Collections.HashMap.{HashMap}
use ws_fanout.Collections.HashSet
use ws_fanout.Protocol.{Message}
use ws_fanout.Mpsc.{Mpsc}
use ws_fanout.Registry.{Registry, Connection, ConnectionId, joined}
use ws_fanout.Registry
use ws_fanout.Registry.Invariant.{IsValid, add-IsValid, remove-IsValid, subscribed-insert}
use ws_fanout.Registry.Receiver.Keeps.{hang_up-Keeps}
use ws_fanout.Registry.Receiver.{hang_up}
use ws_fanout.Registry.Subscriptions.{holds, remove-holds}
use ws_fanout.Registry.Index.{subscribed}
use ws_fanout.Server.Connection.{Peer, opening, registered, connection}
use ws_fanout.Server.Handle.{Services}
use ws_fanout.Server.Session.{Event, session}
use ws_fanout.Server.Task.{run}
use ws_fanout.Server.Task.Own.{Own, Own-trans, Keeps-Own, open_at, run-Own}

-- The same connections with the same channels.
pub record Restored {Tx : Type 0} (r s : Registry Tx) : Type 0 where
  pub valid : IsValid s
  pub present : (j : ConnectionId) → open_at s j ≡ open_at r j
  pub size : length s.connections ≡ length r.connections
  pub channels : (j : ConnectionId) (d : String) → holds s j d ≡ holds r j d
  pub active : s.metrics.connections_active ≡ r.metrics.connections_active

module _ {Tx : Type 0} ⦃mpsc : Mpsc Tx⦄ where
  add-open :
      (r : Registry Tx) (subject : String) (tx : Tx) (j : ConnectionId)
      → open_at (Registry.add r subject tx).0 j ≡ (if r.next_id == j then true else open_at r j)
  unfolding Registry.add
  add-open r subject tx j =
      ground (arith, HashMap.get-insert r.next_id j (joined subject tx) r.connections)

  pub add-holds :
      (r : Registry Tx) (subject : String) (tx : Tx) (j : ConnectionId) (d : String)
      → holds (Registry.add r subject tx).0 j d ≡ (if r.next_id == j then false else holds r j d)
  unfolding Registry.add HashSet.contains
  add-holds r subject tx j d =
      ground (arith, subscribed-insert r.next_id j d (joined subject tx) r.connections)

  pub add-length :
      (r : Registry Tx) (subject : String) (tx : Tx)
      → IsValid r
      → length (Registry.add r subject tx).0.connections ≡ suc (length r.connections)
  unfolding Registry.add
  add-length r subject tx v =
      HashMap.length-insert_new r.next_id (joined subject tx) r.connections
        (v.fresh r.next_id (omega arith))

  pub remove-open :
      (r : Registry Tx) (id j : ConnectionId)
      → open_at (Registry.remove r id) j ≡ (if id == j then false else open_at r j)
  unfolding Registry.remove
  remove-open r id j = elim (Option-cases (HashMap.get id r.connections)) [
    | inl e ↦ ground (arith, e)
    | inr (c, e) ↦ ground (arith, e, HashMap.get-remove id j r.connections)
  ]

  pub remove-length :
      (r : Registry Tx) (id : ConnectionId)
      → IsValid r
      → open_at r id ≡ true
      → length (Registry.remove r id).connections + 1 ≡ length r.connections
  unfolding Registry.remove
  remove-length r id v o = elim (Option-cases (HashMap.get id r.connections)) [
    | inl e ↦ absurd (ground (arith, e))
    | inr (c, e) ↦ ground (arith, e, HashMap.length-remove id c r.connections v.unique)
  ]

  unknown-holds :
      (r : Registry Tx) (j : ConnectionId) (d : String) → open_at r j ≡ false → holds r j d ≡ false
  unfolding subscribed
  unknown-holds r j d o = ground arith

  -- Add a connection, let it do what is its own, and remove it.
  pub add-Own-remove :
      (r s : Registry Tx) (subject : String) (tx : Tx)
      → r.next_id + 1 < u64_mod
      → IsValid r
      → Own r.next_id (Registry.add r subject tx).0 s
      → Restored r (Registry.remove s r.next_id)
  add-Own-remove r s subject tx room v own = record {
    valid = remove-IsValid s id own.valid;
    present = λ j.
        ground
          (arith, remove-open s id j, own.present j, add-open r subject tx j, gone, ==_iff id j);
    size = size;
    channels = λ j d. ground (
      arith,
      remove-holds s id j d,
      own.others j d,
      add-holds r subject tx j d,
      unknown-holds r id d gone,
      ==_iff id j,
    );
    active = ground (arith, (remove-IsValid s id own.valid).counted, v.counted, size);
  }
    where
      id : ConnectionId
      id = r.next_id

      gone : open_at r id ≡ false
      gone = ground (arith, v.fresh id)

      size : length (Registry.remove s id).connections ≡ length r.connections
      size = omega (
        arith,
        remove-length s id own.valid
            (own.present id ∙ add-open r subject tx id ∙ ground (arith, ==_refl id)),
        own.size,
        add-length r subject tx v,
      )

  registered-Restored :
      {IoError WsError RawValue Value : Type 0} (services : Services IoError WsError RawValue Value)
      (claims : Claims Value) (wire : List Message) (started : ℕ) (events : List (Event WsError))
      (r : Registry Tx)
      → r.next_id + 1 < u64_mod
      → IsValid r
      → Restored r (registered services claims wire started events r).0
  unfolding registered Registry.add
  registered-Restored services claims wire started events r room v =
      add-Own-remove r (hang_up s id) claims.subject (mpsc.channel services.config.send_queue) room
        v
        (Own-trans id joined_r s (hang_up s id) own
          (Keeps-Own id s (hang_up s id) (hang_up-Keeps s id) own.valid))
    where
      id : ConnectionId
      id = r.next_id

      joined_r : Registry Tx
      joined_r = (Registry.add r claims.subject (mpsc.channel services.config.send_queue)).0

      s : Registry Tx
      s =
          (run id services.config.max_subscriptions
            (session services claims events
              (record { last_seen = started; wire = wire; closed = false }))
            joined_r).0

      own : Own id joined_r s
      own =
          run-Own id services.config.max_subscriptions _ joined_r
            (add-IsValid r claims.subject (mpsc.channel services.config.send_queue) room v)

  -- In a valid registry whose next id is not the last, a connection that runs with no other task
  -- in between, and ends at the handshake, at the token or in its session, leaves the registry
  -- valid, with the same connections holding the same channels and the same connections_active.
  pub connection-Restored :
      {IoError WsError RawValue Value : Type 0} (services : Services IoError WsError RawValue Value)
      (p : Peer WsError) (r : Registry Tx)
      → r.next_id + 1 < u64_mod
      → IsValid r
      → Restored r (connection services p r).0
  unfolding connection
  connection-Restored services p r room v =
      elim (Result-cases (opening services p.handshake p.first p.answer).1) [
        | inl (claims, e) ↦
            rw (e, connection)
              (registered-Restored services claims (opening services p.handshake p.first p.answer).0
                p.started p.events r room v)
        | inr (x, e) ↦
            rw (e, connection)
              (record {
                valid = v;
                present = λ j. refl;
                size = refl;
                channels = λ j d. refl;
                active = refl;
              })
      ]
