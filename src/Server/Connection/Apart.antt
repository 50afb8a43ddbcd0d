-- ===== src/Server/Connection/Apart.antt =====
-- A registered connection of src/server.rs, from `registry.add` to the drop of `Registered`, with any
-- calls of others in between.
use ws_fanout.Prelude.{
  ℕ, ◌+◌, ◌<◌, ◌≡◌, refl, false, none, List, arith, ◌==◌, if◌then◌else◌, Bool-cases, inl, inr, ◌∙◌,
  ap, sym, nat_eq, string_eq, u64_mod, ==_refl,
}
use mathlib.Core.Path.{subst}
use ws_fanout.Auth.{Claims}
use ws_fanout.Collections.HashMap
use ws_fanout.Mpsc.{Mpsc}
use ws_fanout.Protocol.{Message}
use ws_fanout.Registry.{Registry, ConnectionId, add, remove}
use ws_fanout.Registry.Calls.{leave, hanging_up, perform, entry_after}
use ws_fanout.Registry.Calls.Entries.{perform-get}
use ws_fanout.Registry.Invariant.{IsValid, add-IsValid, remove-IsValid}
use ws_fanout.Registry.Keeps.{Keeps-IsValid}
use ws_fanout.Registry.Reach.{Steps, stay}
use ws_fanout.Registry.Receiver.{hang_up}
use ws_fanout.Registry.Receiver.Keeps.{hang_up-Keeps}
use ws_fanout.Server.Connection.{registered}
use ws_fanout.Server.Handle.{Services}
use ws_fanout.Server.Session.{Event, Session, Flow, session}
use ws_fanout.Server.Task.{Exec, run, run-Exec}
use ws_fanout.Server.Task.Apart.{Apart, own-Apart, replay, replay-Apart, others, others-Apart}

-- The session's locals at its start.
abbrev pub begun : List Message → ℕ → Session
begun wire started = record { last_seen = started; wire = wire; closed = false }

module _ {IoError WsError RawValue Value : Type 0} {Tx : Type 0} ⦃mpsc : Mpsc Tx⦄
    (services : Services IoError WsError RawValue Value) (claims : Claims Value)
    (wire : List Message) (started : ℕ) (events : List (Event WsError)) where
  open services use {config}

  -- The registry when the connection has joined it.
  abbrev pub entered : Registry Tx → Registry Tx
  entered r = (add r claims.subject (mpsc.channel config.send_queue)).0

  -- `registered` with others' calls before and after each of its own.
  pub record Life (r s : Registry Tx) : Type 0 where
    pub left : Session × Flow IoError WsError
    pub ended : Registry Tx
    pub runs :
        Exec r.next_id config.max_subscriptions config.send_queue
          (session services claims events (begun wire started))
          (entered r)
          ended
          left
    pub last : Registry Tx
    pub between : Steps config.max_subscriptions config.send_queue (hang_up ended r.next_id) last
    pub removed : s ≡ remove last r.next_id

  -- What the others make of the registry, were the connection to do nothing once it has joined.
  abbrev pub without : {r s : Registry Tx} → Life r s → Registry Tx
  without {r} l = replay config.max_subscriptions config.send_queue l.between (
      others config.max_subscriptions config.send_queue r.next_id
        (session services claims events (begun wire started)) (entered r) l.ended l.left l.runs
        (entered r))

  registered-Life : (r : Registry Tx) → Life r (registered services claims wire started events r).0
  unfolding registered add
  registered-Life r =
      let x =
        run r.next_id config.max_subscriptions (session services claims events (begun wire started))
          (entered r) in
      record {
        left = x.1;
        ended = x.0;
        runs =
            run-Exec r.next_id config.max_subscriptions config.send_queue
              (session services claims events (begun wire started)) (entered r);
        last = hang_up x.0 r.next_id;
        between = stay;
        removed = refl;
      }

  -- Where a connection joins a valid registry whose next id is not the last, and any calls of
  -- others come before and after each call of its session, the drop of its receiver and its
  -- removal: at the end the registry is valid, the connection is not in it, and every other
  -- connection has the entry (its subject, channels, queue and streak of drops), or none, that the
  -- others' calls alone would have left, had the connection joined and done nothing more. Ids are
  -- taken not to run out.
  pub Life-Apart :
      (r s : Registry Tx) (l : Life r s) (j : ConnectionId)
      → IsValid r
      → r.next_id + 1 < u64_mod
      → IsValid s
        × (HashMap.get j s.connections
            ≡ (if r.next_id == j then none else HashMap.get j (without l).connections))
  unfolding perform entry_after
  Life-Apart r s l j v room =
      let max = config.max_subscriptions in
      let cap = config.send_queue in
      let id = r.next_id in
      let entering = add-IsValid r claims.subject (mpsc.channel cap) room v in
      let joined : Apart max cap id (entered r) (entered r) = record {
        valid = entering;
        valid_alone = entering;
        same = record { ids = refl; others = λ j h. refl };
      } in
      let served =
        others-Apart max cap id (session services claims events (begun wire started)) (entered r)
          l.ended l.left l.runs (entered r) joined in
      let hung =
        own-Apart max cap id (hanging_up id) l.ended (hang_up l.ended id) _ (==_refl id) refl
          (Keeps-IsValid l.ended _ (hang_up-Keeps l.ended id) served.valid) served in
      let waited = replay-Apart max cap id l.between _ hung in
      let gone =
        own-Apart max cap id (leave id) l.last s _ (==_refl id) l.removed
          (subst IsValid (sym l.removed) (remove-IsValid l.last id waited.valid)) waited in
      (
        gone.valid,
        elim (Bool-cases (id == j)) [
          | inl own ↦
              ap (λ (x : Registry Tx). HashMap.get j x.connections) l.removed
              ∙ perform-get max cap (leave id) l.last j waited.valid
              ∙ ground (arith, own)
          | inr other ↦ gone.same.others j other ∙ ground (arith, other)
        ],
      )
