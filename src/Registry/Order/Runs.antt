-- ===== src/Registry/Order/Runs.antt =====
-- Histories of calls on src/registry.rs, where before each call the maps and the sets may have come
-- to list what they hold in any other order.
use ws_fanout.Prelude.{
  ℕ, ◌+◌, ◌≤◌, ◌<◌, ◌≡◌, refl, Bool, Option, none, some, String, List, [], ◌∷◌, arith, length, inl,
  inr, ◌∙◌, ap, sym, nat_eq, string_eq, u64_mod, wrapping_add_exact,
}
use ws_fanout.Collections.HashMap
use ws_fanout.Collections.HashMap.{HashMap}
use ws_fanout.Protocol.{Frame}
use ws_fanout.Mpsc.{Mpsc}
use ws_fanout.Registry.{
  Registry, ConnectionId, len, drops, subscribers, add, subscribe, unsubscribe, admission,
  withdrawal,
}
use ws_fanout.Registry.Calls.{
  Call, join, leave, subscribing, unsubscribing, publishing, broadcasting, sending, receiving,
  hanging_up, timing_out, refusing, ids_after, perform,
}
use ws_fanout.Registry.Calls.Entries.{perform-get, perform-ids, perform-IsValid}
use ws_fanout.Registry.Deliver.{has_room, takes, send-takes}
use ws_fanout.Registry.Deliveries.{send, publish, broadcast}
use ws_fanout.Registry.Index.{members, members-Distinct}
use ws_fanout.Registry.Invariant.{IsValid}
use ws_fanout.Registry.Publish.{publish-counts, reaches}
use ws_fanout.Registry.Receiver.{receive}
use ws_fanout.Registry.Order.{
  AlikeEntry-refl, AlikeEntry-trans, Similar, SameMembers-length, on_entry, length-Similar,
  members-Similar, subscribed-Similar, counts-Similar,
}
use ws_fanout.Registry.Order.Entries.{entry_after-Alike}
use ws_fanout.Registry.Order.Loops.{admit_all-Same, admission-Same, withdraw_all-Same}
use ws_fanout.Registry.Order.Metrics.{
  entry-cases, queue_test-Similar, tests-Similar, perform-metrics,
}
use ws_fanout.Registry.Order.Tally.{queue_test, broadcast-counts}

-- What a call returns to its caller.
pub data Answer : Type 0 where
  id_is : ConnectionId → Answer
  subscribed_to : List String → List String → Answer
  unsubscribed_from : List String → Answer
  reached : ℕ → Answer
  was_queued : Bool → Answer
  took : Option Frame → Answer
  nothing : Answer

module _ {Tx : Type 0} where
  pub Similar-refl : (r : Registry Tx) → IsValid r → Similar r r
  Similar-refl r v = record {
    valid = v;
    valid' = v;
    ids = refl;
    metrics = refl;
    entries = λ k. AlikeEntry-refl (HashMap.get k r.connections);
  }

  pub Similar-trans : (r s t : Registry Tx) → Similar r s → Similar s t → Similar r t
  Similar-trans r s t h k = record {
    valid = h.valid;
    valid' = k.valid';
    ids = h.ids ∙ k.ids;
    metrics = h.metrics ∙ k.metrics;
    entries = λ id.
        AlikeEntry-trans (HashMap.get id r.connections) (HashMap.get id s.connections)
          (HashMap.get id t.connections) (h.entries id) (k.entries id);
  }

  subscribers-members :
      (r : Registry Tx) (ch : String) → subscribers r ch ≡ length (members ch r.by_channel)
  unfolding subscribers members
  subscribers-members r ch = ground arith

  -- Two valid registries that hold the same, each in an order of its own, have equally many
  -- connections, for every channel equally many subscribers, and for every id the same streak of
  -- drops.
  reads-Similar :
      (r r' : Registry Tx) (ch : String) (id : ConnectionId)
      → Similar r r'
      → (len r ≡ len r') × (subscribers r ch ≡ subscribers r' ch) × (drops r id ≡ drops r' id)
  unfolding len drops
  reads-Similar r r' ch id h = (
    length-Similar r r' h,
    subscribers-members r ch
        ∙ SameMembers-length (members ch r.by_channel) (members ch r'.by_channel)
            (members-Distinct ch r.by_channel h.valid.tidy)
            (members-Distinct ch r'.by_channel h.valid'.tidy) (members-Similar r r' h ch)
        ∙ sym (subscribers-members r' ch),
    on_entry 0 (λ c. c.dropped) (HashMap.get id r.connections) (HashMap.get id r'.connections)
        (λ c c' k. k.dropped) (h.entries id),
  )

module _ {Tx : Type 0} ⦃mpsc : Mpsc Tx⦄ (max cap : ℕ) where
  unfoldable pub answer : Call → Registry Tx → Answer
  answer (join subject) r = id_is (add r subject (mpsc.channel cap)).1
  answer (leave id) r = nothing
  answer (subscribing id chs) r =
      let (_, added, over_limit) = subscribe r id chs max in subscribed_to added over_limit
  answer (unsubscribing id chs) r = unsubscribed_from (unsubscribe r id chs).1
  answer (publishing ch f) r = reached (publish r ch f).1
  answer (broadcasting f) r = reached (broadcast r f).1
  answer (sending id f) r = was_queued (send r id f).1
  answer (receiving id) r = elim (receive r id) [ none ↦ took none | some (f, _) ↦ took (some f) ]
  answer (hanging_up id) r = nothing
  answer timing_out r = nothing
  answer refusing r = nothing

  module _ (r r' : Registry Tx) (h : Similar r r') where
    perform-Similar :
        (x : Call) → r.next_id + 1 < u64_mod → Similar (perform max cap x r) (perform max cap x r')
    perform-Similar x room = record {
      valid = perform-IsValid max cap x r room h.valid;
      valid' = perform-IsValid max cap x r' (ground (arith, h.ids, room)) h.valid';
      ids = perform-ids max cap x r ∙ ap (ids_after x) h.ids ∙ sym (perform-ids max cap x r');
      metrics = perform-metrics r r' h max cap x;
      entries = λ k.
          rw (perform-get max cap x r k h.valid, perform-get max cap x r' k h.valid', h.ids)
            (entry_after-Alike max cap x r'.next_id k (HashMap.get k r.connections)
              (HashMap.get k r'.connections) (h.valid.sets k) (h.valid'.sets k) (h.entries k));
    }

    subscribing-answer :
        (id : ConnectionId) (chs : List String)
        → answer (subscribing id chs) r ≡ answer (subscribing id chs) r'
    unfolding answer subscribe
    subscribing-answer id chs =
        elim (entry-cases (HashMap.get id r.connections) (HashMap.get id r'.connections)
          (h.entries id)) [
            | inl (e, e') ↦ ground (arith, e, e')
            | inr (c, c', e, e', k) ↦
                let same =
                  admit_all-Same max chs (admission c.subscriptions) (admission c'.subscriptions) (
                    admission-Same c.subscriptions c'.subscriptions (h.valid.sets id c e)
                      (h.valid'.sets id c' e') k.held) in
                ground (arith, e, e', same.added, same.over_limit)
          ]

    unsubscribing-answer :
        (id : ConnectionId) (chs : List String)
        → answer (unsubscribing id chs) r ≡ answer (unsubscribing id chs) r'
    unfolding answer unsubscribe
    unsubscribing-answer id chs =
        elim (entry-cases (HashMap.get id r.connections) (HashMap.get id r'.connections)
          (h.entries id)) [
            | inl (e, e') ↦ ground (arith, e, e')
            | inr (c, c', e, e', k) ↦
                let same =
                  withdraw_all-Same chs (withdrawal c.subscriptions) (withdrawal c'.subscriptions)
                    (record { held = k.held; removed = refl }) in
                ground (arith, e, e', same.removed)
          ]

    receiving-answer : (id : ConnectionId) → answer (receiving id) r ≡ answer (receiving id) r'
    unfolding answer receive
    receiving-answer id =
        elim (entry-cases (HashMap.get id r.connections) (HashMap.get id r'.connections)
          (h.entries id)) [
            | inl (e, e') ↦ ground (arith, e, e')
            | inr (c, c', e, e', k) ↦ ground (arith, e, e', k.tx)
          ]

    takes-Similar : (id : ConnectionId) → takes r id ≡ takes r' id
    unfolding takes queue_test
    takes-Similar id = queue_test-Similar r r' h has_room id

    answer-Similar : (x : Call) → answer x r ≡ answer x r'
    unfolding answer
    answer-Similar (join subject) = unfold add in ap id_is h.ids
    answer-Similar (leave id) = refl
    answer-Similar (subscribing id chs) = subscribing-answer id chs
    answer-Similar (unsubscribing id chs) = unsubscribing-answer id chs
    answer-Similar (publishing ch f) = ap reached (
        publish-counts r ch f h.valid
        ∙ counts-Similar r r' h (reaches r ch) (reaches r' ch)
            (λ id. rw (subscribed-Similar r r' h id ch, takes-Similar id) refl)
        ∙ sym (publish-counts r' ch f h.valid'))
    answer-Similar (broadcasting f) = ap reached (
        broadcast-counts r f h.valid
        ∙ tests-Similar r r' h has_room
        ∙ sym (broadcast-counts r' f h.valid'))
    answer-Similar (sending id f) =
        ap was_queued (send-takes r id f ∙ takes-Similar id ∙ sym (send-takes r' id f))
    answer-Similar (receiving id) = receiving-answer id
    answer-Similar (hanging_up id) = refl
    answer-Similar timing_out = refl
    answer-Similar refusing = refl

  -- The calls one after another, and what they return.
  unfoldable pub run : List Call → Registry Tx → Registry Tx × List Answer
  run [] r = (r, [])
  run (x ∷ xs) r = let (t, answers) = run xs (perform max cap x r) in (t, answer x r ∷ answers)

  -- The calls, with the answers, where each call finds the maps and sets in another order.
  pub data Shuffled : Registry Tx → List Call → List Answer → Registry Tx → Type 0 where
    stop : {r : Registry Tx} → Shuffled r [] [] r
    call :
        {r s t : Registry Tx} {xs : List Call} {answers : List Answer} (x : Call)
        → Similar r s
        → Shuffled (perform max cap x s) xs answers t
        → Shuffled r (x ∷ xs) (answer x s ∷ answers) t

  ids-perform :
      (x : Call) (r : Registry Tx)
      → r.next_id + 1 < u64_mod
      → (perform max cap x r).next_id ≤ r.next_id + 1
  unfolding ids_after
  ids-perform x r h = ground (arith, perform-ids max cap x r, wrapping_add_exact r.next_id 1)

  -- Where two valid registries have the same next id and the same counters and hold the same
  -- connections, whose sets have the same members, each in an order of its own: the same calls
  -- give the same answers on both and leave two registries of which the same can be said, also
  -- where the maps and the sets of the second come to list what they hold in another order before
  -- each call. Ids are taken not to run out: the next id and the number of calls are together
  -- below 2^64.
  pub run-Shuffled :
      (r s : Registry Tx) (xs : List Call) (answers : List Answer) (t : Registry Tx)
      → Similar r s
      → r.next_id + length xs < u64_mod
      → Shuffled s xs answers t
      → (answers ≡ (run xs r).1) × Similar (run xs r).0 t
  unfolding run
  run-Shuffled r s [] answers t h room stop = (refl, h)
  run-Shuffled r s (x ∷ xs) answers t h room (call {s = s'} {answers = rest} _ k further) =
      let now = Similar-trans r s s' h k in
      let fits : r.next_id + 1 < u64_mod = omega (arith, room) in
      let (same, similar) =
        run-Shuffled (perform max cap x r) (perform max cap x s') xs rest t
          (perform-Similar r s' now x fits) (omega (arith, room, ids-perform x r fits)) further in
      (rw (answer-Similar r s' now x) (ap (λ bs. answer x s' ∷ bs) same), similar)
