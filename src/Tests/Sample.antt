-- ===== src/Tests/Sample.antt =====
-- A small registry: two connections, of which the first holds two channels.
use ws_fanout.Prelude.{
  ℕ, suc, ◌+◌, ◌-◌, ◌*◌, ◌%◌, ◌≤◌, ◌<◌, ◌≡◌, ◌≢◌, ◌↔◌, refl, Bool, true, false, ◌||◌, ◌&&◌, not,
  Option, none, some, String, List, [], ◌∷◌, ◌++◌, map, foldl, arith, Eq, ◌==◌, leb, ltb,
  if◌then◌else◌, length, is_empty, All, Bool-cases, Option-cases, inl, inr, ◌⊎◌, ◌∙◌, ap, sym,
  nat_eq, string_eq, wrapping_add, wrapping_sub, u64_mod, wrapping_add_exact, wrapping_add-lt,
  ==_refl, ==_iff, ==_comm, Result, ok, err, Result-cases, filter_b, filter_b-All, All-filter_b,
  partition, Bool-ext, All-append, length-append,
}
use ws_fanout.Collections.HashMap
use ws_fanout.Collections.HashSet
use ws_fanout.Protocol.{Frame}
use ws_fanout.Registry.{Registry, Connection, new, no_metrics, add, subscribe, admit, link}
use ws_fanout.Registry.Invariant.{IsValid}
use ws_fanout.Registry.Reach.{Reach, start, later, joins, subscribes, Reach-IsValid}
use ws_fanout.Tests.Queue.{Chan, chan_mpsc}

abbrev pub hello : Frame
hello = record { text = "hello" }

abbrev pub chan : ℕ → Chan
chan n = record { items = []; limit = n; shut = false }

-- A connection's entry.
abbrev pub entry : String → List String → Connection Chan
entry subject channels = record {
  subject = subject;
  subscriptions = channels;
  tx = chan 4;
  dropped = 0;
}

abbrev pub pair : Registry Chan
pair = record {
  inner = record {
    connections = (1, entry "ann" ("b" ∷ "a" ∷ [])) ∷ (2, entry "bob" []) ∷ [];
    by_channel = ("a", 1 ∷ []) ∷ ("b", 1 ∷ []) ∷ [];
  };
  next_id = 3;
  metrics = record no_metrics { connections_active = 2; connections_total = 2 };
}

-- It is what the calls make.
abbrev made : Registry Chan
made =
    (subscribe (add (add (new no_metrics) "ann" (chan 4)).0 "bob" (chan 4)).0 1 ("a" ∷ "b" ∷ [])
      2).0

made-pair : made ≡ pair
unfolding add new subscribe admit link HashMap.get HashMap.insert HashSet.contains HashSet.insert
    nat_eq string_eq wrapping_add ws_fanout.Prelude.ℕ_discrete
made-pair = refl

pub pair-Reach : Reach 2 4 pair
unfolding add new wrapping_add chan_mpsc
pair-Reach = rw (sym made-pair) (
    later (later (later start (joins "ann" (omega arith))) (joins "bob" (omega arith)))
      (subscribes 1 ("a" ∷ "b" ∷ [])))

pub pair-IsValid : IsValid pair
pair-IsValid = Reach-IsValid 2 4 pair-Reach
