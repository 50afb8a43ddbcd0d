-- ===== src/Tests/Gateway.antt =====
-- examples/gateway.rs reading what examples/synthetic_feed.rs wrote.
use ws_fanout.Prelude.{
  ℕ, suc, ◌+◌, ◌-◌, ◌*◌, ◌%◌, ◌≤◌, ◌<◌, ◌≡◌, ◌≢◌, ◌↔◌, refl, Bool, true, false, ◌||◌, ◌&&◌, not,
  Option, none, some, String, List, [], ◌∷◌, ◌++◌, map, foldl, arith, Eq, ◌==◌, leb, ltb,
  if◌then◌else◌, length, is_empty, All, Bool-cases, Option-cases, inl, inr, ◌⊎◌, ◌∙◌, ap, sym,
  nat_eq, string_eq, wrapping_add, wrapping_sub, u64_mod, wrapping_add_exact, wrapping_add-lt,
  ==_refl, ==_iff, ==_comm, Result, ok, err, Result-cases, filter_b, filter_b-All, All-filter_b,
  partition, Bool-ext, All-append, length-append,
}
use ws_fanout.Feed.{Reading, feed}
use ws_fanout.Error.{Error}
use ws_fanout.Gateway.{decode, shared_snapshot, gateway_idle, gateway_builder}
use ws_fanout.Gateway.Main.{Outside, bind_error, main}
use ws_fanout.Gateway.Exits.{first_failure, main-result}
use ws_fanout.Tests.Slots.{Permits, permits_semaphore}
use ws_fanout.Gateway.Carries.{feed_acts, acts-feed}
use ws_fanout.Gateway.Coherent.{published, snapshot-consume}
use ws_fanout.Outcry.{Read, Source, consume}
use ws_fanout.Outcry.Feeds.{acts, with_count}
use ws_fanout.Strings.Split.{split_once}
use ws_fanout.Strings.Utf8.{from_utf8, decode_utf8, take_byte, from_u32}
use ws_fanout.Snapshot.{LastValue, latest}
use ws_fanout.Tests.Queue.{Chan, chan_mpsc}
use ws_fanout.Tests.Sample.{pair}
use ws_fanout.Tests.Services.{serde}

-- serde_json takes the text as it is.
abbrev from_string : String → Option String
from_string text = some text

abbrev readings : List Reading
readings =
    record { last = "79000.00"; ts_ms = 5; accepted = true }
    ∷ record { last = "79000.01"; ts_ms = 105; accepted = true }
    ∷ record { last = "79000.02"; ts_ms = 205; accepted = false }
    ∷ []

abbrev none_yet : LastValue String
none_yet = record { last = [] }

acts-feed_example :
    acts (decode from_string) none_yet (map Read.frame (feed 0 readings))
    ≡ feed_acts from_string 0 readings
acts-feed_example = acts-feed from_string none_yet 0 readings

abbrev source : Source (LastValue String) Chan
source = record {
  buf = 65536;
  idle_polls = 0;
  undecodable = 0;
  decoder = none_yet;
  registry = pair;
  pauses = [];
}

-- "a\n1", an overrun, "a\n2"
abbrev reads : List Read
reads = Read.frame (97 ∷ 10 ∷ 49 ∷ []) ∷ Read.overrun 3 ∷ Read.frame (97 ∷ 10 ∷ 50 ∷ []) ∷ []

snapshot-consume_example :
    shared_snapshot
      (consume serde gateway_idle (decode from_string) source (with_count 2 reads)).0.decoder
      "a"
    ≡ latest
        (shared_snapshot none_yet "a")
        "a"
        (published (acts (decode from_string) none_yet reads))
snapshot-consume_example =
    snapshot-consume serde gateway_idle from_string 2 source reads "a" (omega arith)

-- Both ways of working it out.
reads-published :
    published (acts (decode from_string) none_yet reads) ≡ ("a", "1") ∷ ("a", "2") ∷ []
unfolding acts decode ws_fanout.Gateway.decode_text published from_utf8 decode_utf8 take_byte
    from_u32 split_once nat_eq ws_fanout.Prelude.ℕ_discrete
reads-published = refl

-- The queue is there, the port is taken.
abbrev outside : Outside String String String Chan String
outside = record {
  queue = ok tt;
  listener = err "address in use";
  ctrl_c = ok tt;
  registry = pair;
  snapshots = none_yet;
  source_ended = false;
}

enough : 10000 ≤ permits_semaphore.max_permits
unfolding permits_semaphore
enough = omega arith

main-result_example :
    (main {WsError = String} String String Permits (λ e. e) (λ a. a) outside).result
    ≡ err (bind_error (Error.io "address in use"))
unfolding first_failure
main-result_example = main-result String String Permits (λ e. e) (λ a. a) outside enough

-- Nothing is missing, and Ctrl-C comes.
stopped_lines :
    (main {WsError = String} String String Permits
      (λ e. e)
      (λ a. a)
      (record outside { listener = ok "127.0.0.1:9001" })).printed
    ≡ "gateway listening on ws://127.0.0.1:9001"
      ∷ "stopping; 2 connections, 0 frames sent, 0 dropped" ∷ []
unfolding main gateway_builder permits_semaphore ws_fanout.Server.Config.validate nat_eq
    ws_fanout.Prelude.ℕ_discrete ws_fanout.Server.Config.default ws_fanout.Registry.len
stopped_lines = refl
