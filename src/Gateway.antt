-- ===== src/Gateway.antt =====
-- examples/gateway.rs: a server fed from an outcry queue, whose decoder also keeps the snapshots.
-- `from_string` is serde_json's `RawValue::from_string`. `main` itself, with what it prints, is
-- Gateway/Main.antt.
pub mod Carries
pub mod Coherent
pub mod Main
pub mod Exits
use ws_fanout.Prelude.{
  ℕ, suc, ◌+◌, ◌-◌, ◌*◌, ◌%◌, ◌≤◌, ◌<◌, ◌≡◌, ◌≢◌, ◌↔◌, refl, Bool, true, false, ◌||◌, ◌&&◌, not,
  Option, none, some, String, List, [], ◌∷◌, ◌++◌, map, foldl, arith, Eq, ◌==◌, leb, ltb,
  if◌then◌else◌, length, is_empty, All, Bool-cases, Option-cases, inl, inr, ◌⊎◌, ◌∙◌, ap, sym,
  nat_eq, string_eq, wrapping_add, wrapping_sub, u64_mod, wrapping_add_exact, wrapping_add-lt,
  ==_refl, ==_iff, ==_comm, Result, ok, err, Result-cases, filter_b, filter_b-All, All-filter_b,
  partition, Bool-ext, All-append, length-append,
}
use Prim.Native.Char.{Char, char}
use ws_fanout.Api
use ws_fanout.Api.{Builder, builder, heartbeat}
use ws_fanout.Auth.{static_token, validate_static}
use ws_fanout.Outcry.{Decoded, Idle}
use ws_fanout.Server.Config.{from_secs}
use ws_fanout.Snapshot.{LastValue, record_last, snapshot}
use ws_fanout.Snapshot
use ws_fanout.Strings.Utf8.{from_utf8}
use ws_fanout.Strings.Split.{split_once}

-- '\n'
abbrev pub newline : Char
newline = char 10 tt

-- `SharedLastValue`: the decoder's store, read by the server.
unfoldable pub shared_snapshot : {RawValue : Type 0} → LastValue RawValue → String → Option RawValue
unfolding snapshot
shared_snapshot last channel = snapshot last channel

-- The decoder, from the text on.
unfoldable pub decode_text :
    {RawValue : Type 0}
    → (String → Option RawValue)
    → LastValue RawValue
    → String
    → LastValue RawValue × Option (Decoded RawValue)
unfolding record_last
decode_text from_string last text = elim (split_once newline text) [
  | none ↦ (last, none)
  | some (channel, json) ↦ elim (from_string json) [
    | none ↦ (last, none)
    | some payload ↦
        (record_last last channel payload, some (record { channel = channel; payload = payload }))
  ]
]

unfoldable pub decode :
    {RawValue : Type 0}
    → (String → Option RawValue)
    → LastValue RawValue
    → List ℕ
    → LastValue RawValue × Option (Decoded RawValue)
unfolding decode_text
decode from_string last bytes = elim (from_utf8 bytes) [
  | none ↦ (last, none)
  | some text ↦ decode_text from_string last text
]

-- What `main` gives the builder and the source.
unfoldable pub gateway_builder :
    {RawValue Value : Type 0} → LastValue RawValue → Builder RawValue Value
unfolding builder heartbeat Api.snapshots Api.validator shared_snapshot static_token validate_static
gateway_builder last =
    heartbeat
      (Api.snapshots (Api.validator builder (validate_static (static_token "demo" "demo-user")))
        (shared_snapshot last))
      (from_secs 15) (from_secs 45)

abbrev pub gateway_idle : Idle
gateway_idle = Idle.sleep 200000
