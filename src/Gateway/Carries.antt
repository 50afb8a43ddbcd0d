-- ===== src/Gateway/Carries.antt =====
-- What examples/gateway.rs makes of a frame `channel\n{json}`, and of examples/synthetic_feed.rs's.
use ws_fanout.Prelude.{
  ℕ, suc, ◌+◌, ◌-◌, ◌*◌, ◌%◌, ◌≤◌, ◌<◌, ◌≡◌, ◌≢◌, ◌↔◌, refl, Bool, true, false, ◌||◌, ◌&&◌, not,
  Option, none, some, List, [], ◌∷◌, map, foldl, arith, Eq, ◌==◌, leb, ltb, if◌then◌else◌, length,
  is_empty, All, Bool-cases, Option-cases, inl, inr, ◌⊎◌, ◌∙◌, ap, sym, nat_eq, string_eq,
  wrapping_add, wrapping_sub, u64_mod, wrapping_add_exact, wrapping_add-lt, ==_refl, ==_iff,
  ==_comm, Result, ok, err, Result-cases, filter_b, filter_b-All, All-filter_b, partition, Bool-ext,
  All-append, length-append,
}
use Prim.Native.String.{String, ◌++◌}
use text.Mathlib.TextLemmas.{nil-append, cons-append}
use ws_fanout.Feed.{Reading, ticker, tick_json, tick_frame, feed}
use ws_fanout.Gateway.{newline, decode_text, decode}
use ws_fanout.Outcry.{Read, frame}
use ws_fanout.Outcry.Feeds.{Act, publishes, acts}
use ws_fanout.Snapshot.{LastValue, record_last}
use ws_fanout.Strings.Split.{has_char, split_once, split_once-append}
use ws_fanout.Strings.Utf8.{as_bytes}
use ws_fanout.Strings.Utf8.RoundTrip.{from_utf8-as_bytes}

newline-append : (t : String) → "\n" ++ t ≡ String.◌∷◌ newline t
newline-append t = cons-append newline String.[] t ∙ ap (String.◌∷◌ newline) (nil-append t)

ticker-has_char : has_char newline ticker ≡ false
unfolding has_char nat_eq ws_fanout.Prelude.ℕ_discrete
ticker-has_char = refl

module _ {RawValue : Type 0} (from_string : String → Option RawValue) where
  decode-as_bytes :
      (last : LastValue RawValue) (text : String)
      → decode from_string last (as_bytes text) ≡ decode_text from_string last text
  unfolding decode decode_text
  decode-as_bytes last text = rw (from_utf8-as_bytes text, decode) refl

  split_frame :
      (channel json : String)
      → has_char newline channel ≡ false
      → split_once newline (channel ++ ("\n" ++ json)) ≡ some (channel, json)
  split_frame channel json h = rw (newline-append json) (split_once-append newline channel json h)

  -- A frame of a payload.
  decode-frame :
      (last : LastValue RawValue) (channel json : String) (payload : RawValue)
      → has_char newline channel ≡ false
      → from_string json ≡ some payload
      → decode from_string last (as_bytes (channel ++ ("\n" ++ json)))
        ≡ (record_last last channel payload, some (record { channel = channel; payload = payload }))
  unfolding decode_text record_last
  decode-frame last channel json payload h e =
      decode-as_bytes last (channel ++ ("\n" ++ json))
      ∙ rw (split_frame channel json h, decode_text) (rw e refl)

  decode-bad_json :
      (last : LastValue RawValue) (channel json : String)
      → has_char newline channel ≡ false
      → from_string json ≡ none
      → decode from_string last (as_bytes (channel ++ ("\n" ++ json))) ≡ (last, none)
  unfolding decode_text
  decode-bad_json last channel json h e =
      decode-as_bytes last (channel ++ ("\n" ++ json))
      ∙ rw (split_frame channel json h, decode_text) (rw e refl)

  -- What the feed's rounds come to: a payload for the ticker, where serde_json takes the text.
  unfoldable pub feed_acts : ℕ → List Reading → List (Act RawValue)
  feed_acts seq [] = []
  feed_acts seq (r ∷ readings) =
      let rest = feed_acts (wrapping_add seq 1) readings in
      elim r.accepted [
        | true ↦ elim (from_string (tick_json seq r)) [
          | none ↦ rest
          | some payload ↦ publishes (record { channel = ticker; payload = payload }) ∷ rest
        ]
        | false ↦ []
      ]

  acts-frame :
      (last : LastValue RawValue) (seq : ℕ) (r : Reading) (reads : List Read)
      (rest : List (Act RawValue))
      → ((last' : LastValue RawValue) → acts (decode from_string) last' reads ≡ rest)
      → acts (decode from_string) last (frame (as_bytes (tick_frame seq r)) ∷ reads)
        ≡ elim (from_string (tick_json seq r)) [
          | none ↦ rest
          | some payload ↦ publishes (record { channel = ticker; payload = payload }) ∷ rest
        ]
  unfolding acts tick_frame
  acts-frame last seq r reads rest ih = elim (Option-cases (from_string (tick_json seq r))) [
    | inl e ↦
        let d = decode-bad_json last ticker (tick_json seq r) ticker-has_char e in
        ground (arith, e, d, ih last)
    | inr (payload, e) ↦
        let d = decode-frame last ticker (tick_json seq r) payload ticker-has_char e in
        ground (arith, e, d, ih (record_last last ticker payload))
  ]

  -- Of the frames that the example feed writes, up to the first write that fails, the example
  -- gateway's source publishes on the ticker's channel, in order, the payload of each whose JSON
  -- serde_json takes, and nothing else, whatever snapshots it starts with.
  pub acts-feed :
      (last : LastValue RawValue) (seq : ℕ) (readings : List Reading)
      → acts (decode from_string) last (map frame (feed seq readings)) ≡ feed_acts seq readings
  unfolding feed feed_acts
  acts-feed last seq [] = unfold acts in refl
  acts-feed last seq (r ∷ readings) = elim (Bool-cases r.accepted) [
    | inl yes_written ↦ ground (
      arith,
      yes_written,
      acts-frame last seq r (map frame (feed (wrapping_add seq 1) readings))
          (feed_acts (wrapping_add seq 1) readings)
          (λ l. acts-feed l (wrapping_add seq 1) readings),
    )
    | inr not_written ↦ unfold acts in ground (arith, not_written)
  ]
