-- ===== src/Gateway/Coherent.antt =====
-- The snapshots of examples/gateway.rs against what its source has published.
use ws_fanout.Prelude.{
  ℕ, ◌<◌, ◌≡◌, refl, Option, none, some, String, List, [], ◌∷◌, arith, ◌==◌, if◌then◌else◌,
  Option-cases, inl, inr, nat_eq, string_eq,
}
use ws_fanout.Api.{resync_all}
use ws_fanout.Collections.HashMap
use ws_fanout.Gateway.{decode, decode_text, shared_snapshot}
use ws_fanout.Mpsc.{Mpsc}
use ws_fanout.Outcry.{
  Decoded, Idle, Read, frame, empty, overrun, buffer_too_small, failed, Source, on_frame, on_empty,
  poll, consume,
}
use ws_fanout.Outcry.Feeds.{Act, publishes, resyncs, acts, with_count}
use ws_fanout.Protocol.{Serde}
use ws_fanout.Snapshot.{LastValue, record_last, latest}

-- The payloads that are published, with their channels.
unfoldable pub published : {RawValue : Type 0} → List (Act RawValue) → List (String × RawValue)
published [] = []
published (publishes d ∷ rest) = (d.channel, d.payload) ∷ published rest
published (resyncs ∷ rest) = published rest

module _ {RawValue : Type 0} (from_string : String → Option RawValue) where
  -- The decoder keeps what it hands on, and nothing else.
  unfoldable keeps : LastValue RawValue → Option (Decoded RawValue) → LastValue RawValue
  keeps last none = last
  keeps last (some d) = record_last last d.channel d.payload

  decode-keeps :
      (last : LastValue RawValue) (bytes : List ℕ)
      → (decode from_string last bytes).0 ≡ keeps last (decode from_string last bytes).1
  unfolding decode decode_text keeps
  decode-keeps last bytes = ground arith

  keeps-snapshot :
      (last : LastValue RawValue) (d : Decoded RawValue) (channel : String)
      → shared_snapshot (record_last last d.channel d.payload) channel
        ≡ (if d.channel == channel then some d.payload else shared_snapshot last channel)
  unfolding record_last shared_snapshot
  keeps-snapshot last d channel = HashMap.get-insert d.channel channel d.payload last.last

module _ {RawValue : Type 0} {Tx : Type 0} ⦃mpsc : Mpsc Tx⦄ (serde : Serde RawValue) (idle : Idle)
    (from_string : String → Option RawValue) where
  -- While the example gateway's source sees more than one clone of the server, the snapshot of a
  -- channel is the payload that the source published last on it, or what it was before if there is
  -- none.
  pub snapshot-consume :
      (n : ℕ) (s : Source (LastValue RawValue) Tx) (reads : List Read) (channel : String)
      → 1 < n
      → shared_snapshot
          (consume serde idle (decode from_string) s (with_count n reads)).0.decoder
          channel
        ≡ latest
            (shared_snapshot s.decoder channel)
            channel
            (published (acts (decode from_string) s.decoder reads))
  unfolding consume poll on_empty on_frame acts published latest keeps
  snapshot-consume n s [] channel h = refl
  snapshot-consume n s (frame bytes ∷ reads) channel h =
      elim (Option-cases (decode from_string s.decoder bytes).1) [
        | inl e ↦
            let k = decode-keeps from_string s.decoder bytes in
            ground (
              arith,
              h,
              e,
              k,
              snapshot-consume n (on_frame serde idle (decode from_string) s bytes) reads channel h,
            )
        | inr (d, e) ↦
            let k = decode-keeps from_string s.decoder bytes in
            ground (
              arith,
              h,
              e,
              k,
              keeps-snapshot from_string s.decoder d channel,
              snapshot-consume n (on_frame serde idle (decode from_string) s bytes) reads channel h,
            )
      ]
  snapshot-consume n s (empty ∷ reads) channel h =
      ground
        (arith, h, snapshot-consume n (on_empty serde idle (decode from_string) s) reads channel)
  snapshot-consume n s (overrun behind ∷ reads) channel h = ground (
    arith,
    h,
    snapshot-consume n (record s { registry = (resync_all serde s.registry).0 }) reads channel h,
  )
  snapshot-consume n s (buffer_too_small needed ∷ reads) channel h =
      ground (arith, h, snapshot-consume n (record s { buf = needed }) reads channel h)
  snapshot-consume n s (failed ∷ reads) channel h = ground (arith, h)
