-- ===== src/Outcry/Feeds.antt =====
-- What the loop of src/outcry_source.rs does to the server, and when it ends.
use ws_fanout.Prelude.{
  ltb→lt, ℕ, ◌+◌, ◌<◌, ◌≡◌, refl, Bool, true, false, ◌||◌, Option, none, some, List, [], ◌∷◌, map,
  foldl, arith, leb, ltb, Bool-cases, Option-cases, inl, inr, nat_eq, string_eq,
}
use ws_fanout.Api.{publish, resync_all}
use ws_fanout.Protocol.{Serde}
use ws_fanout.Mpsc.{Mpsc}
use ws_fanout.Registry.{Registry}
use ws_fanout.Outcry.{
  Decoded, Idle, Read, frame, empty, overrun, buffer_too_small, failed, Source, on_frame, on_empty,
  poll, consume, strong_count,
}

-- What a source asks of the server.
pub data Act (RawValue : Type 0) : Type 0 where
  publishes : Decoded RawValue → Act RawValue
  resyncs : Act RawValue

module _ {RawValue State : Type 0}
    (decode : State → List ℕ → State × Option (Decoded RawValue)) where
  -- What a list of answers comes to: every frame that decodes is published and every overrun
  -- resyncs, in order, up to the first failure.
  unfoldable pub acts : State → List Read → List (Act RawValue)
  acts st [] = []
  acts st (frame bytes ∷ reads) =
      let (st', decoded) = decode st bytes in
      let rest = acts st' reads in elim decoded [ some d ↦ publishes d ∷ rest | none ↦ rest ]
  acts st (empty ∷ reads) = acts st reads
  acts st (overrun behind ∷ reads) = resyncs ∷ acts st reads
  acts st (buffer_too_small needed ∷ reads) = acts st reads
  acts st (failed ∷ reads) = []

-- Every round finds the same number of clones.
abbrev pub with_count : ℕ → List Read → List (ℕ × Read)
with_count n = map (λ read. (n, read))

module _ {RawValue State : Type 0} {Tx : Type 0} ⦃mpsc : Mpsc Tx⦄ (serde : Serde RawValue)
    (idle : Idle) (decode : State → List ℕ → State × Option (Decoded RawValue)) where
  unfoldable pub act : Registry Tx → Act RawValue → Registry Tx
  act r (publishes d) = (publish serde r d.channel d.payload).0
  act r resyncs = (resync_all serde r).0

  -- While a source sees more than one clone of the server, what it does to the server's registry
  -- is to publish every frame that decodes, and to resync for every overrun, in the order of the
  -- reads, up to the first failure.
  pub consume-acts :
      (n : ℕ) (s : Source State Tx) (reads : List Read)
      → 1 < n
      → (consume serde idle decode s (with_count n reads)).0.registry
        ≡ foldl act s.registry (acts decode s.decoder reads)
  unfolding consume poll on_frame on_empty act acts
  consume-acts n s [] h = refl
  consume-acts n s (frame bytes ∷ reads) h = elim (Option-cases (decode s.decoder bytes).1) [
    | inl e ↦ ground (arith, h, e, consume-acts n (on_frame serde idle decode s bytes) reads h)
    | inr (d, e) ↦ ground (arith, h, e, consume-acts n (on_frame serde idle decode s bytes) reads h)
  ]
  consume-acts n s (empty ∷ reads) h =
      ground (arith, h, consume-acts n (on_empty serde idle decode s) reads)
  consume-acts n s (overrun behind ∷ reads) h =
      ground
        (arith, h, consume-acts n (record s { registry = (resync_all serde s.registry).0 }) reads h)
  consume-acts n s (buffer_too_small needed ∷ reads) h =
      ground (arith, h, consume-acts n (record s { buf = needed }) reads h)
  consume-acts n s (failed ∷ reads) h = ground (arith, h)

-- Whether one of the answers is a failure.
unfoldable pub has_failed : List Read → Bool
has_failed [] = false
has_failed (failed ∷ reads) = true
has_failed (frame bytes ∷ reads) = has_failed reads
has_failed (empty ∷ reads) = has_failed reads
has_failed (overrun behind ∷ reads) = has_failed reads
has_failed (buffer_too_small needed ∷ reads) = has_failed reads

module _ {RawValue State : Type 0} {Tx : Type 0} ⦃mpsc : Mpsc Tx⦄ (serde : Serde RawValue)
    (idle : Idle) (decode : State → List ℕ → State × Option (Decoded RawValue)) where
  consume-failed :
      (n : ℕ) (s : Source State Tx) (reads : List Read)
      → 1 < n
      → (consume serde idle decode s (with_count n reads)).1 ≡ has_failed reads
  unfolding consume poll has_failed
  consume-failed n s [] h = refl
  consume-failed n s (frame bytes ∷ reads) h =
      ground (arith, h, consume-failed n (on_frame serde idle decode s bytes) reads h)
  consume-failed n s (empty ∷ reads) h =
      ground (arith, h, consume-failed n (on_empty serde idle decode s) reads h)
  consume-failed n s (overrun behind ∷ reads) h =
      ground (
        arith,
        h,
        consume-failed n (record s { registry = (resync_all serde s.registry).0 }) reads h,
      )
  consume-failed n s (buffer_too_small needed ∷ reads) h =
      ground (arith, h, consume-failed n (record s { buf = needed }) reads h)
  consume-failed n s (failed ∷ reads) h = ground (arith, h)

  -- Over one round or more, a source's thread ends exactly if callers and sources together hold at
  -- most one clone of the server, or a read fails.
  pub consume-ended :
      (callers sources : ℕ) (s : Source State Tx) (read : Read) (reads : List Read)
      → (consume serde idle decode s (with_count (strong_count callers sources) (read ∷ reads))).1
        ≡ (leb (callers + sources) 1 || has_failed (read ∷ reads))
  unfolding strong_count
  consume-ended callers sources s read reads = elim (Bool-cases (ltb 1 (callers + sources))) [
    | inl more ↦
        ground (arith, more, consume-failed (callers + sources) s (read ∷ reads) (ltb→lt 1 _ more))
    | inr fewer ↦ unfold consume in ground (arith, fewer)
  ]
