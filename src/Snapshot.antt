-- ===== src/Snapshot.antt =====
-- src/snapshot.rs. The lock of `LastValue` is entered also when poisoned, so it adds nothing.
use ws_fanout.Prelude.{
  ◌≡◌, refl, Option, none, some, String, List, [], ◌∷◌, foldl, ◌==◌, if◌then◌else◌, nat_eq,
  string_eq,
}
use ws_fanout.Collections.HashMap
use ws_fanout.Collections.HashMap.{HashMap}

-- `NoSnapshots`.
unfoldable pub no_snapshots : {RawValue : Type 0} → String → Option RawValue
no_snapshots channel = none

pub record LastValue (RawValue : Type 0) : Type 0 where
  pub last : HashMap String RawValue

module _ {RawValue : Type 0} where
  unfoldable pub new : LastValue RawValue
  new = record { last = [] }

  -- `LastValue::record`.
  unfoldable pub record_last : LastValue RawValue → String → RawValue → LastValue RawValue
  record_last s channel payload = record { last = HashMap.insert channel payload s.last }

  unfoldable pub snapshot : LastValue RawValue → String → Option RawValue
  snapshot s channel = HashMap.get channel s.last

  -- The last payload in a history of `record` calls, else what was there before.
  unfoldable pub latest : Option RawValue → String → List (String × RawValue) → Option RawValue
  latest before channel [] = before
  latest before channel ((ch, payload) ∷ rest) =
      latest (if ch == channel then some payload else before) channel rest

  -- After any history of record calls, the snapshot of a channel is the payload recorded last for
  -- it, or what was there before if there is none.
  pub snapshot-record :
      (s : LastValue RawValue) (history : List (String × RawValue)) (channel : String)
      → snapshot (foldl (λ t e. record_last t e.0 e.1) s history) channel
        ≡ latest (snapshot s channel) channel history
  unfolding snapshot record_last latest
  snapshot-record s [] channel = refl
  snapshot-record s ((ch, payload) ∷ rest) channel =
      rw (snapshot-record (record_last s ch payload) rest channel, record_last)
        (rw (HashMap.get-insert ch channel payload s.last))
