-- ===== src/Outcry.antt =====
-- src/outcry_source.rs: the loop of `consume_outcry`. The queue's consumer is a parameter in that each
-- round of the loop is given what `try_read` answered, and how many clones of the server there were
-- when the loop looked; the decoder may keep a state of its own. Sleeping is recorded, not done.
pub mod Feeds
use ws_fanout.Prelude.{
  ℕ, suc, ◌+◌, ◌-◌, ◌*◌, ◌%◌, ◌≤◌, ◌<◌, ◌≡◌, ◌≢◌, ◌↔◌, refl, Bool, true, false, ◌||◌, ◌&&◌, not,
  Option, none, some, String, List, [], ◌∷◌, ◌++◌, map, foldl, arith, Eq, ◌==◌, leb, ltb,
  if◌then◌else◌, length, is_empty, All, Bool-cases, Option-cases, inl, inr, ◌⊎◌, ◌∙◌, ap, sym,
  nat_eq, string_eq, wrapping_add, wrapping_sub, u64_mod, wrapping_add_exact, wrapping_add-lt,
  ==_refl, ==_iff, ==_comm, Result, ok, err, Result-cases, filter_b, filter_b-All, All-filter_b,
  partition, Bool-ext, All-append, length-append,
}
use ws_fanout.Api.{publish, resync_all}
use ws_fanout.Protocol.{Serde}
use ws_fanout.Mpsc.{Mpsc}
use ws_fanout.Registry.{Registry}

pub record Decoded (RawValue : Type 0) : Type 0 where
  pub channel : String
  pub payload : RawValue

-- A duration is in nanoseconds.
pub data Idle : Type 0 where
  spin : Idle
  sleep : ℕ → Idle

-- What `try_read` answered: the bytes of a frame, nothing, or an error.
pub data Read : Type 0 where
  frame : List ℕ → Read
  empty : Read
  overrun : ℕ → Read
  buffer_too_small : ℕ → Read
  failed : Read

-- The loop's variables, the server's registry and what the thread did while it was idle.
pub record Source (State Tx : Type 0) : Type 0 where
  pub buf : ℕ
  pub idle_polls : ℕ
  pub undecodable : ℕ
  pub decoder : State
  pub registry : Registry Tx
  pub pauses : List Idle

-- `u32::saturating_add(1)`.
unfoldable pub saturating_inc : ℕ → ℕ
saturating_inc n = if ltb n 4294967295 then n + 1 else 4294967295

-- What the thread does with an empty queue, after so many empty polls.
unfoldable pub pause : Idle → ℕ → Idle
pause spin polls = spin
pause (sleep d) polls = if ltb 1000 polls then sleep d else spin

module _ {RawValue State : Type 0} {Tx : Type 0} ⦃mpsc : Mpsc Tx⦄ (serde : Serde RawValue)
    (idle : Idle) (decode : State → List ℕ → State × Option (Decoded RawValue)) where
  unfoldable pub initial : State → Registry Tx → Source State Tx
  initial st r = record {
    buf = 64 * 1024;
    idle_polls = 0;
    undecodable = 0;
    decoder = st;
    registry = r;
    pauses = [];
  }

  -- A frame: publish what it decodes to.
  unfoldable pub on_frame : Source State Tx → List ℕ → Source State Tx
  on_frame s bytes =
      let (st, decoded) = decode s.decoder bytes in
      elim decoded [
        | some d ↦ record s {
          idle_polls = 0;
          decoder = st;
          registry = (publish serde s.registry d.channel d.payload).0;
        }
        | none ↦ record s {
          idle_polls = 0;
          decoder = st;
          undecodable = wrapping_add s.undecodable 1;
        }
      ]

  unfoldable pub on_empty : Source State Tx → Source State Tx
  on_empty s =
      let polls = saturating_inc s.idle_polls in
      record s { idle_polls = polls; pauses = s.pauses ++ pause idle polls ∷ [] }

  -- One round; `none` is the `break`.
  unfoldable pub poll : Source State Tx → Read → Option (Source State Tx)
  unfolding on_frame on_empty
  poll s (frame bytes) = some (on_frame s bytes)
  poll s empty = some (on_empty s)
  poll s (overrun behind) = some (record s { registry = (resync_all serde s.registry).0 })
  poll s (buffer_too_small needed) = some (record s { buf = needed })
  poll s failed = none

  -- The loop, over what each round finds: the number of clones and the answer of `try_read`. The
  -- result says whether the thread has ended.
  unfoldable pub consume : Source State Tx → List (ℕ × Read) → Source State Tx × Bool
  consume s [] = (s, false)
  consume s ((count, read) ∷ rounds) =
      if ltb 1 count
      then elim (poll s read) [ none ↦ (s, true) | some t ↦ consume t rounds ]
      else (s, true)

-- The clones of a server: the callers' own, and one in each source's thread.
unfoldable pub strong_count : ℕ → ℕ → ℕ
strong_count callers sources = callers + sources
