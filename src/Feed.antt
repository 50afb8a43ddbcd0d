-- ===== src/Feed.antt =====
-- examples/synthetic_feed.rs: a ticker that writes one frame after another into the queue. The
-- price, a `f64` printed with two digits, and the clock are given for each round, with what `write`
-- answered.
use ws_fanout.Prelude.{
  Result, ok, err, ℕ, Bool, true, false, List, [], ◌∷◌, nat_eq, string_eq, wrapping_add,
}
use Prim.Native.String.{String, ◌++◌}
use ws_fanout.Strings.Utf8.{as_bytes}
use ws_fanout.Strings.Decimal.{display}

-- One round: the price's text, the milliseconds since the epoch, and whether the write succeeded.
pub record Reading : Type 0 where
  pub last : String
  pub ts_ms : ℕ
  pub accepted : Bool

abbrev pub ticker : String
ticker = "ticker:BTC-USD"

-- The part of the frame behind the newline.
unfoldable pub tick_json : ℕ → Reading → String
tick_json seq r =
    "{\"seq\":"
    ++ (display seq ++ (",\"last\":" ++ (r.last ++ (",\"ts_ms\":" ++ (display r.ts_ms ++ "}")))))

unfoldable pub tick_frame : ℕ → Reading → String
unfolding tick_json
tick_frame seq r = ticker ++ ("\n" ++ tick_json seq r)

-- The frames that are written, up to the first write that fails.
unfoldable pub feed : ℕ → List Reading → List (List ℕ)
unfolding tick_frame
feed seq [] = []
feed seq (r ∷ readings) = elim r.accepted [
  | true ↦ as_bytes (tick_frame seq r) ∷ feed (wrapping_add seq 1) readings
  | false ↦ []
]

-- What `main` prints, and the frames that it writes, given whether the queue was created and a
-- producer had.
unfoldable pub feed_main :
    {OutcryError : Type 0}
    → Result OutcryError (Unit {0})
    → Result OutcryError (Unit {0})
    → List Reading
    → List String × List (List ℕ)
unfolding feed
feed_main (err e) producer readings = ([], [])
feed_main (ok _) (err e) readings = ([], [])
feed_main (ok _) (ok _) readings =
    ("writing ticker:BTC-USD to /dev/shm/ws-fanout-demo; Ctrl-C to stop" ∷ [], feed 0 readings)
