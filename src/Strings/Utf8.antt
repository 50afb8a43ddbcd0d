-- ===== src/Strings/Utf8.antt =====
-- `str::as_bytes` and `str::from_utf8`, of which examples/gateway.rs and
-- examples/synthetic_feed.rs use one each.
pub mod RoundTrip
use ws_fanout.Prelude.{
  dec_lt, ℕ, suc, ◌+◌, ◌-◌, ◌*◌, ◌%◌, ◌≤◌, ◌<◌, ◌≡◌, ◌≢◌, ◌↔◌, refl, Bool, true, false, ◌||◌, ◌&&◌,
  not, Option, none, some, List, [], ◌∷◌, ◌++◌, map, foldl, arith, Eq, ◌==◌, leb, ltb,
  if◌then◌else◌, length, is_empty, All, Bool-cases, Option-cases, inl, inr, ◌⊎◌, ◌∙◌, ap, sym,
  nat_eq, string_eq, wrapping_add, wrapping_sub, u64_mod, wrapping_add_exact, wrapping_add-lt,
  ==_refl, ==_iff, ==_comm, Result, ok, err, Result-cases, filter_b, filter_b-All, All-filter_b,
  partition, Bool-ext, All-append, length-append,
}
use Prim.Native.Nat.{◌/◌, compare, Ordering}
use Prim.Native.Char.{Char, char, code, IsScalar}
use Prim.Native.String.{String}
use mathlib.Core.Option
use mathlib.Core.Logic.{dite, dif_pos, dif_neg}
use native.Mathlib.Bridge.{le_prop}
use text.Mathlib.TextEquality.{Char-path}

pub low-IsScalar : (n : ℕ) → n < 55296 → IsScalar n
low-IsScalar n h = let e : compare n 55296 ≡ Ordering.lt = ground arith in rw e tt

pub high-IsScalar : (n : ℕ) → 57343 < n → n < 1114112 → IsScalar n
high-IsScalar n l h =
    let e : compare n 55296 ≡ Ordering.gt = ground arith in
    let f : compare 57343 n ≡ Ordering.lt = ground arith in
    let g : compare n 1114112 ≡ Ordering.lt = ground arith in rw (e, f, g) tt

-- `char::from_u32`.
unfoldable pub from_u32 : ℕ → Option Char
unfolding dec_lt
from_u32 n =
    dite (dec_lt n 55296) (λ h. some (char n (low-IsScalar n h)))
      (λ _.
        dite (dec_lt 57343 n)
          (λ l. dite (dec_lt n 1114112) (λ h. some (char n (high-IsScalar n l h))) (λ _. none))
          (λ _. none))

-- The bytes of one character.
unfoldable pub encode_utf8 : Char → List ℕ
encode_utf8 c =
    let n = code c in
    if ltb n 128
    then n ∷ []
    else if ltb n 2048
    then (192 + n / 64) ∷ (128 + n % 64) ∷ []
    else if ltb n 65536
    then (224 + n / 4096) ∷ (128 + n / 64 % 64) ∷ (128 + n % 64) ∷ []
    else (240 + n / 262144) ∷ (128 + n / 4096 % 64) ∷ (128 + n / 64 % 64) ∷ (128 + n % 64) ∷ []

unfoldable pub as_bytes : String → List ℕ
as_bytes String.[] = []
as_bytes (String.◌∷◌ c s) = encode_utf8 c ++ as_bytes s

-- Between two characters, or within one: so many more bytes to come after the next, the bits so far,
-- and the least number that a character of this width may have.
pub data Pending : Type 0 where
  lead : Pending
  more : (rest bits least : ℕ) → Pending

-- One byte: the character that it completes, if any, and what is pending then.
unfoldable pub take_byte : Pending → ℕ → Option (Option Char × Pending)
unfolding from_u32
take_byte lead b =
    if ltb b 128
    then Option.map (λ c. (some c, lead)) (from_u32 b)
    else if ltb b 192
    then none
    else if ltb b 224
    then some (none, more 0 (b - 192) 128)
    else if ltb b 240
    then some (none, more 1 (b - 224) 2048)
    else if ltb b 248
    then some (none, more 2 (b - 240) 65536)
    else none
take_byte (more rest bits least) b =
    let n = bits * 64 + (b - 128) in
    if leb 128 b && ltb b 192
    then (if ltb 0 rest
        then some (none, more (rest - 1) n least)
        else if leb least n
        then Option.map (λ c. (some c, lead)) (from_u32 n)
        else none)
    else none

-- Prepend the character that is complete, if there is one.
unfoldable pub completed : Option Char → String → String
completed none s = s
completed (some c) s = String.◌∷◌ c s

unfoldable pub decode_utf8 : Pending → List ℕ → Option String
unfolding completed
decode_utf8 lead [] = some String.[]
decode_utf8 (more rest bits least) [] = none
decode_utf8 p (b ∷ bytes) = elim (take_byte p b) [
  | none ↦ none
  | some (c, q) ↦ Option.map (completed c) (decode_utf8 q bytes)
]

unfoldable pub from_utf8 : List ℕ → Option String
unfolding decode_utf8
from_utf8 bytes = decode_utf8 lead bytes
