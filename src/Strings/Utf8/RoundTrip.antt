-- ===== src/Strings/Utf8/RoundTrip.antt =====
-- UTF-8 there and back, as examples/synthetic_feed.rs writes it and examples/gateway.rs reads it.
use ws_fanout.Prelude.{
  dec_lt, ℕ, suc, ◌+◌, ◌*◌, ◌%◌, ◌≤◌, ◌<◌, ◌≡◌, refl, Option, none, some, List, [], ◌∷◌, ◌++◌,
  arith, inl, inr, ◌⊎◌, ◌∙◌, ap, nat_eq, string_eq,
}
use Prim.Native.Nat.{◌/◌, compare, Ordering}
use Prim.Native.Char.{Char, char, code, IsScalar}
use Prim.Native.String.{String}
use mathlib.Core.Option
use mathlib.Core.Logic.{dif_pos, dif_neg}
use native.Mathlib.Bridge.{le_prop}
use text.Mathlib.TextEquality.{Char-path}
use ws_fanout.Strings.Utf8.{
  low-IsScalar, high-IsScalar, from_u32, encode_utf8, as_bytes, Pending, lead, more, take_byte,
  completed, decode_utf8, from_utf8,
}

ordering_cases : (o : Ordering) → (o ≡ Ordering.lt) ⊎ ((o ≡ Ordering.eq) ⊎ (o ≡ Ordering.gt))
ordering_cases Ordering.lt = inl refl
ordering_cases Ordering.eq = inr (inl refl)
ordering_cases Ordering.gt = inr (inr refl)

upper_half : (n : ℕ) → IsScalar n → compare n 55296 ≡ Ordering.gt → (57343 < n) × (n < 1114112)
upper_half n p e =
    let q = rw e at p in
    elim (ordering_cases (compare 57343 n)) [
      | inl f ↦
          let q' = rw f at q in
          elim (ordering_cases (compare n 1114112)) [
            | inl g ↦ (ground (arith, f), ground (arith, g))
            | inr (inl g) ↦ absurd (rw g at q')
            | inr (inr g) ↦ absurd (rw g at q')
          ]
      | inr (inl f) ↦ absurd (rw f at q)
      | inr (inr f) ↦ absurd (rw f at q)
    ]

scalar_cases : (n : ℕ) → IsScalar n → (n < 55296) ⊎ ((57343 < n) × (n < 1114112))
scalar_cases n p = elim (ordering_cases (compare n 55296)) [
  | inl e ↦ inl (ground (arith, e))
  | inr (inl e) ↦ let same : n ≡ 55296 = ground (arith, e) in absurd (rw same at p)
  | inr (inr e) ↦ inr (upper_half n p e)
]

code-lt : (c : Char) → code c < 1114112
code-lt (char n p) = elim (scalar_cases n p) [ inl low ↦ omega arith | inr (l, h) ↦ h ]

from_u32-code : (c : Char) → from_u32 (code c) ≡ some c
unfolding from_u32
from_u32-code (char n p) = elim (scalar_cases n p) [
  | inl low ↦
      rw (dif_pos (dec_lt n 55296) le_prop low _ _)
        (ap some (Char-path (char n (low-IsScalar n low)) (char n p) refl))
  | inr (l, h) ↦
      rw
        (
          dif_neg (dec_lt n 55296) (omega arith) _ _,
          dif_pos (dec_lt 57343 n) le_prop l _ _,
          dif_pos (dec_lt n 1114112) le_prop h _ _,
        )
        (ap some (Char-path (char n (high-IsScalar n l h)) (char n p) refl))
]

decode-take :
    (p q : Pending) (b : ℕ) (bytes : List ℕ) (c : Option Char)
    → take_byte p b ≡ some (c, q)
    → decode_utf8 p (b ∷ bytes) ≡ Option.map (completed c) (decode_utf8 q bytes)
unfolding decode_utf8
decode-take lead q b bytes c e = rw (e, decode_utf8) refl
decode-take (more rest bits least) q b bytes c e = rw (e, decode_utf8) refl

decode-take_none :
    (p q : Pending) (b : ℕ) (bytes : List ℕ)
    → take_byte p b ≡ some (none, q)
    → decode_utf8 p (b ∷ bytes) ≡ decode_utf8 q bytes
unfolding completed
decode-take_none p q b bytes e = decode-take p q b bytes none e ∙ map-same (decode_utf8 q bytes)
  where
    map-same : (x : Option String) → Option.map (λ s. s) x ≡ x
    map-same none = refl
    map-same (some s) = refl

module _ (c : Char) where
  take-last :
      (bits least : ℕ)
      → least ≤ code c
      → code c / 64 ≡ bits
      → take_byte (more 0 bits least) (128 + code c % 64) ≡ some (some c, lead)
  unfolding take_byte
  take-last bits least h e = ground (arith, h, e, from_u32-code c)

  take-middle :
      (n rest bits least : ℕ)
      → take_byte (more (suc rest) bits least) (128 + n % 64)
        ≡ some (none, more rest (bits * 64 + n % 64) least)
  unfolding take_byte
  take-middle n rest bits least = ground arith

  decode-last :
      (bits least : ℕ) (bytes : List ℕ)
      → least ≤ code c
      → code c / 64 ≡ bits
      → decode_utf8 (more 0 bits least) ((128 + code c % 64) ∷ bytes)
        ≡ Option.map (String.◌∷◌ c) (decode_utf8 lead bytes)
  unfolding completed
  decode-last bits least bytes h e =
      decode-take (more 0 bits least) lead (128 + code c % 64) bytes (some c)
        (take-last bits least h e)

  decode-encode :
      (bytes : List ℕ)
      → decode_utf8 lead (encode_utf8 c ++ bytes)
        ≡ Option.map (String.◌∷◌ c) (decode_utf8 lead bytes)
  unfolding completed
  decode-encode bytes = elim (dec_lt (code c) 128) [
    | yes h ↦ rw (encode_one h) (decode-take lead lead (code c) bytes (some c) (take_one h))
    | no h ↦ elim (dec_lt (code c) 2048) [
      | yes k ↦ rw (encode_two (omega arith) k) (
          decode-take_none lead (more 0 (code c / 64) 128) _ _ (take_two k)
          ∙ decode-last (code c / 64) 128 bytes (omega arith) refl)
      | no k ↦ elim (dec_lt (code c) 65536) [
        | yes l ↦ rw (encode_three (omega arith) l) (
            decode-take_none lead (more 1 (code c / 4096) 2048) _ _ (take_three l)
            ∙ decode-take_none (more 1 (code c / 4096) 2048) (more 0 _ 2048) _ _
                (take-middle (code c / 64) 0 (code c / 4096) 2048)
            ∙ decode-last _ 2048 bytes (omega arith) (omega arith))
        | no l ↦
            let last = code-lt c in
            rw (encode_four (omega arith)) (
              decode-take_none lead (more 2 (code c / 262144) 65536) _ _ (take_four last)
              ∙ decode-take_none (more 2 (code c / 262144) 65536) (more 1 _ 65536) _ _
                  (take-middle (code c / 4096) 1 (code c / 262144) 65536)
              ∙ decode-take_none (more 1 _ 65536) (more 0 _ 65536) _ _
                  (take-middle (code c / 64) 0 _ 65536)
              ∙ decode-last _ 65536 bytes (omega arith) (omega arith))
      ]
    ]
  ]
    where
      encode_one : code c < 128 → encode_utf8 c ≡ code c ∷ []
      encode_one h = unfold encode_utf8 in ground (arith, h)

      encode_two :
          127 < code c
          → code c < 2048
          → encode_utf8 c ≡ (192 + code c / 64) ∷ (128 + code c % 64) ∷ []
      encode_two h k = unfold encode_utf8 in ground (arith, h, k)

      encode_three :
          2047 < code c
          → code c < 65536
          → encode_utf8 c
            ≡ (224 + code c / 4096) ∷ (128 + code c / 64 % 64) ∷ (128 + code c % 64) ∷ []
      encode_three h k = unfold encode_utf8 in ground (arith, h, k)

      encode_four :
          65535 < code c
          → encode_utf8 c
            ≡ (240 + code c / 262144)
              ∷ (128 + code c / 4096 % 64)
              ∷ (128 + code c / 64 % 64)
              ∷ (128 + code c % 64)
              ∷ []
      encode_four h = unfold encode_utf8 in ground (arith, h)

      take_four :
          code c < 1114112
          → take_byte lead (240 + code c / 262144) ≡ some (none, more 2 (code c / 262144) 65536)
      take_four h = unfold take_byte in ground (arith, h)

      take_one : code c < 128 → take_byte lead (code c) ≡ some (some c, lead)
      take_one h = unfold take_byte in ground (arith, h, from_u32-code c)

      take_two :
          code c < 2048 → take_byte lead (192 + code c / 64) ≡ some (none, more 0 (code c / 64) 128)
      take_two h = unfold take_byte in ground (arith, h)

      take_three :
          code c < 65536
          → take_byte lead (224 + code c / 4096) ≡ some (none, more 1 (code c / 4096) 2048)
      take_three h = unfold take_byte in ground (arith, h)

pub from_utf8-as_bytes : (s : String) → from_utf8 (as_bytes s) ≡ some s
unfolding from_utf8 as_bytes
from_utf8-as_bytes String.[] = unfold decode_utf8 in refl
from_utf8-as_bytes (String.◌∷◌ c s) =
    decode-encode c (as_bytes s) ∙ ap (Option.map (String.◌∷◌ c)) (from_utf8-as_bytes s)
