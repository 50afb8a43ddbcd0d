-- ===== src/Strings/Decimal.antt =====
-- The decimal form of a number, which `format!` gives examples/synthetic_feed.rs.
use ws_fanout.Prelude.{
  ltb→lt, ℕ, suc, ◌+◌, ◌-◌, ◌*◌, ◌%◌, ◌≤◌, ◌<◌, ◌≡◌, refl, true, false, arith, ltb, Bool-cases, inl,
  inr, ◌∙◌, ap, nat_eq, string_eq,
}
use Prim.Native.Nat.{zero, ◌/◌}
use Prim.Native.Char.{Char, char, code}
use Prim.Native.String.{String}
use ws_fanout.Strings.Utf8.{low-IsScalar}

unfoldable pub digit : ℕ → Char
digit n = char (48 + n % 10) (low-IsScalar (48 + n % 10) (omega arith))

-- The digits of `n` before `s`, in at most so many rounds.
unfoldable pub digits : ℕ → ℕ → String → String
unfolding digit
digits zero n s = s
digits (suc rounds) n s = elim (ltb n 10) [
  | true ↦ String.◌∷◌ (digit n) s
  | false ↦ digits rounds (n / 10) (String.◌∷◌ (digit n) s)
]

unfoldable pub display : ℕ → String
unfolding digits
display n = digits (suc n) n String.[]

-- The number that a text of digits stands for, after the digits read so far.
unfoldable pub value : ℕ → String → ℕ
value n String.[] = n
value n (String.◌∷◌ c s) = value (n * 10 + (code c - 48)) s

value-digits : (rounds n : ℕ) (s : String) → n < rounds → value 0 (digits rounds n s) ≡ value n s
unfolding digits value digit
value-digits zero n s h = absurd (omega arith)
value-digits (suc rounds) n s h = elim (Bool-cases (ltb n 10)) [
  | inl last ↦
      let e : digits (suc rounds) n s ≡ String.◌∷◌ (digit n) s = rw (last, digits) refl in
      let v : 0 * 10 + (48 + n % 10 - 48) ≡ n = omega (arith, ltb→lt n 10 last) in
      ap (value 0) e ∙ ap (λ m. value m s) v
  | inr further ↦
      let e : digits (suc rounds) n s ≡ digits rounds (n / 10) (String.◌∷◌ (digit n) s) =
        rw (further, digits) refl in
      let big : 10 ≤ n = ground (arith, further) in
      let v : n / 10 * 10 + (48 + n % 10 - 48) ≡ n = omega arith in
      ap (value 0) e
      ∙ value-digits rounds (n / 10) (String.◌∷◌ (digit n) s) (omega (arith, big))
      ∙ ap (λ m. value m s) v
]

-- As many rounds as the number are enough.
pub value-display : (n : ℕ) → value 0 (display n) ≡ n
unfolding display
value-display n = value-digits (suc n) n String.[] (omega arith) ∙ unfold value in refl
