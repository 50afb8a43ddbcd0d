-- ===== src/Prelude/Words.antt =====
-- `AtomicU64`: additions and subtractions wrap at 2^64.
use Prim.Native.Nat.{ℕ, ◌+◌, ◌-◌, ◌%◌, ◌^◌, ◌≤◌, ◌<◌}
use mathlib.Core.Path.{◌≡◌}
use native.Mathlib.Omega.{arith}

abbrev pub u64_mod : ℕ
u64_mod = 2 ^ 64

-- What `fetch_add` stores.
unfoldable pub wrapping_add : ℕ → ℕ → ℕ
wrapping_add a n = (a + n) % u64_mod

-- What `fetch_sub` stores.
unfoldable pub wrapping_sub : ℕ → ℕ → ℕ
wrapping_sub a n = (a + u64_mod - n % u64_mod) % u64_mod

pub wrapping_add_exact : (a n : ℕ) → a + n < u64_mod → wrapping_add a n ≡ a + n
unfolding wrapping_add
wrapping_add_exact a n h = omega arith

pub wrapping_sub_exact : (a n : ℕ) → n ≤ a → a < u64_mod → wrapping_sub a n ≡ a - n
unfolding wrapping_sub
wrapping_sub_exact a n h l = omega arith

pub wrapping_add-lt : (a n : ℕ) → wrapping_add a n < u64_mod
unfolding wrapping_add
wrapping_add-lt a n = omega arith
