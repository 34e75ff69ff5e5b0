-- ===== src/Prelude/Words.antt =====
-- Bytes and machine words. A byte is a number below 256, and a word's wrap-around is written out.
use Prim.Native.Nat.{ℕ, ◌%◌, ◌^◌, ◌<◌}
use mathlib.Core.Path.{◌≡◌}
use mathlib.Core.List.{List}
use native.Mathlib.Omega.{arith}

abbrev pub Bytes : Type 0
Bytes = List ℕ

-- `uint64_t` and `size_t` arithmetic.
unfoldable pub u64 : ℕ → ℕ
u64 n = n % 2 ^ 64

pub u64-eq_of_lt : (n : ℕ) → n < 2 ^ 64 → u64 n ≡ n
unfolding u64
u64-eq_of_lt n h = omega arith
