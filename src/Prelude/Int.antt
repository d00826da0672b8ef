-- ===== src/Prelude/Int.antt =====
-- C's `int`, as an integer, with the tests that the wire loop makes of one.
use Prim.Native.Nat.{ℕ, suc, ◌+◌, ◌-◌}
use mathlib.Core.Bool.{Bool, true, false}
use pglite_build.Prelude.Tests.{ltb, ◌==◌, if◌then◌else◌}

-- `negsuc n` is -(n + 1).
pub data ℤ : Type 0 where
  pos : ℕ → ℤ
  negsuc : ℕ → ℤ

abbrev pub minus_one : ℤ
minus_one = negsuc 0

abbrev pub is_neg : ℤ → Bool
is_neg (pos n) = false
is_neg (negsuc n) = true

-- `i == EOF`
abbrev pub is_eof : ℤ → Bool
is_eof (pos n) = false
is_eof (negsuc n) = n == 0

-- `i == k` for a `k` that is not negative.
abbrev pub is_pos : ℤ → ℕ → Bool
is_pos (pos n) k = n == k
is_pos (negsuc n) k = false

abbrev pub is_zero : ℤ → Bool
is_zero i = is_pos i 0

-- `i > 0`
abbrev pub gt_zero : ℤ → Bool
gt_zero (pos n) = ltb 0 n
gt_zero (negsuc n) = false

-- `i < k`
abbrev pub lt_ℤ : ℤ → ℕ → Bool
lt_ℤ (pos n) k = ltb n k
lt_ℤ (negsuc n) k = true

-- The rounds of `for (int j = 0; j < i; j++)`.
abbrev pub to_ℕ : ℤ → ℕ
to_ℕ (pos n) = n
to_ℕ (negsuc n) = 0

-- `i + k`
abbrev pub add_ℕ : ℤ → ℕ → ℤ
add_ℕ (pos n) k = pos (n + k)
add_ℕ (negsuc n) k = if ltb n k then pos (k - suc n) else negsuc (n - k)

-- A `char` of the target is signed.
abbrev pub signed_char : ℕ → ℤ
signed_char c = if ltb c 128 then pos c else negsuc (255 - c)
