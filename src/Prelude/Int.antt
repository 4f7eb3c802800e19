-- ===== src/Prelude/Int.antt =====
-- Signed integers over the native numbers, under the library's names (its ℤ stands on the unary
-- ℕ), and Go's `int32`: a value in two's complement that wraps.
use gazetteer.Prelude.{
  ℕ, zero, suc, ◌+◌, ◌-◌, ◌%◌, ◌<◌, ◌≡◌, Bool, true, arith, ltb, leb, if◌then◌else◌,
}

-- `negsuc n` is -(n + 1).
pub data ℤ : Type 0 where
  pos : ℕ → ℤ
  negsuc : ℕ → ℤ

abbrev pub leb_ℤ : ℤ → ℤ → Bool
leb_ℤ (pos a) (pos b) = leb a b
leb_ℤ (pos a) (negsuc b) = Bool.false
leb_ℤ (negsuc a) (pos b) = true
leb_ℤ (negsuc a) (negsuc b) = leb b a

-- 0 < n
abbrev pub is_positive : ℤ → Bool
is_positive (pos n) = ltb 0 n
is_positive (negsuc n) = Bool.false

-- 2 ^ 31 and 2 ^ 32
abbrev pub int32_half : ℕ
int32_half = 2147483648

abbrev pub int32_mod : ℕ
int32_mod = 4294967296

-- The `int32` of a bit pattern below 2 ^ 32.
abbrev pub signed32 : ℕ → ℤ
signed32 m = if ltb m int32_half then pos m else negsuc (int32_mod - 1 - m)

-- The conversion `int32(n)` of an `int`.
unfoldable pub to_int32 : ℤ → ℤ
to_int32 (pos n) = signed32 (n % int32_mod)
to_int32 (negsuc n) = signed32 (int32_mod - 1 - n % int32_mod)

-- `Add(1)` on an `atomic.Int32`.
unfoldable pub add_one32 : ℤ → ℤ
unfolding to_int32
add_one32 (pos n) = to_int32 (pos (n + 1))
add_one32 (negsuc zero) = pos 0
add_one32 (negsuc (suc n)) = negsuc n

-- Below the largest `int32` the addition is exact.
pub add_one32-pos : (n : ℕ) → n + 1 < int32_half → add_one32 (pos n) ≡ pos (n + 1)
unfolding add_one32
add_one32-pos n h = ground arith
