-- ===== src/Prelude/Int64.antt =====
-- Go's `int64` and `time.Duration`: values in two's complement that wrap.
use gazetteer.Prelude.{ℕ, suc, ◌+◌, ◌-◌, ◌%◌, ltb, leb, if◌then◌else◌}
use gazetteer.Prelude.Int.{ℤ, pos, negsuc, leb_ℤ}

abbrev pub two_to_63 : ℕ
two_to_63 = 9223372036854775808

abbrev pub two_to_64 : ℕ
two_to_64 = 18446744073709551616

-- The value of a bit pattern below 2 ^ 64.
abbrev pub signed64 : ℕ → ℤ
signed64 n = if ltb n two_to_63 then pos n else negsuc (two_to_64 - 1 - n)

abbrev pub wrap64 : ℕ → ℤ
wrap64 n = signed64 (n % two_to_64)

abbrev pub min_ℤ : ℤ → ℤ → ℤ
min_ℤ a b = if leb_ℤ a b then a else b

-- a - b
abbrev pub sub_ℕ : ℕ → ℕ → ℤ
sub_ℕ a b = if leb b a then pos (a - b) else negsuc (b - a - 1)

-- The sum, without wrap-around.
abbrev pub add_ℤ : ℤ → ℤ → ℤ
add_ℤ (pos a) (pos b) = pos (a + b)
add_ℤ (pos a) (negsuc b) = sub_ℕ a (suc b)
add_ℤ (negsuc a) (pos b) = sub_ℕ b (suc a)
add_ℤ (negsuc a) (negsuc b) = negsuc (suc (a + b))
