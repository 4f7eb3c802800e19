-- ===== src/Stats.antt =====
-- helpers/stats/stats.go: MedianInt. Go's `int` has 64 bits; sort.Ints is written as an insertion
-- sort.
pub mod Order
use gazetteer.Prelude.{
  ℕ, zero, suc, ◌+◌, ◌-◌, ◌*◌, ◌/◌, ◌%◌, Bool, true, false, List, [], ◌∷◌, length, get_or, ltb, leb,
  ◌==◌, if◌then◌else◌,
}
use gazetteer.Prelude.Int.{ℤ, pos, negsuc, leb_ℤ}
use gazetteer.Prelude.Int64.{add_ℤ, signed64, two_to_64}

-- An `int` that wraps.
abbrev pub wrap_int : ℤ → ℤ
wrap_int (pos n) = signed64 (n % two_to_64)
wrap_int (negsuc n) = signed64 (two_to_64 - 1 - n % two_to_64)

-- The half, towards 0.
abbrev pub half_ℤ : ℤ → ℤ
half_ℤ (pos n) = pos (n / 2)
half_ℤ (negsuc n) = elim ((n + 1) / 2) [ zero ↦ pos 0 | suc q ↦ negsuc q ]

unfoldable pub insert_int : ℤ → List ℤ → List ℤ
insert_int x [] = x ∷ []
insert_int x (y ∷ ys) = if leb_ℤ x y then x ∷ y ∷ ys else y ∷ insert_int x ys

unfoldable pub sort_ints : List ℤ → List ℤ
unfolding insert_int
sort_ints [] = []
sort_ints (x ∷ xs) = insert_int x (sort_ints xs)

-- The median of what is sorted.
abbrev pub middle : List ℤ → ℤ
middle s =
    let n = length s in
    if n % 2 == 1
    then get_or s (n / 2) (pos 0)
    else half_ℤ (wrap_int (add_ℤ (get_or s (n / 2 - 1) (pos 0)) (get_or s (n / 2) (pos 0))))

unfoldable pub median_int : List ℤ → ℤ
unfolding sort_ints
median_int [] = pos 0
median_int (x ∷ xs) = middle (sort_ints (x ∷ xs))
