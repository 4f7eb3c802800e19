-- ===== src/Prelude/Bytes.antt =====
-- Go's strings as lists of bytes, with what the modelled code uses of the package strings.
use Prim.Native.Nat.{ℕ, zero, suc}
use mathlib.Core.Path.{◌≡◌, refl}
use mathlib.Core.Bool.{Bool, true, false, ◌&&◌, ◌||◌}
use mathlib.Core.List.{List, [], ◌∷◌}
use native.Mathlib.Omega.{arith}
use gazetteer.Prelude.Tests.{◌==◌, leb, if◌then◌else◌}

unfoldable pub bytes_eq : List ℕ → List ℕ → Bool
bytes_eq [] [] = true
bytes_eq [] (y ∷ ys) = false
bytes_eq (x ∷ xs) [] = false
bytes_eq (x ∷ xs) (y ∷ ys) = (x == y) && bytes_eq xs ys

pub bytes_eq_refl : (xs : List ℕ) → bytes_eq xs xs ≡ true
unfolding bytes_eq
bytes_eq_refl [] = refl
bytes_eq_refl (x ∷ xs) = ground (arith, bytes_eq_refl xs)

pub bytes_eq→≡ : (xs ys : List ℕ) → bytes_eq xs ys ≡ true → xs ≡ ys
unfolding bytes_eq
bytes_eq→≡ [] [] h = refl
bytes_eq→≡ [] (y ∷ ys) h = ground (arith, h)
bytes_eq→≡ (x ∷ xs) [] h = ground (arith, h)
bytes_eq→≡ (x ∷ xs) (y ∷ ys) h = ground (arith, h, bytes_eq→≡ xs ys)

-- strings.HasPrefix, the prefix first.
unfoldable pub has_prefix : List ℕ → List ℕ → Bool
has_prefix [] ys = true
has_prefix (x ∷ xs) [] = false
has_prefix (x ∷ xs) (y ∷ ys) = (x == y) && has_prefix xs ys

-- slices.Contains
unfoldable pub contains : List (List ℕ) → List ℕ → Bool
unfolding bytes_eq
contains [] x = false
contains (y ∷ ys) x = bytes_eq y x || contains ys x

abbrev pub is_blank : List ℕ → Bool
is_blank [] = true
is_blank (x ∷ xs) = false

abbrev pub is_ascii_space : ℕ → Bool
is_ascii_space b = (b == 32) || (leb 9 b && leb b 13)

-- The white space of unicode.IsSpace past ASCII, in UTF-8.
abbrev pub is_space_two : ℕ → ℕ → Bool
is_space_two a b = (a == 194) && ((b == 133) || (b == 160))

abbrev pub is_space_three : ℕ → ℕ → ℕ → Bool
is_space_three a b c =
    ((a == 225) && ((b == 154) && (c == 128)))
    || (((a == 226)
          && ((b == 128)
              && ((leb 128 c && leb c 138) || ((c == 168) || ((c == 169) || (c == 175))))))
        || (((a == 226) && ((b == 129) && (c == 159)))
            || ((a == 227) && ((b == 128) && (c == 128)))))

-- How many bytes the white space at the front takes.
abbrev pub space_width : List ℕ → ℕ
space_width [] = 0
space_width (a ∷ []) = if is_ascii_space a then 1 else 0
space_width (a ∷ b ∷ []) = if is_ascii_space a then 1 else if is_space_two a b then 2 else 0
space_width (a ∷ b ∷ c ∷ s) =
    if is_ascii_space a
    then 1
    else if is_space_two a b
    then 2
    else if is_space_three a b c
    then 3
    else 0

-- The same at the end of a string, whose bytes come last first.
abbrev pub space_width_back : List ℕ → ℕ
space_width_back [] = 0
space_width_back (a ∷ []) = if is_ascii_space a then 1 else 0
space_width_back (a ∷ b ∷ []) = if is_ascii_space a then 1 else if is_space_two b a then 2 else 0
space_width_back (a ∷ b ∷ c ∷ s) =
    if is_ascii_space a
    then 1
    else if is_space_two b a
    then 2
    else if is_space_three c b a
    then 3
    else 0

-- What is left past `n` more bytes and all white space after them.
unfoldable pub trim_front : (List ℕ → ℕ) → ℕ → List ℕ → List ℕ
trim_front width n [] = []
trim_front width (suc n) (x ∷ s) = trim_front width n s
trim_front width zero (x ∷ s) = elim (width (x ∷ s)) [ zero ↦ x ∷ s | suc n ↦ trim_front width n s ]

unfoldable pub reverse_onto : List ℕ → List ℕ → List ℕ
reverse_onto acc [] = acc
reverse_onto acc (x ∷ xs) = reverse_onto (x ∷ acc) xs

-- strings.TrimSpace
unfoldable pub trim_space : List ℕ → List ℕ
unfolding trim_front reverse_onto
trim_space s =
    reverse_onto [] (trim_front space_width_back 0 (reverse_onto [] (trim_front space_width 0 s)))

trim_test :
    trim_space (32 ∷ 194 ∷ 160 ∷ 65 ∷ 32 ∷ 66 ∷ 226 ∷ 128 ∷ 175 ∷ 10 ∷ []) ≡ 65 ∷ 32 ∷ 66 ∷ []
unfolding trim_space
trim_test = refl
