-- ===== src/Stats/Order.antt =====
-- helpers/stats/stats.go: the median and the order of its numbers.
use gazetteer.Prelude.{
  ℕ, suc, ◌+◌, ◌-◌, ◌/◌, ◌%◌, ◌==◌, Bool, true, false, ◌&&◌, ◌||◌, List, [], ◌∷◌, ◌++◌, ◌≡◌, refl,
  ap, ap₂, ◌∙◌, sym, arith, length, length-append, get_or,
}
use gazetteer.Prelude.Int.{ℤ, pos, negsuc, leb_ℤ}
use gazetteer.Prelude.Int64.{add_ℤ}
use gazetteer.Stats.{half_ℤ, insert_int, median_int, middle, sort_ints, wrap_int}

leb_ℤ-total : (x y : ℤ) → leb_ℤ x y || leb_ℤ y x ≡ true
leb_ℤ-total (pos a) (pos b) = ground arith
leb_ℤ-total (pos a) (negsuc b) = refl
leb_ℤ-total (negsuc a) (pos b) = refl
leb_ℤ-total (negsuc a) (negsuc b) = ground arith

leb_ℤ-trans : (x y z : ℤ) → leb_ℤ x y ≡ true → leb_ℤ y z ≡ true → leb_ℤ x z ≡ true
leb_ℤ-trans x y z h k = ground (arith, h, k)

leb_ℤ-antisym : (x y : ℤ) → leb_ℤ x y ≡ true → leb_ℤ y x ≡ true → x ≡ y
leb_ℤ-antisym x y h k = ground (arith, h, k)

insert_int_comm :
    (x y : ℤ) (s : List ℤ) → insert_int x (insert_int y s) ≡ insert_int y (insert_int x s)
unfolding insert_int
insert_int_comm x y [] = ground (arith, leb_ℤ-total x y, leb_ℤ-antisym x y)
insert_int_comm x y (z ∷ s) = ground (
  arith,
  leb_ℤ-total x y,
  leb_ℤ-antisym x y,
  leb_ℤ-total x z,
  leb_ℤ-total y z,
  leb_ℤ-trans x y z,
  leb_ℤ-trans y x z,
  insert_int_comm x y s,
)

-- Two lists are the same but for the order.
pub data Reordered : List ℤ → List ℤ → Type 0 where
  none_left : Reordered [] []
  keep : (x : ℤ) {s t : List ℤ} → Reordered s t → Reordered (x ∷ s) (x ∷ t)
  exchange : (x y : ℤ) (s : List ℤ) → Reordered (x ∷ y ∷ s) (y ∷ x ∷ s)
  chain : {s t u : List ℤ} → Reordered s t → Reordered t u → Reordered s u

sort_ints-Reordered : (s t : List ℤ) → Reordered s t → sort_ints s ≡ sort_ints t
unfolding sort_ints
sort_ints-Reordered s t none_left = refl
sort_ints-Reordered s t (keep x r) = ap (insert_int x) (sort_ints-Reordered _ _ r)
sort_ints-Reordered s t (exchange x y u) = insert_int_comm x y (sort_ints u)
sort_ints-Reordered s t (chain p q) = sort_ints-Reordered _ _ p ∙ sort_ints-Reordered _ _ q

abbrev median_of_sorted : List ℤ → ℤ
median_of_sorted [] = pos 0
median_of_sorted (x ∷ s) = middle (x ∷ s)

median_of_sorted-insert_int :
    (x : ℤ) (s : List ℤ) → median_of_sorted (insert_int x s) ≡ middle (insert_int x s)
unfolding insert_int
median_of_sorted-insert_int x [] = refl
median_of_sorted-insert_int x (y ∷ s) = ground arith

median_int-sorted : (s : List ℤ) → median_int s ≡ median_of_sorted (sort_ints s)
unfolding median_int sort_ints
median_int-sorted [] = refl
median_int-sorted (x ∷ s) = sym (median_of_sorted-insert_int x (sort_ints s))

median_int-Reordered : (s t : List ℤ) → Reordered s t → median_int s ≡ median_int t
median_int-Reordered s t r =
    median_int-sorted s
    ∙ ap median_of_sorted (sort_ints-Reordered s t r)
    ∙ sym (median_int-sorted t)

abbrev pub is_sorted : List ℤ → Bool
is_sorted [] = true
is_sorted (x ∷ []) = true
is_sorted (x ∷ y ∷ s) = leb_ℤ x y && is_sorted (y ∷ s)

sort_ints-sorted : (s : List ℤ) → is_sorted s ≡ true → sort_ints s ≡ s
unfolding sort_ints insert_int
sort_ints-sorted [] h = refl
sort_ints-sorted (x ∷ []) h = refl
sort_ints-sorted (x ∷ y ∷ s) h =
    ap (insert_int x) (sort_ints-sorted (y ∷ s) (ground (arith, h))) ∙ ground (arith, h)

-- What stands in the middle: one number, or two.
pub data Centre : Type 0 where
  one : ℤ → Centre
  two : ℤ → ℤ → Centre

abbrev pub numbers_of : Centre → List ℤ
numbers_of (one m) = m ∷ []
numbers_of (two x y) = x ∷ y ∷ []

-- A centre of two is halved, towards 0, after a sum that wraps.
abbrev pub centre_value : Centre → ℤ
centre_value (one m) = m
centre_value (two x y) = half_ℤ (wrap_int (add_ℤ x y))

get_or-append : (a : List ℤ) (m : ℤ) (b : List ℤ) → get_or (a ++ (m ∷ b)) (length a) (pos 0) ≡ m
get_or-append [] m b = refl
get_or-append (x ∷ a) m b = get_or-append a m b

get_or-append_next :
    (a : List ℤ) (x y : ℤ) (b : List ℤ) → get_or (a ++ (x ∷ y ∷ b)) (suc (length a)) (pos 0) ≡ y
get_or-append_next [] x y b = refl
get_or-append_next (z ∷ a) x y b = get_or-append_next a x y b

middle-odd : (s : List ℤ) (k : ℕ) → length s ≡ k + k + 1 → middle s ≡ get_or s k (pos 0)
middle-odd s k e =
    let odd : (length s % 2 == 1) ≡ true = ground (arith, e) in
    let half : length s / 2 ≡ k = omega (arith, e) in rw (odd, half) refl

middle-even :
    (s : List ℤ) (k : ℕ)
    → length s ≡ k + k + 2
    → middle s ≡ half_ℤ (wrap_int (add_ℤ (get_or s k (pos 0)) (get_or s (suc k) (pos 0))))
middle-even s k e =
    let even : (length s % 2 == 1) ≡ false = ground (arith, e) in
    let half : length s / 2 ≡ suc k = omega (arith, e) in
    let before : length s / 2 - 1 ≡ k = omega (arith, e) in rw (even, before, half) refl

middle-centre :
    (a b : List ℤ) (c : Centre)
    → length a ≡ length b
    → middle (a ++ (numbers_of c ++ b)) ≡ centre_value c
middle-centre a b (one m) e =
    middle-odd (a ++ (m ∷ b)) (length a) (omega (arith, e, length-append a (m ∷ b)))
    ∙ get_or-append a m b
middle-centre a b (two x y) e =
    middle-even (a ++ (x ∷ y ∷ b)) (length a) (omega (arith, e, length-append a (x ∷ y ∷ b)))
    ∙ ap₂ (λ v w. half_ℤ (wrap_int (add_ℤ v w))) (get_or-append a x (y ∷ b))
        (get_or-append_next a x y b)

median_of_sorted-centre :
    (a b : List ℤ) (c : Centre)
    → length a ≡ length b
    → median_of_sorted (a ++ (numbers_of c ++ b)) ≡ centre_value c
median_of_sorted-centre [] b (one m) e = middle-centre [] b (one m) e
median_of_sorted-centre [] b (two x y) e = middle-centre [] b (two x y) e
median_of_sorted-centre (z ∷ a) b c e = middle-centre (z ∷ a) b c e

-- MedianInt of numbers in any order: put in ascending order, with as many numbers before its centre
-- as after it, it is the centre of one number, or the half (towards 0) of the sum, which wraps, of a
-- centre of two.
pub median_int-centre :
    (s a b : List ℤ) (c : Centre)
    → length a ≡ length b
    → Reordered s (a ++ (numbers_of c ++ b))
    → is_sorted (a ++ (numbers_of c ++ b)) ≡ true
    → median_int s ≡ centre_value c
median_int-centre s a b c e r h =
    median_int-Reordered s (a ++ (numbers_of c ++ b)) r
    ∙ median_int-sorted (a ++ (numbers_of c ++ b))
    ∙ ap median_of_sorted (sort_ints-sorted (a ++ (numbers_of c ++ b)) h)
    ∙ median_of_sorted-centre a b c e
