-- ===== src/Circuit/Window/Totals.antt =====
-- The totals that helpers/circuit/ratewindow.go sums are those of the outcomes in the window.
use native.Mathlib.Nat.{mod-lt}
use gazetteer.Prelude.{
  ℕ, ◌+◌, ◌%◌, ◌≤◌, ◌<◌, ◌≡◌, refl, ap₂, ◌∙◌, Bool, true, false, ◌&&◌, List, [], ◌∷◌, arith, ◌==◌,
  if◌then◌else◌, length, get_or, replicate, sum_below, sum_below_congr, sum_below-zero,
  sum_below-add, sum_below-single,
}
use gazetteer.Circuit.Window.{RateBucket, empty_bucket, live_totals}
use gazetteer.Circuit.Window.Rotation.{
  Counted, IsOrdered, fill, same_kind, count_epochs, in_window, in_share, live_value, Fits,
  fill-Fits,
}

live_totals-sum :
    (n e : ℕ) (bs : List RateBucket)
    → ((live_totals n e bs).0
        ≡ sum_below (length bs) (λ i. live_value false n e (get_or bs i empty_bucket)))
      × ((live_totals n e bs).1
          ≡ sum_below (length bs) (λ i. live_value true n e (get_or bs i empty_bucket)))
unfolding live_totals
live_totals-sum n e [] = (refl, refl)
live_totals-sum n e (b ∷ bs) = ground (arith, live_totals-sum n e bs)

-- A summand for the one index that is `j`, if the tests pass.
sum_below-one :
    (c d : Bool) (n j : ℕ)
    → j < n
    → sum_below n (λ i. if c && ((j == i) && d) then 1 else 0) ≡ (if c && d then 1 else 0)
sum_below-one true true n j lt =
    sum_below_congr n (λ i. if (j == i) && true then 1 else 0) (λ i. if j == i then 1 else 0)
      (λ i h. ground arith)
    ∙ sum_below-single n j lt
sum_below-one true false n j lt =
    sum_below_congr n (λ i. if (j == i) && false then 1 else 0) (λ _. 0) (λ i h. ground arith)
    ∙ sum_below-zero n
sum_below-one false d n j lt = sum_below-zero n

-- Each outcome of the window is in the share of one bucket.
sum_below-share :
    (k : Bool) (n e : ℕ) (h : Counted)
    → 0 < n
    → sum_below n (λ i. count_epochs k (in_share n e i) h) ≡ count_epochs k (in_window n e) h
sum_below-share k n e [] pos = sum_below-zero n
sum_below-share k n e ((x, b) ∷ h) pos =
    sum_below_congr n (λ i. count_epochs k (in_share n e i) ((x, b) ∷ h))
      (λ i. one i + count_epochs k (in_share n e i) h) (λ i lt. ground arith)
    ∙ sum_below-add n one (λ i. count_epochs k (in_share n e i) h)
    ∙ ap₂ ◌+◌ (sum_below-one (same_kind b k) (in_window n e x) n (x % n) (mod-lt x pos))
        (sum_below-share k n e h pos)
    ∙ ground arith
  where
    one : ℕ → ℕ
    one i = if same_kind b k && in_share n e i x then 1 else 0

-- After outcomes whose times do not go back, the totals at any later time are the numbers of
-- successes and of failures whose epoch is one of the last `n`: no outcome is lost while it is in
-- the window, none is counted twice, and none outlives the window.
pub live_totals-fill :
    (n e now : ℕ) (h : Counted)
    → 0 < n
    → IsOrdered e h
    → e ≤ now
    → live_totals n now (fill h (replicate n empty_bucket))
      ≡ (count_epochs false (in_window n now) h, count_epochs true (in_window n now) h)
live_totals-fill n e now h pos ordered later =
    ground (arith, live_totals-sum n now ring, shared false, shared true, fits.long)
  where
    ring : List RateBucket
    ring = fill h (replicate n empty_bucket)

    fits : Fits n e h ring
    fits = fill-Fits n e h pos ordered

    shared :
        (k : Bool)
        → sum_below n (λ i. live_value k n now (get_or ring i empty_bucket))
          ≡ count_epochs k (in_window n now) h
    shared k =
        sum_below_congr n (λ i. live_value k n now (get_or ring i empty_bucket))
          (λ i. count_epochs k (in_share n now i) h) (λ i lt. fits.share k i now later)
        ∙ sum_below-share k n now h pos
