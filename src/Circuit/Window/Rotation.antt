-- ===== src/Circuit/Window/Rotation.antt =====
-- The ring of buckets of helpers/circuit/ratewindow.go against the outcomes that it counted.
use native.Mathlib.Nat.{div-add-mod, mod-lt}
use gazetteer.Prelude.{
  ℕ, suc, ◌+◌, ◌%◌, ◌≤◌, ◌<◌, ◌≡◌, ◌≢◌, refl, ap, subst, eqb_refl, All-map, length-replicate,
  get_or-replicate, replicate, ◌∙◌, Bool, true, false, ◌&&◌, List, [], ◌∷◌, arith, leb, ◌==◌,
  if◌then◌else◌, length, get_or, All, length-set, get_or-set, Bool-cases, inl, inr,
}
use gazetteer.Circuit.Window.{RateBucket, empty_bucket, is_live, bumped, bump_buckets}

-- The epochs of the outcomes that were counted, the latest first; `true` is a failure.
abbrev pub Counted : Type 0
Counted = List (ℕ × Bool)

-- No epoch is after `e`, and none is after a later one: the clock does not go back.
abbrev pub IsOrdered : ℕ → Counted → Type 0
IsOrdered e [] = Unit {0}
IsOrdered e ((x, b) ∷ h) = (x ≤ e) × IsOrdered x h

abbrev pub fill : Counted → List RateBucket → List RateBucket
fill [] bs = bs
fill ((x, b) ∷ h) bs = bump_buckets x b (fill h bs)

abbrev pub same_kind : Bool → Bool → Bool
same_kind true b = b
same_kind false true = false
same_kind false false = true

-- How many outcomes of a kind have an epoch that passes the test.
abbrev pub count_epochs : Bool → (ℕ → Bool) → Counted → ℕ
count_epochs k p [] = 0
count_epochs k p ((x, b) ∷ h) =
    if same_kind b k && p x then suc (count_epochs k p h) else count_epochs k p h

-- The last `n` epochs up to `e`.
abbrev pub in_window : ℕ → ℕ → ℕ → Bool
in_window n e x = leb (e + 1) (x + n) && leb x e

abbrev pub in_share : ℕ → ℕ → ℕ → ℕ → Bool
in_share n e i x = (x % n == i) && in_window n e x

abbrev pub value_of : Bool → RateBucket → ℕ
value_of true b = b.errs
value_of false b = b.oks

abbrev pub live_value : Bool → ℕ → ℕ → RateBucket → ℕ
live_value k n e b = if is_live n e b then value_of k b else 0

-- Two epochs of one window that share a bucket are one epoch.
pub epoch_of_bucket : (n x y : ℕ) → x ≤ y → y < x + n → x % n ≡ y % n → x ≡ y
epoch_of_bucket n x y le lt e = grind (arith, div-add-mod x n, div-add-mod y n)

count_epochs-none :
    (k : Bool) (p : ℕ → Bool) (h : Counted)
    → All (λ (t : ℕ × Bool). p t.0 ≡ false) h
    → count_epochs k p h ≡ 0
count_epochs-none k p [] a = refl
count_epochs-none k p ((x, b) ∷ h) a = ground (arith, count_epochs-none k p h a.1)

-- Each bucket holds the latest epoch of its share, and counts what of its share is in the window
-- of any time from `e0` on.
pub record Fits (n e0 : ℕ) (h : Counted) (bs : List RateBucket) : Type 0 where
  pub long : length bs ≡ n
  pub latest : (i : ℕ) → (get_or bs i empty_bucket).epoch ≤ e0
  pub cover : All (λ (t : ℕ × Bool). t.0 ≤ (get_or bs (t.0 % n) empty_bucket).epoch) h
  pub share :
      (k : Bool) (i e : ℕ)
      → e0 ≤ e
      → live_value k n e (get_or bs i empty_bucket) ≡ count_epochs k (in_share n e i) h

module _ (n e0 e1 : ℕ) (b : Bool) (h : Counted) (bs : List RateBucket) (pos : 0 < n)
    (later : e0 ≤ e1) (fits : Fits n e0 h bs) where
  bucket-bump :
      (j : ℕ)
      → get_or (bump_buckets e1 b bs) j empty_bucket ≡ (
          if e1 % n == j
          then bumped e1 b (get_or bs (e1 % n) empty_bucket)
          else get_or bs j empty_bucket)
  unfolding bump_buckets
  bucket-bump j = rw fits.long (
      get_or-set bs (e1 % n) j (bumped e1 b (get_or bs (e1 % n) empty_bucket)) empty_bucket
        (omega (arith, fits.long, mod-lt e1 pos)))

  bucket-own :
      get_or (bump_buckets e1 b bs) (e1 % n) empty_bucket
      ≡ bumped e1 b (get_or bs (e1 % n) empty_bucket)
  bucket-own = rw (bucket-bump, eqb_refl)

  bump-latest : (i : ℕ) → (get_or (bump_buckets e1 b bs) i empty_bucket).epoch ≤ e1
  bump-latest i = rw bucket-bump (ground (arith, fits.latest i, fits.latest (e1 % n)))

  -- An emptied bucket had nothing left in the window.
  stale :
      (e : ℕ) (t : ℕ × Bool)
      → (get_or bs (e1 % n) empty_bucket).epoch ≢ e1
      → e1 ≤ e
      → t.0 ≤ (get_or bs (t.0 % n) empty_bucket).epoch
      → in_share n e (e1 % n) t.0 ≡ false
  stale e t moved le within = ground (arith, epoch_of_bucket n t.0 e1, fits.latest (e1 % n))

  bump-cover :
      (t : ℕ × Bool)
      → t.0 ≤ (get_or bs (t.0 % n) empty_bucket).epoch
      → t.0 ≤ (get_or (bump_buckets e1 b bs) (t.0 % n) empty_bucket).epoch
  bump-cover t le = rw bucket-bump (ground (arith, fits.latest (e1 % n)))

  own-share :
      (k : Bool) (e : ℕ)
      → e1 ≤ e
      → live_value k n e (bumped e1 b (get_or bs (e1 % n) empty_bucket))
        ≡ count_epochs k (in_share n e (e1 % n)) ((e1, b) ∷ h)
  own-share k e within = elim (Bool-cases ((get_or bs (e1 % n) empty_bucket).epoch == e1)) [
    | inl same ↦ ground (arith, fits.share k (e1 % n) e, eqb_refl (e1 % n))
    | inr moved ↦ ground (
      arith,
      eqb_refl (e1 % n),
      count_epochs-none k (in_share n e (e1 % n)) h
          (All-map (λ t. stale e t (ground arith) within) h fits.cover),
    )
  ]

  bump-share :
      (k : Bool) (i e : ℕ)
      → e1 ≤ e
      → live_value k n e (get_or (bump_buckets e1 b bs) i empty_bucket)
        ≡ count_epochs k (in_share n e i) ((e1, b) ∷ h)
  bump-share k i e within = elim (Bool-cases (e1 % n == i)) [
    | inr other ↦ rw (bucket-bump i, other) (ground (arith, fits.share k i e))
    | inl own ↦
        subst
          (λ j.
            live_value k n e (get_or (bump_buckets e1 b bs) j empty_bucket)
            ≡ count_epochs k (in_share n e j) ((e1, b) ∷ h))
          (ground arith) (ap (live_value k n e) bucket-own ∙ own-share k e within)
  ]

  -- One more outcome, counted no earlier than the others.
  pub bump-Fits : Fits n e1 ((e1, b) ∷ h) (bump_buckets e1 b bs)
  bump-Fits = record {
    long = unfold bump_buckets in length-set bs _ _ ∙ fits.long;
    latest = bump-latest;
    cover = (rw bucket-bump (ground (arith, eqb_refl (e1 % n))), All-map bump-cover h fits.cover);
    share = bump-share;
  }

-- A new ring.
new-Fits : (n e : ℕ) → Fits n e [] (replicate n empty_bucket)
new-Fits n e = record {
  long = length-replicate n empty_bucket;
  latest = λ i. rw (get_or-replicate n i empty_bucket) (omega arith);
  cover = tt;
  share = λ k i e h. rw (get_or-replicate n i empty_bucket) (ground arith);
}

Fits-mono :
    {n e0 e1 : ℕ} {h : Counted} {bs : List RateBucket} → e0 ≤ e1 → Fits n e0 h bs → Fits n e1 h bs
Fits-mono {e0 = a} {e1 = c} le fits = record {
  long = fits.long;
  latest = λ i. omega (arith, fits.latest i);
  cover = fits.cover;
  share = λ k i e within. fits.share k i e (omega arith);
}

-- The ring holds what it was given, in the order of time.
pub fill-Fits :
    (n e : ℕ) (h : Counted) → 0 < n → IsOrdered e h → Fits n e h (fill h (replicate n empty_bucket))
fill-Fits n e [] pos ordered = new-Fits n e
fill-Fits n e ((x, b) ∷ h) pos ordered = Fits-mono ordered.0 (
    bump-Fits n x x b h (fill h (replicate n empty_bucket)) pos (omega arith)
      (fill-Fits n x h pos ordered.1))
