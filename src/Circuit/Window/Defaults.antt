-- ===== src/Circuit/Window/Defaults.antt =====
-- What NewRateWindow (helpers/circuit/ratewindow.go) makes of its options.
use native.Mathlib.Nat.{le-div_iff_mul-le, div-add-mod, mod-lt, mul_comm}
use gazetteer.Prelude.{
  ℕ, ◌+◌, ◌*◌, ◌/◌, ◌≤◌, ◌<◌, ◌≡◌, refl, ap, sym, some, arith, length, length-replicate, replicate,
}
use gazetteer.Prelude.Int.{ℤ, pos, negsuc}
use gazetteer.Floats.{Floats}
use gazetteer.Circuit.Registry.{World}
use gazetteer.Circuit.Window.{
  RateWindow, RateWindowOptions, empty_bucket, second, positive_or, max_of, buckets_of, window_of,
  rate_window_of, new_rate_window,
}

positive_or-pos : (d : ℕ) (z : ℤ) → 0 < d → 0 < positive_or d z
positive_or-pos d (pos n) h = ground arith
positive_or-pos d (negsuc n) h = ground arith

positive_or_self : (d n : ℕ) → 0 < n → positive_or d (pos n) ≡ n
positive_or_self d n h = ground arith

max_of_left : (a b : ℕ) → b ≤ a → max_of a b ≡ a
max_of_left a b h = ground arith

-- A bucket lasts a second at least.
whole_second : (a : ℕ) → 0 < max_of a second / second
whole_second a = (le-div_iff_mul-le {x = 1} {y = max_of a second} (omega arith)).1 (ground arith)

module _ (fl : Floats) (o : RateWindowOptions fl.Float) (w : World) where
  -- What a RateWindow needs to work.
  pub record IsUsable (p : ℕ) (r : RateWindow fl.Float) : Type 0 where
    pub flagged : r.flag ≡ some p
    pub untouched : r.buckets ≡ replicate (length r.buckets) empty_bucket
    pub some_buckets : 0 < length r.buckets
    pub some_seconds : 0 < r.bucket_seconds
    pub some_samples : 0 < r.min_samples
    pub some_errors : 0 < r.min_abs_errors

  -- Whatever the options, a flag gives a breaker over that flag with at least one bucket of at
  -- least a second, all empty, and with both thresholds positive: a TripMinAbsoluteErrors of 0
  -- does not switch the absolute rule off.
  pub new_rate_window-IsUsable :
      (p : ℕ)
      → o.flag ≡ some p
      → (r : RateWindow fl.Float) × ((new_rate_window fl o w).0 ≡ some r) × IsUsable p r
  unfolding new_rate_window
  new_rate_window-IsUsable p flagged = (
    rate_window_of fl o p,
    ground arith,
    record {
      flagged = refl;
      untouched =
          ap (λ n. replicate n empty_bucket)
            (sym (length-replicate (buckets_of fl o) empty_bucket));
      some_buckets = omega (
        arith,
        length-replicate (buckets_of fl o) empty_bucket,
        positive_or-pos 10 o.bucket_count,
      );
      some_seconds = whole_second (positive_or (300 * second) o.window / buckets_of fl o);
      some_samples = positive_or-pos 20 o.min_samples (omega arith);
      some_errors = ground (arith, positive_or-pos 20 o.min_samples);
    },
  )

  -- A window that gives every bucket a second or more is rounded down to a multiple of the
  -- buckets: the breaker never looks back further than the window that was asked for, and less
  -- than a bucket of nanoseconds is lost.
  pub window_rounds_down :
      (span count : ℕ)
      → o.window ≡ pos span
      → o.bucket_count ≡ pos count
      → 0 < count
      → count * second ≤ span
      → (window_of fl o ≤ span) × (span < window_of fl o + count)
  window_rounds_down span count asked buckets some_buckets room =
      rw
        (
          asked,
          buckets,
          positive_or_self (300 * second) span (grind arith),
          positive_or_self 10 count some_buckets,
          max_of_left (span / count) second fits,
        )
        (rw mul_comm (grind (arith, div-add-mod span count, mod-lt span some_buckets)))
    where
      fits : second ≤ span / count
      fits =
          (le-div_iff_mul-le {x = second} {y = span} some_buckets).1
            (omega (arith, room, mul_comm count second))
