-- ===== src/Circuit/Window/Rules.antt =====
-- The trip rule, the reset rule and the reading of a RateWindow (helpers/circuit/ratewindow.go).
use native.Mathlib.Nat.{le-div_iff_mul-le, div-mul-le_self}
use gazetteer.Prelude.{
  ℕ, ◌+◌, ◌||◌, ◌&&◌, ltb, ◌/◌, ◌≤◌, ◌<◌, ◌≡◌, ◌∙◌, Bool, true, false, Option, none, some, List, [],
  ◌∷◌, arith, ◌⊎◌, if◌then◌else◌, length, replicate, Bool-cases, inl, inr, not, ◌==◌,
}
use gazetteer.Errors.{Err}
use gazetteer.Floats.{Floats}
use gazetteer.Circuit.Registry.{World}
use gazetteer.Circuit.Classify.{is_transport_or_deadline_err}
use gazetteer.Circuit.Window.{
  RateWindow, RateBucket, empty_bucket, ratio_of, fires, recovers, apply_rules, live_totals,
  bump_buckets, observe_counted, observe, snapshot, tripped,
}
use gazetteer.Circuit.Window.Rotation.{Counted, IsOrdered, fill, count_epochs, in_window, fill-Fits}
use gazetteer.Circuit.Window.Totals.{live_totals-fill}

module _ (fl : Floats) (r : RateWindow fl.Float) (p now oks errs : ℕ) (w : World) where
  -- The flag after the rules, on every branch: an open breaker trips exactly if the trip rule
  -- fires, and a tripped one is reset exactly if the reset rule holds.
  pub flags-apply_rules : (apply_rules fl r p now oks errs w).1.flags p ≡ (
      if w.flags p
      then (if recovers fl r now oks errs then false else true)
      else fires fl r oks errs)
  unfolding apply_rules
  flags-apply_rules = ground arith

-- The outcomes that were observed and the times of the clock, the latest first.
abbrev pub Observed : Type 0
Observed = List (ℕ × Option Err)

-- The clock does not go back, and has not passed `t`.
abbrev pub IsTimed : ℕ → Observed → Type 0
IsTimed t [] = Unit {0}
IsTimed t ((now, err) ∷ h) = (now ≤ t) × IsTimed now h

-- What counts: successes, and failed transports. Other errors are ignored.
abbrev pub counted : ℕ → Observed → Counted
counted s [] = []
counted s ((now, none) ∷ h) = (now / s, false) ∷ counted s h
counted s ((now, some e) ∷ h) =
    if is_transport_or_deadline_err (some e) then (now / s, true) ∷ counted s h else counted s h

-- Does the outcome count?
abbrev pub counts : Option Err → Bool
counts none = true
counts (some e) = is_transport_or_deadline_err (some e)

div-le-div : (s a b : ℕ) → 0 < s → a ≤ b → a / s ≤ b / s
div-le-div s a b pos le =
    (le-div_iff_mul-le {x = a / s} {y = b} pos).1 (omega (arith, div-mul-le_self a s))

IsOrdered-mono : (a b : ℕ) (c : Counted) → a ≤ b → IsOrdered a c → IsOrdered b c
IsOrdered-mono a b [] le o = tt
IsOrdered-mono a b ((x, k) ∷ c) le o = (omega arith, o.1)

counted-IsOrdered : (s t : ℕ) (h : Observed) → 0 < s → IsTimed t h → IsOrdered (t / s) (counted s h)
counted-IsOrdered s t [] pos timed = tt
counted-IsOrdered s t ((now, none) ∷ h) pos timed =
    (div-le-div s now t pos timed.0, counted-IsOrdered s now h pos timed.1)
counted-IsOrdered s t ((now, some e) ∷ h) pos timed =
    let rest = counted-IsOrdered s now h pos timed.1 in
    let le = div-le-div s now t pos timed.0 in
    let later = IsOrdered-mono (now / s) (t / s) (counted s h) le rest in
    elim (Bool-cases (is_transport_or_deadline_err (some e))) [
      | inl hit ↦ rw hit (le, rest)
      | inr miss ↦ rw miss later
    ]

-- When a window trips, by its outcomes. Fewer than `min_samples` are judged by their failures alone;
-- from there on by the share of the failures, and still by their number.
abbrev pub trip_rule : (fl : Floats) → RateWindow fl.Float → ℕ → ℕ → Bool
trip_rule fl r oks errs =
    let many = not (r.min_abs_errors == 0) && not (ltb errs r.min_abs_errors) in
    if ltb (oks + errs) r.min_samples
    then many
    else (fl.lt r.trip_ratio (ratio_of fl oks errs) || many)

fires-eq-trip_rule :
    (fl : Floats) (r : RateWindow fl.Float) (oks errs : ℕ)
    → fires fl r oks errs ≡ trip_rule fl r oks errs
fires-eq-trip_rule fl r oks errs = ground arith

module _ (fl : Floats) (r : RateWindow fl.Float) (p n : ℕ) (w : World) where
  -- A breaker over the flag at `p`, with a new ring of `n` buckets.
  pub record IsNew : Type 0 where
    pub flagged : r.flag ≡ some p
    pub ring : r.buckets ≡ replicate n empty_bucket
    pub some_buckets : 0 < n
    pub some_seconds : 0 < r.bucket_seconds

  abbrev pub after : Observed → Option (RateWindow fl.Float) × World
  after [] = (some r, w)
  after ((now, err) ∷ h) = let (s, v) = after h in observe fl s now err v

  abbrev pub ring_after : Observed → List RateBucket
  ring_after h = fill (counted r.bucket_seconds h) (replicate n empty_bucket)

  -- The breaker that the history leaves behind; only the time of the last trip depends on more.
  abbrev pub now_holds : Observed → ℕ → RateWindow fl.Float
  now_holds h t = record r { buckets = ring_after h; last_trip = t }

  observe-counted :
      (now t : ℕ) (is_err : Bool) (h : Observed) (v : World)
      → (u : ℕ) × ((observe_counted fl (now_holds h t) p now is_err v).0 ≡ record r {
        buckets = bump_buckets (now / r.bucket_seconds) is_err (ring_after h);
        last_trip = u;
      })
  unfolding observe_counted
  observe-counted now t is_err h v =
      ((observe_counted fl (now_holds h t) p now is_err v).0.last_trip, ground arith)

  observe-ring :
      (now t : ℕ) (err : Option Err) (h : Observed) (v : World)
      → IsNew
      → (u : ℕ) × ((observe fl (some (now_holds h t)) now err v).0
          ≡ some (now_holds ((now, err) ∷ h) u))
  unfolding observe
  observe-ring now t none h v new =
      let (u, same) = observe-counted now t false h v in (u, ground (arith, same))
  observe-ring now t (some e) h v new = elim (Bool-cases (is_transport_or_deadline_err (some e))) [
    | inl hit ↦ let (u, same) = observe-counted now t true h v in (u, ground (arith, same))
    | inr miss ↦ (t, ground arith)
  ]

  after-ring : (h : Observed) → IsNew → (t : ℕ) × ((after h).0 ≡ some (now_holds h t))
  after-ring [] new = (r.last_trip, ground (arith, new.ring))
  after-ring ((now, err) ∷ h) new =
      let (t, same) = after-ring h new in rw same (observe-ring now t err h (after h).1 new)

  abbrev pub count_of_window : Bool → ℕ → Observed → ℕ
  count_of_window k now h =
      count_epochs k (in_window n (now / r.bucket_seconds)) (counted r.bucket_seconds h)

  ring-totals :
      (now : ℕ) (h : Observed)
      → IsNew
      → IsTimed now h
      → live_totals n (now / r.bucket_seconds) (ring_after h)
        ≡ (count_of_window false now h, count_of_window true now h)
  ring-totals now h new timed =
      live_totals-fill n (now / r.bucket_seconds) (now / r.bucket_seconds)
        (counted r.bucket_seconds h) new.some_buckets
        (counted-IsOrdered r.bucket_seconds now h new.some_seconds timed) (omega arith)

  length-ring : (now : ℕ) (h : Observed) → IsNew → IsTimed now h → length (ring_after h) ≡ n
  length-ring now h new timed =
      (fill-Fits n (now / r.bucket_seconds) (counted r.bucket_seconds h) new.some_buckets
        (counted-IsOrdered r.bucket_seconds now h new.some_seconds timed)).long

  -- Snapshot after any outcomes, while the clock does not go back: the successes and the failed
  -- transports of the last `n` bucket lengths, and their ratio.
  pub snapshot-after :
      (now : ℕ) (h : Observed)
      → IsNew
      → IsTimed now h
      → snapshot fl (after h).0 now ≡ (
        count_of_window false now h,
        count_of_window true now h,
        ratio_of fl (count_of_window false now h) (count_of_window true now h),
      )
  unfolding snapshot
  snapshot-after now h new timed =
      let (t, same) = after-ring h new in
      rw (same, length-ring now h new timed, ring-totals now h new timed)

  totals_of : Bool → ℕ → Observed → ℕ × ℕ
  totals_of is_err now h =
      live_totals (length (ring_after h)) (now / r.bucket_seconds)
        (bump_buckets (now / r.bucket_seconds) is_err (ring_after h))

  observe_counted-fires :
      (now t : ℕ) (is_err : Bool) (h : Observed) (v : World)
      → v.flags p ≡ false
      → (observe_counted fl (now_holds h t) p now is_err v).1.flags p
        ≡ trip_rule fl r (totals_of is_err now h).0 (totals_of is_err now h).1
  unfolding observe_counted totals_of
  observe_counted-fires now t is_err h v open_flag =
      ground (arith, fires-eq-trip_rule fl r (totals_of is_err now h).0 (totals_of is_err now h).1)

  -- An outcome that counts trips an open breaker exactly by this rule on the outcomes of the last
  -- `n` bucket lengths, this one included. Below `min_samples` outcomes: when at least
  -- `min_abs_errors` failed and that is not 0. From `min_samples` on: when the ratio of the failures
  -- is above `trip_ratio`, or, here too, when at least `min_abs_errors` failed and that is not 0.
  pub observe-trips :
      (now : ℕ) (err : Option Err) (h : Observed)
      → IsNew
      → IsTimed now h
      → counts err ≡ true
      → (after h).1.flags p ≡ false
      → (after ((now, err) ∷ h)).1.flags p
        ≡ trip_rule fl r
            (count_of_window false now ((now, err) ∷ h))
            (count_of_window true now ((now, err) ∷ h))
  unfolding observe
  observe-trips now none h new timed hit open_flag =
      let (t, same) = after-ring h new in
      ground (
        arith,
        same,
        observe_counted-fires now t false h (after h).1 open_flag,
        length-ring now h new timed,
        ring-totals now ((now, none) ∷ h) new (omega arith, timed),
      )
  observe-trips now (some e) h new timed hit open_flag =
      let (t, same) = after-ring h new in
      ground (
        arith,
        same,
        observe_counted-fires now t true h (after h).1 open_flag,
        length-ring now h new timed,
        ring-totals now ((now, some e) ∷ h) new (omega arith, timed),
      )

  -- The absolute rule needs no small window: an outcome that counts trips an open breaker as soon
  -- as the window holds `min_abs_errors` failures, whatever the number of samples and the ratio.
  pub observe-absolute :
      (now : ℕ) (err : Option Err) (h : Observed)
      → IsNew
      → IsTimed now h
      → counts err ≡ true
      → (after h).1.flags p ≡ false
      → 0 < r.min_abs_errors
      → r.min_abs_errors ≤ count_of_window true now ((now, err) ∷ h)
      → (after ((now, err) ∷ h)).1.flags p ≡ true
  observe-absolute now err h new timed hit open_flag some_errors enough =
      observe-trips now err h new timed hit open_flag ∙ ground arith

-- A tripped breaker that may not reset, or whose last trip is less than the cooldown ago, stays
-- tripped whatever is observed.
pub observe-stays_tripped :
    (fl : Floats) (r : RateWindow fl.Float) (p now : ℕ) (err : Option Err) (w : World)
    → r.flag ≡ some p
    → w.flags p ≡ true
    → (r.allow_reset ≡ false) ⊎ (now < r.last_trip + r.cooldown_seconds)
    → (observe fl (some r) now err w).1.flags p ≡ true
unfolding observe
observe-stays_tripped fl r p now none w flagged tripped held = ground arith
observe-stays_tripped fl r p now (some e) w flagged tripped held = ground arith
