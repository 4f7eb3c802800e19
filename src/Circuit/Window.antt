-- ===== src/Circuit/Window.antt =====
-- helpers/circuit/ratewindow.go: RateWindow. The clock is an argument, in Unix seconds, which are
-- not negative; the counters of a bucket do not reach 2 ^ 63.
pub mod Defaults
pub mod Rotation
pub mod Totals
pub mod Rules
use gazetteer.Prelude.{
  ℕ, zero, suc, ◌+◌, ◌*◌, ◌/◌, ◌%◌, String, Bool, true, false, ◌&&◌, ◌||◌, not, Option, none, some,
  List, [], ◌∷◌, ◌++◌, ltb, leb, ◌==◌, if◌then◌else◌, length, get_or, set, replicate,
}
use gazetteer.Prelude.Int.{ℤ, pos, negsuc, is_positive}
use gazetteer.Errors.{Err}
use gazetteer.Floats.{Floats}
use gazetteer.Circuit.Registry.{
  World, Line, update, or_common, loaded, record_circuit_trip, register_circuit_state,
}
use gazetteer.Circuit.Classify.{is_transport_or_deadline_err}

pub record RateBucket : Type 0 where
  pub epoch : ℕ
  pub oks : ℕ
  pub errs : ℕ

abbrev pub empty_bucket : RateBucket
empty_bucket = record { epoch = 0; oks = 0; errs = 0 }

pub record RateWindow (Float : Type 0) : Type 0 where
  pub source : String
  pub bucket_seconds : ℕ
  pub buckets : List RateBucket
  pub trip_ratio : Float
  pub min_samples : ℕ
  pub min_abs_errors : ℕ
  pub reset_ratio : Float
  pub allow_reset : Bool
  pub cooldown_seconds : ℕ
  pub flag : Option ℕ
  pub last_trip : ℕ

-- Durations are in nanoseconds.
pub record RateWindowOptions (Float : Type 0) : Type 0 where
  pub source : String
  pub window : ℤ
  pub bucket_count : ℤ
  pub trip_error_ratio : Float
  pub min_samples : ℤ
  pub trip_min_absolute_errors : ℤ
  pub reset_error_ratio : Float
  pub allow_reset : Bool
  pub reset_cooldown : ℤ
  pub flag : Option ℕ

abbrev pub second : ℕ
second = 1000000000

abbrev pub max_of : ℕ → ℕ → ℕ
max_of a b = if ltb a b then b else a

-- `if n <= 0 { n = default }`
abbrev pub positive_or : ℕ → ℤ → ℕ
positive_or d (pos n) = if ltb 0 n then n else d
positive_or d (negsuc n) = d

-- `if n < 0 { n = 0 }`
abbrev pub at_least_zero : ℤ → ℕ
at_least_zero (pos n) = n
at_least_zero (negsuc n) = 0

-- A bucket counts if its epoch is one of the last `n`.
abbrev pub is_live : ℕ → ℕ → RateBucket → Bool
is_live n epoch b = leb (epoch + 1) (b.epoch + n) && leb b.epoch epoch

unfoldable pub live_totals : ℕ → ℕ → List RateBucket → ℕ × ℕ
live_totals n epoch [] = (0, 0)
live_totals n epoch (b ∷ bs) =
    let (oks, errs) = live_totals n epoch bs in
    if is_live n epoch b then (b.oks + oks, b.errs + errs) else (oks, errs)

-- The bucket of an epoch is emptied when its epoch has advanced, and counts one more outcome.
abbrev pub bumped : ℕ → Bool → RateBucket → RateBucket
bumped epoch is_err b =
    let c : RateBucket =
      if b.epoch == epoch then b else record { epoch = epoch; oks = 0; errs = 0 } in
    if is_err then record c { errs = c.errs + 1 } else record c { oks = c.oks + 1 }

unfoldable pub bump_buckets : ℕ → Bool → List RateBucket → List RateBucket
bump_buckets epoch is_err bs =
    let i = epoch % length bs in set bs i (bumped epoch is_err (get_or bs i empty_bucket))

module _ (fl : Floats) where
  open fl use {Float, of_int, div, lt, le, zero_float, one_float, half, three_tenths}

  -- `if x <= 0 || x > 1 { x = default }`
  abbrev pub ratio_or : Float → Float → Float
  ratio_or d x = if le x zero_float || lt one_float x then d else x

  abbrev pub buckets_of : RateWindowOptions Float → ℕ
  buckets_of o = positive_or 10 o.bucket_count

  -- Nanoseconds of a bucket, a second at least.
  abbrev pub bucket_dur : RateWindowOptions Float → ℕ
  bucket_dur o = max_of (positive_or (300 * second) o.window / buckets_of o) second

  -- `opts.Window` once it is a multiple of the buckets.
  abbrev pub window_of : RateWindowOptions Float → ℕ
  window_of o = bucket_dur o * buckets_of o

  abbrev pub samples_of : RateWindowOptions Float → ℕ
  samples_of o = positive_or 20 o.min_samples

  abbrev pub abs_errors_of : RateWindowOptions Float → ℕ
  abs_errors_of o =
      let n = at_least_zero o.trip_min_absolute_errors in
      if n == 0 && ltb 0 (samples_of o) then 10 else n

  unfoldable pub rate_window_of : RateWindowOptions Float → ℕ → RateWindow Float
  rate_window_of o p = record {
    source = or_common o.source;
    bucket_seconds = bucket_dur o / second;
    buckets = replicate (buckets_of o) empty_bucket;
    trip_ratio = ratio_or half o.trip_error_ratio;
    min_samples = samples_of o;
    min_abs_errors = abs_errors_of o;
    reset_ratio = ratio_or three_tenths o.reset_error_ratio;
    allow_reset = o.allow_reset;
    cooldown_seconds = positive_or (window_of o) o.reset_cooldown / second;
    flag = some p;
    last_trip = 0;
  }

  unfoldable pub new_rate_window :
      RateWindowOptions Float → World → Option (RateWindow Float) × World
  unfolding rate_window_of
  new_rate_window o w = elim o.flag [
    | none ↦ (none, w)
    | some p ↦ (some (rate_window_of o p), register_circuit_state (or_common o.source) (some p) w)
  ]

  abbrev pub ratio_of : ℕ → ℕ → Float
  ratio_of oks errs =
      if ltb 0 (oks + errs) then div (of_int errs) (of_int (oks + errs)) else zero_float

  -- The two cases of the trip rule.
  abbrev pub fires : RateWindow Float → ℕ → ℕ → Bool
  fires r oks errs =
      if leb r.min_samples (oks + errs) && lt r.trip_ratio (ratio_of oks errs)
      then true
      else ltb 0 r.min_abs_errors && leb r.min_abs_errors errs

  abbrev pub recovers : RateWindow Float → ℕ → ℕ → ℕ → Bool
  recovers r now oks errs =
      r.allow_reset
      && (leb (r.last_trip + r.cooldown_seconds) now
          && (leb r.min_samples (oks + errs) && le (ratio_of oks errs) r.reset_ratio))

  warn : String → String → World → World
  warn source msg w = record w {
    log = w.log ++ record { source = source; message = msg; attrs = [] } ∷ [];
  }

  -- What is left of Observe once the outcome is counted and the window summed.
  unfoldable pub apply_rules : RateWindow Float → ℕ → ℕ → ℕ → ℕ → World → RateWindow Float × World
  unfolding warn record_circuit_trip
  apply_rules r p now oks errs w =
      if not (w.flags p)
      then (if fires r oks errs
          then (
            record r { last_trip = now },
            warn r.source "circuit tripped on rate-window error threshold"
                (record_circuit_trip r.source (record w { flags = update w.flags p true })),
          )
          else (r, w))
      else (if recovers r now oks errs
          then (
            r,
            warn r.source "circuit auto-reset after rate-window recovery"
                (record w { flags = update w.flags p false }),
          )
          else (r, w))

  -- Observe of an outcome that counts, with a flag.
  unfoldable pub observe_counted :
      RateWindow Float → ℕ → ℕ → Bool → World → RateWindow Float × World
  unfolding live_totals bump_buckets apply_rules
  observe_counted r p now is_err w =
      let epoch = now / r.bucket_seconds in
      let bs = bump_buckets epoch is_err r.buckets in
      let (oks, errs) = live_totals (length r.buckets) epoch bs in
      apply_rules (record r { buckets = bs }) p now oks errs w

  abbrev pub to_pointer : RateWindow Float × World → Option (RateWindow Float) × World
  to_pointer (r, w) = (some r, w)

  -- A nil receiver is `none`.
  unfoldable pub observe :
      Option (RateWindow Float) → ℕ → Option Err → World → Option (RateWindow Float) × World
  unfolding observe_counted
  observe none now err w = (none, w)
  observe (some r) now err w = elim r.flag [
    | none ↦ (some r, w)
    | some p ↦ elim err [
      | none ↦ to_pointer (observe_counted r p now false w)
      | some e ↦
          if is_transport_or_deadline_err (some e)
          then to_pointer (observe_counted r p now true w)
          else (some r, w)
    ]
  ]

  unfoldable pub tripped : Option (RateWindow Float) → World → Bool
  tripped none w = false
  tripped (some r) w = loaded w r.flag

  unfoldable pub snapshot : Option (RateWindow Float) → ℕ → ℕ × ℕ × Float
  unfolding live_totals
  snapshot none now = (0, 0, zero_float)
  snapshot (some r) now =
      let (oks, errs) = live_totals (length r.buckets) (now / r.bucket_seconds) r.buckets in
      (oks, errs, ratio_of oks errs)
