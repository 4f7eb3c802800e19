-- ===== src/Tests/CircuitTests.antt =====
-- helpers/circuit at concrete inputs.
use gazetteer.Prelude.{
  ℕ, ◌+◌, ◌*◌, ◌<◌, ◌≤◌, ◌≡◌, refl, true, false, Option, none, some, List, [], ◌∷◌, arith, leb, ltb,
  inr,
}
use gazetteer.Prelude.Int.{pos, add_one32}
use gazetteer.Errors
use gazetteer.Errors.{Node, Err, leaf, wrap, any_node, Result, ok, err}
use gazetteer.Floats.{Floats}
use gazetteer.Circuit.Registry.{World, trip_circuit, record_circuit_trip, trip_and_warn}
use gazetteer.Circuit.Classify.{
  is_transport_or_deadline_err, is_transport_from, size, err_is_429, caller_canceled,
  resp_has_quota_remaining_zero,
}
use gazetteer.Circuit.Classify.Tree.{is_transport_node, is_transport_or_deadline_err-eq-any}
use gazetteer.Circuit.Transport
use gazetteer.Circuit.Transport.History as TransportHistory
use gazetteer.Circuit.Transport.{TransportCircuit, observe_outcome}
use gazetteer.Circuit.Transport.Streaks.{replay-Agrees}
use gazetteer.Circuit.Content.{ContentStreakBreaker}
use gazetteer.Circuit.Content.Streaks as ContentStreaks
use gazetteer.Circuit.Content.Streaks.{observe-Agrees}
use gazetteer.Circuit.Window
use gazetteer.Circuit.Window.{RateWindow, RateWindowOptions, empty_bucket, second, window_of}
use gazetteer.Circuit.Window.Rules
use gazetteer.Circuit.Window.Rules.{
  Observed, snapshot-after, observe-trips, observe-absolute, observe-stays_tripped,
}
use gazetteer.Circuit.Window.Defaults
use gazetteer.Circuit.Window.Defaults.{new_rate_window-IsUsable, window_rounds_down}
use gazetteer.Circuit.Fetcher
use gazetteer.Circuit.Fetcher.{HttpFetcher, HttpFetcherOptions, Answer, fetch_failed}
use gazetteer.Circuit.Fetcher.Laws.{fetch-refuses, fetch-result, is_circuit_open}
use gazetteer.Circuit.Fetcher.Trips
use gazetteer.Circuit.Fetcher.Trips.{fetch-trips}

abbrev quiet : World
quiet = record { flags = λ _. false; trips = []; states = []; log = []; requests = [] }

abbrev timeout : Err
timeout = wrap Node.err_transport (leaf Node.deadline_exceeded)

is_transport_or_deadline_err-eq-any_example :
    is_transport_or_deadline_err (some timeout) ≡ any_node is_transport_node timeout
is_transport_or_deadline_err-eq-any_example = is_transport_or_deadline_err-eq-any timeout

-- Fractions, as far as the breakers need them.
abbrev fractions : Floats
fractions = record {
  Float = ℕ × ℕ;
  of_int = λ n. (n, 1);
  div = λ a b. (a.0 * b.1, a.1 * b.0);
  lt = λ a b. ltb (a.0 * b.1) (b.0 * a.1);
  le = λ a b. leb (a.0 * b.1) (b.0 * a.1);
  zero_float = (0, 1);
  one_float = (1, 1);
  half = (1, 2);
  three_tenths = (3, 10);
}

-- Two timeouts in a row, after a success.
abbrev two_timeouts : TransportHistory.History
two_timeouts = some timeout ∷ some timeout ∷ none ∷ []

abbrev two_timeouts_run : TransportCircuit × World
two_timeouts_run =
    TransportHistory.replay (TransportHistory.armed "georisques" 0 2 0, quiet) two_timeouts

replay-Agrees_example :
    (two_timeouts_run.0 ≡ TransportHistory.current "georisques" 0 2 0 quiet two_timeouts)
    × TransportHistory.Agrees "georisques" 0 2 0 quiet two_timeouts two_timeouts_run.1
replay-Agrees_example = replay-Agrees "georisques" 0 2 0 quiet two_timeouts (omega arith)

two_timeouts_trip : two_timeouts_run.1.flags 0 ≡ true
unfolding observe_outcome trip_and_warn trip_circuit is_transport_or_deadline_err is_transport_from
    size any_node Transport.tick_transport add_one32 record_circuit_trip
two_timeouts_trip = refl

abbrev stubs : List (List ℕ)
stubs = [] ∷ [] ∷ (60 ∷ []) ∷ []

abbrev stubs_run : Option ContentStreakBreaker × World
stubs_run = ContentStreaks.after "paywall" 0 1 none quiet stubs

observe-Agrees_example :
    (stubs_run.0 ≡ some (ContentStreaks.current "paywall" 0 1 none quiet stubs))
    × ContentStreaks.Agrees "paywall" 0 1 none quiet stubs stubs_run.1
observe-Agrees_example = observe-Agrees "paywall" 0 1 none quiet stubs (omega arith)

-- Three buckets of ten seconds: trips at a third failure, or above one half of four samples.
abbrev narrow : RateWindow (ℕ × ℕ)
narrow = record {
  source = "georisques";
  bucket_seconds = 10;
  buckets = empty_bucket ∷ empty_bucket ∷ empty_bucket ∷ [];
  trip_ratio = (1, 2);
  min_samples = 4;
  min_abs_errors = 3;
  reset_ratio = (3, 10);
  allow_reset = true;
  cooldown_seconds = 30;
  flag = some 0;
  last_trip = 0;
}

narrow-IsNew : Rules.IsNew fractions narrow 0 3 quiet
narrow-IsNew = record {
  flagged = refl;
  ring = refl;
  some_buckets = omega arith;
  some_seconds = omega arith;
}

abbrev flaky : Observed
flaky = (125, some timeout) ∷ (121, none) ∷ (111, some timeout) ∷ (80, some timeout) ∷ []

snapshot-after_example :
    Window.snapshot fractions (Rules.after fractions narrow 0 3 quiet flaky).0 126 ≡ (1, 2, (2, 3))
unfolding is_transport_or_deadline_err is_transport_from size any_node
snapshot-after_example =
    snapshot-after fractions narrow 0 3 quiet 126 flaky narrow-IsNew (omega arith)

flaky_open : (Rules.after fractions narrow 0 3 quiet flaky).1.flags 0 ≡ false
unfolding Window.observe is_transport_or_deadline_err is_transport_from size any_node
flaky_open = refl

observe-trips_example :
    (Rules.after fractions narrow 0 3 quiet ((129, some timeout) ∷ flaky)).1.flags 0 ≡ true
unfolding is_transport_or_deadline_err is_transport_from size any_node
observe-trips_example =
    observe-trips fractions narrow 0 3 quiet 129 (some timeout) flaky narrow-IsNew (omega arith)
      refl flaky_open

observe-absolute_test :
    (Rules.after fractions narrow 0 3 quiet ((129, some timeout) ∷ flaky)).1.flags 0 ≡ true
unfolding is_transport_or_deadline_err is_transport_from size any_node
observe-absolute_test =
    observe-absolute fractions narrow 0 3 quiet 129 (some timeout) flaky narrow-IsNew (omega arith)
      refl flaky_open (omega arith) (omega arith)

abbrev alarmed : World
alarmed = record quiet { flags = λ _. true }

observe-stays_tripped_test :
    (Window.observe fractions (some narrow) 29 none alarmed).1.flags 0 ≡ true
observe-stays_tripped_test =
    observe-stays_tripped fractions narrow 0 29 none alarmed refl refl (inr (omega arith))

-- A window of 61 s and 5 ns in 6 buckets, and no absolute rule asked for.
abbrev odd_options : RateWindowOptions (ℕ × ℕ)
odd_options = record {
  source = "";
  window = pos 61000000005;
  bucket_count = pos 6;
  trip_error_ratio = (0, 1);
  min_samples = pos 0;
  trip_min_absolute_errors = pos 0;
  reset_error_ratio = (0, 1);
  allow_reset = false;
  reset_cooldown = pos 0;
  flag = some 0;
}

new_rate_window-IsUsable_test :
    (r : RateWindow (ℕ × ℕ)) × ((Window.new_rate_window fractions odd_options quiet).0 ≡ some r)
    × Defaults.IsUsable fractions odd_options quiet 0 r
new_rate_window-IsUsable_test = new_rate_window-IsUsable fractions odd_options quiet 0 refl

window_rounds_down_test :
    (window_of fractions odd_options ≤ 61000000005)
    × (61000000005 < window_of fractions odd_options + 6)
window_rounds_down_test =
    window_rounds_down fractions odd_options quiet 61000000005 6 refl refl (omega arith)
      (omega arith)

abbrev fetcher : HttpFetcher (ℕ × ℕ)
fetcher = record {
  has_client = true;
  options = record {
    err_prefix = "bdnb";
    circuit_tripped = none;
    quota_tripped = some 0;
    max_consecutive_transport_errors = pos 2;
    max_consecutive429 = pos 0;
    rate_window = none;
  };
  consecutive_transport_errors = pos 1;
  consecutive429 = pos 0;
}

abbrev hung : Answer
hung = record { body = []; quota_remaining = none; error = some timeout; ctx_err = none }

abbrev given_up : Answer
given_up = record hung { ctx_err = some (leaf Node.canceled) }

fetch-refuses_test :
    (e : Err) × (Fetcher.fetch fractions (some fetcher) "/p" 5 hung alarmed
      ≡ (some fetcher, err e, alarmed))
    × (any_node is_circuit_open e ≡ true)
fetch-refuses_test = fetch-refuses fractions fetcher "/p" 5 hung alarmed refl

fetch-result_test :
    (Fetcher.fetch fractions (some fetcher) "/p" 5 hung quiet).1
    ≡ err (fetch_failed "bdnb" "/p" timeout)
fetch-result_test = fetch-result fractions fetcher "/p" 5 hung quiet refl refl

fetcher-IsReady : Trips.IsReady fractions fetcher 0 2 0 1 0 hung quiet
fetcher-IsReady = record {
  client = refl;
  flagged = refl;
  open_flag = refl;
  no_window = refl;
  limit = refl;
  limit429 = refl;
  streak = refl;
  streak429 = refl;
  short = omega arith;
  short429 = omega arith;
}

fetch-trips_example : (Fetcher.fetch fractions (some fetcher) "/p" 5 hung quiet).2.flags 0 ≡ true
unfolding is_transport_or_deadline_err is_transport_from size any_node caller_canceled err_is_429
    resp_has_quota_remaining_zero Errors.first_node
fetch-trips_example = fetch-trips fractions fetcher 0 2 0 1 0 hung quiet "/p" 5 fetcher-IsReady
