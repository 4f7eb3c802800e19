-- ===== src/Tests/HttpxTests.antt =====
-- The retry transport and the fallback ladder at concrete inputs.
use gazetteer.Prelude.{
  ℕ, zero, ◌+◌, Bool, true, false, Option, none, some, [], ◌∷◌, ◌≡◌, refl, length, arith,
  if◌then◌else◌,
}
use gazetteer.Prelude.Int.{pos}
use gazetteer.Errors.{Err, Node, leaf, wrap, Result, ok, err}
use gazetteer.Httpx.Retry.{
  Options, HttpRequest, Response, max_attempts, round_trip, replayable, should_retry,
}
use gazetteer.Httpx.Retry.Bounds.{IsShort, round_trip-IsShort}
use gazetteer.Httpx.Retry.Outcome.{round_trip-settles, round_trip-exhausts, is_retried}
use gazetteer.Fallback.{Output, Tier, named, no_output, walk, error_of, skip_of}
use gazetteer.Fallback.Winner.{walk-wins, walk-exhausts, is_error_with, some_error_with}

abbrev options : Options
options = record {
  max_retries = 2;
  base_retry_interval = 500;
  backoff_cap = pos 1200;
  max_retry_after = pos 3000;
}

abbrev asking : ℕ → HttpRequest
asking zero = record {
  method = "GET";
  has_idempotency_key = false;
  retry_unsafe = false;
  body_error = none;
}
asking _ = record {
  method = "POST";
  has_idempotency_key = false;
  retry_unsafe = false;
  body_error = none;
}

abbrev answer : ℕ → Result Response
answer code = ok record {
  status_code = code;
  retry_after = record { is_blank = true; seconds = none; date = none };
}

-- Unavailable once, then fine.
abbrev recovering : ℕ → Result Response
recovering zero = answer 503
recovering _ = answer 200

abbrev down : ℕ → Result Response
down _ = answer 503

abbrev zeros : ℕ → ℕ
zeros _ = 0

abbrev never : ℕ → Option Err
never _ = none

retried_503 : is_retried (answer 503) 0 ≡ true
unfolding should_retry
retried_503 = refl

settled_200 : is_retried (answer 200) 0 ≡ false
unfolding should_retry
settled_200 = refl

get_is_replayable : max_attempts options (asking 0) ≡ 3
unfolding replayable
get_is_replayable = refl

post_is_not : max_attempts options (asking 1) ≡ 1
unfolding replayable
post_is_not = refl

round_trip-settles_test :
    ((round_trip options recovering zeros zeros never (asking 0)).attempts ≡ 2)
    × ((round_trip options recovering zeros zeros never (asking 0)).outcome ≡ answer 200)
round_trip-settles_test =
    round_trip-settles options recovering zeros zeros never (asking 0) 1 refl
      (omega (arith, get_is_replayable)) (retried_503, refl, tt) settled_200

round_trip-exhausts_test :
    ((round_trip options down zeros zeros never (asking 1)).attempts ≡ 1)
    × ((round_trip options down zeros zeros never (asking 1)).outcome
        ≡ err (wrap Node.too_many_retries (leaf (Node.err_http 503))))
round_trip-exhausts_test =
    round_trip-exhausts options down zeros zeros never (asking 1) 0 refl post_is_not tt retried_503

round_trip-IsShort_example :
    IsShort options down zeros
      (if replayable (asking 0) then options.max_retries + 1 else 1)
      0
      (round_trip options down zeros zeros never (asking 0))
round_trip-IsShort_example = round_trip-IsShort options down zeros zeros never (asking 0)

abbrev out : Output
out = no_output

abbrev failing : Tier ℕ
failing = record {
  name = "primary";
  description = "";
  try = λ i. err (leaf Node.anti_bot);
  skip_on = none;
}

abbrev empty : Tier ℕ
empty = record { name = "street"; description = ""; try = λ i. ok out; skip_on = some (λ o. true) }

abbrev winning : Tier ℕ
winning = record { name = "city"; description = ""; try = λ i. ok out; skip_on = none }

walk-wins_example :
    ((walk never 1 (failing ∷ empty ∷ winning ∷ failing ∷ [])).outcome ≡ ok (named "city" out))
    × (length (walk never 1 (failing ∷ empty ∷ winning ∷ failing ∷ [])).events ≡ 3)
walk-wins_example =
    walk-wins never 1 (failing ∷ empty ∷ []) (failing ∷ []) winning out
      (error_of never 1 failing (leaf Node.anti_bot) ∷ skip_of never 1 empty ∷ [])
      (refl, refl, (refl, refl, tt)) refl refl refl

abbrev is_anti_bot_node : Node → Bool
is_anti_bot_node Node.anti_bot = true
is_anti_bot_node _ = false

walk-exhausts_test :
    is_error_with is_anti_bot_node (walk never 1 (failing ∷ empty ∷ [])).outcome
    ≡ some_error_with is_anti_bot_node
        (error_of never 1 failing (leaf Node.anti_bot) ∷ skip_of never 1 empty ∷ [])
walk-exhausts_test =
    walk-exhausts never 1 failing (empty ∷ [])
      (error_of never 1 failing (leaf Node.anti_bot) ∷ skip_of never 1 empty ∷ []) is_anti_bot_node
      (refl, refl, (refl, refl, tt)) refl
