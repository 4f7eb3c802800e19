-- ===== src/Httpx/Retry.antt =====
-- helpers/httpx/retry.go. The inner transport, the jitter of the backoff, and whether the context
-- ends during a wait are functions of the attempt.
pub mod Bounds
pub mod Outcome
use gazetteer.Prelude.{
  ℕ, zero, suc, ◌+◌, ◌-◌, ◌*◌, ◌%◌, ◌^◌, String, Bool, true, false, ◌&&◌, ◌||◌, not, Option, none,
  some, List, [], ◌∷◌, str_eq, ltb, leb, ◌==◌, if◌then◌else◌,
}
use gazetteer.Prelude.Int.{ℤ, pos, negsuc, leb_ℤ, is_positive}
use gazetteer.Prelude.Int64.{wrap64, min_ℤ}
use gazetteer.Errors.{Err, Node, leaf, wrap, Result, ok, err, any_node}

-- The header Retry-After: whether it is empty, and what strconv.Atoi and http.ParseTime make of
-- it.
pub record RetryAfter : Type 0 where
  pub is_blank : Bool
  pub seconds : Option ℤ
  pub date : Option ℕ

pub record Response : Type 0 where
  pub status_code : ℕ
  pub retry_after : RetryAfter

-- What `http.NewRequest` makes, as far as the transport looks at it.
pub record HttpRequest : Type 0 where
  pub method : String
  pub has_idempotency_key : Bool
  pub retry_unsafe : Bool
  -- the error of reading the body
  pub body_error : Option Err

pub record Options : Type 0 where
  pub max_retries : ℕ
  pub base_retry_interval : ℕ
  pub backoff_cap : ℤ
  pub max_retry_after : ℤ

-- `min(attempt, 16)`
abbrev pub shift_of : ℕ → ℕ
shift_of attempt = if leb attempt 16 then attempt else 16

-- The wait before the cap, with the jitter that is drawn.
abbrev pub uncapped : Options → ℕ → ℕ → ℤ
uncapped o attempt jitter = wrap64 (o.base_retry_interval * 2 ^ shift_of attempt + jitter)

-- The method backoff.
unfoldable pub backoff : Options → ℕ → ℕ → ℤ
backoff o attempt jitter = min_ℤ (uncapped o attempt jitter) o.backoff_cap

abbrev pub second : ℕ
second = 1000000000

abbrev pub after_date : RetryAfter → ℕ → ℤ
after_date h now = elim h.date [ none ↦ pos 0 | some t ↦ pos (t - now) ]

-- parseRetryAfter. A date in the past gives 0.
unfoldable pub parse_retry_after : RetryAfter → ℕ → ℤ
parse_retry_after h now = if h.is_blank then pos 0 else elim h.seconds [
  | some (pos n) ↦ wrap64 (n * second)
  | some (negsuc n) ↦ after_date h now
  | none ↦ after_date h now
]

abbrev pub is_canceled : Node → Bool
is_canceled Node.canceled = true
is_canceled _ = false

abbrev pub is_eof : Node → Bool
is_eof Node.eof = true
is_eof Node.unexpected_eof = true
is_eof _ = false

abbrev pub is_net_timeout : Node → Bool
is_net_timeout Node.net_timeout = true
is_net_timeout Node.deadline_exceeded = true
is_net_timeout _ = false

unfoldable pub is_retryable_net_err : Err → Bool
is_retryable_net_err e =
    if any_node is_canceled e
    then false
    else if any_node is_eof e
    then true
    else if any_node is_net_timeout e
    then true
    else true

-- The status codes that are asked again.
unfoldable pub is_retryable_status : ℕ → Bool
is_retryable_status code = (code == 408) || (code == 429) || (leb 500 code && not (code == 501))

-- shouldRetry, less the reason: the wait that the server asks for, where the answer is yes.
unfoldable pub should_retry : Result Response → ℕ → Option ℤ
unfolding is_retryable_net_err is_retryable_status parse_retry_after
should_retry (err e) now = if is_retryable_net_err e then some (pos 0) else none
should_retry (ok r) now =
    if is_retryable_status r.status_code then some (parse_retry_after r.retry_after now) else none

unfoldable pub replayable : HttpRequest → Bool
replayable q =
    str_eq q.method ""
    || str_eq q.method "GET"
    || str_eq q.method "HEAD"
    || str_eq q.method "OPTIONS"
    || str_eq q.method "TRACE"
    || str_eq q.method "PUT"
    || str_eq q.method "DELETE"
    || q.has_idempotency_key
    || q.retry_unsafe

abbrev pub max_attempts : Options → HttpRequest → ℕ
max_attempts o q = if replayable q then o.max_retries + 1 else 1

-- What becomes of an answer that is not retried.
abbrev pub returned : Result Response → Result Response
returned (ok r) = ok r
returned (err e) = err (wrap Node.err_transport e)

-- The error that is kept of an answer that is.
abbrev pub last_err : Result Response → Err
last_err (ok r) = leaf (Node.err_http r.status_code)
last_err (err e) = wrap Node.err_transport e

-- What happened: the attempts, the waits in their order, and what RoundTrip returns.
pub record Trip : Type 0 where
  pub attempts : ℕ
  pub waits : List ℤ
  pub outcome : Result Response

abbrev pub ended : Result Response → Trip
ended outcome = record { attempts = 1; waits = []; outcome = outcome }

-- The context ended during a wait.
abbrev pub stopped : Err → Trip
stopped e = record { attempts = 0; waits = []; outcome = err e }

abbrev pub waited : ℤ → Trip → Trip
waited wait t = record { attempts = suc t.attempts; waits = wait ∷ t.waits; outcome = t.outcome }

module _ (o : Options) (next : ℕ → Result Response) (jitter now : ℕ → ℕ)
    (canceled_at : ℕ → Option Err) where
  -- The server's wait, capped, or else the backoff.
  unfoldable pub wait_of : ℕ → ℤ → ℤ
  unfolding backoff
  wait_of attempt asked =
      if is_positive asked
      then min_ℤ asked o.max_retry_after
      else backoff o attempt (jitter attempt)

  -- The loop of RoundTrip, with the attempts that are left.
  unfoldable pub attempt_loop : ℕ → ℕ → Trip
  unfolding wait_of should_retry
  attempt_loop zero attempt = record {
    attempts = 0;
    waits = [];
    outcome = err (leaf Node.too_many_retries);
  }
  attempt_loop (suc left) attempt =
      let rest = attempt_loop left (suc attempt) in
      elim (should_retry (next attempt) (now attempt)) [
        | none ↦ ended (returned (next attempt))
        | some asked ↦
            if left == 0
            then ended (err (wrap Node.too_many_retries (last_err (next attempt))))
            else elim (canceled_at attempt) [
              | some e ↦ waited (wait_of attempt asked) (stopped e)
              | none ↦ waited (wait_of attempt asked) rest
            ]
      ]

  -- The method RoundTrip.
  unfoldable pub round_trip : HttpRequest → Trip
  unfolding attempt_loop replayable
  round_trip q = elim q.body_error [
    | some e ↦ record { attempts = 0; waits = []; outcome = err (wrap Node.err_transport e) }
    | none ↦ attempt_loop (max_attempts o q) 0
  ]
