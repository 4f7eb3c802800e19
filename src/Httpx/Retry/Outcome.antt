-- ===== src/Httpx/Retry/Outcome.antt =====
-- What the retry transport (helpers/httpx/retry.go) returns.
use gazetteer.Prelude.{
  ℕ, zero, suc, ◌+◌, ◌<◌, Bool, true, false, Option, none, some, ◌≡◌, ◌∙◌, ap, arith,
}
use gazetteer.Errors.{Result, err, wrap, Node, Err}
use gazetteer.Httpx.Retry.{
  Options, HttpRequest, Response, returned, last_err, should_retry, attempt_loop, round_trip,
  max_attempts,
}

abbrev pub is_retried : Result Response → ℕ → Bool
is_retried reply now = elim (should_retry reply now) [ none ↦ false | some asked ↦ true ]

module _ (o : Options) (next : ℕ → Result Response) (jitter now : ℕ → ℕ)
    (canceled_at : ℕ → Option Err) where
  -- The next `n` answers are such that they are asked again, and no wait is cut.
  abbrev pub AreRetried : ℕ → ℕ → Type 0
  AreRetried zero attempt = Unit {0}
  AreRetried (suc n) attempt =
      (is_retried (next attempt) (now attempt) ≡ true)
      × (canceled_at attempt ≡ none)
      × AreRetried n (suc attempt)

  abbrev later : ℕ → ℕ → ℕ
  later zero attempt = attempt
  later (suc n) attempt = later n (suc attempt)

  later-eq : (n attempt : ℕ) → later n attempt ≡ n + attempt
  later-eq zero attempt = omega arith
  later-eq (suc n) attempt = omega (arith, later-eq n (suc attempt))

  loop-settles :
      (n left attempt : ℕ)
      → n < left
      → AreRetried n attempt
      → is_retried (next (later n attempt)) (now (later n attempt)) ≡ false
      → (attempt_loop o next jitter now canceled_at left attempt).attempts ≡ suc n
        × ((attempt_loop o next jitter now canceled_at left attempt).outcome
            ≡ returned (next (later n attempt)))
  unfolding attempt_loop
  loop-settles n zero attempt less before settled = ground (arith, less)
  loop-settles zero (suc left) attempt less before settled = ground (arith, settled)
  loop-settles (suc n) (suc left) attempt less before settled =
      let rest = loop-settles n left (suc attempt) (omega (arith, less)) before.2 settled in
      ground (arith, before.0, before.1, rest.0, rest.1, less)

  loop-exhausts :
      (n attempt : ℕ)
      → AreRetried n attempt
      → is_retried (next (later n attempt)) (now (later n attempt)) ≡ true
      → (attempt_loop o next jitter now canceled_at (suc n) attempt).attempts ≡ suc n
        × ((attempt_loop o next jitter now canceled_at (suc n) attempt).outcome
            ≡ err (wrap Node.too_many_retries (last_err (next (later n attempt)))))
  unfolding attempt_loop
  loop-exhausts zero attempt before retried = ground (arith, retried)
  loop-exhausts (suc n) attempt before retried =
      let rest = loop-exhausts n (suc attempt) before.2 retried in
      ground (arith, before.0, before.1, rest.0, rest.1)

  later_zero : (n : ℕ) → later n 0 ≡ n
  later_zero n = omega (arith, later-eq n 0)

  -- A request whose body could be read, and whose answers before the n-th are asked again with no
  -- wait cut short, gets the n-th answer if that is not asked again and the attempts allow it: a
  -- response as it is, and an error wrapped.
  pub round_trip-settles :
      (q : HttpRequest) (n : ℕ)
      → q.body_error ≡ none
      → n < max_attempts o q
      → AreRetried n 0
      → is_retried (next n) (now n) ≡ false
      → ((round_trip o next jitter now canceled_at q).attempts ≡ suc n)
        × ((round_trip o next jitter now canceled_at q).outcome ≡ returned (next n))
  unfolding round_trip
  round_trip-settles q n body allowed before settled =
      let last = later_zero n in
      let h =
        loop-settles n (max_attempts o q) 0 allowed before
          (ap (λ k. is_retried (next k) (now k)) last ∙ settled) in
      ground (arith, body, h.0, h.1 ∙ ap (λ k. returned (next k)) last)

  -- A request whose body could be read, and whose answers are all asked again with no wait cut
  -- short, fails after exactly the attempts that it may make, with the last error wrapped.
  pub round_trip-exhausts :
      (q : HttpRequest) (n : ℕ)
      → q.body_error ≡ none
      → max_attempts o q ≡ suc n
      → AreRetried n 0
      → is_retried (next n) (now n) ≡ true
      → ((round_trip o next jitter now canceled_at q).attempts ≡ suc n)
        × ((round_trip o next jitter now canceled_at q).outcome
            ≡ err (wrap Node.too_many_retries (last_err (next n))))
  unfolding round_trip
  round_trip-exhausts q n body allowed before retried =
      let last = later_zero n in
      let h = loop-exhausts n 0 before (ap (λ k. is_retried (next k) (now k)) last ∙ retried) in
      let same = ap (λ k. attempt_loop o next jitter now canceled_at k 0) allowed in
      ground (
        arith,
        body,
        ap (λ t. t.attempts) same ∙ h.0,
        ap (λ t. t.outcome) same
            ∙ h.1
            ∙ ap (λ k. err (wrap Node.too_many_retries (last_err (next k)))) last,
      )
