-- ===== src/Httpx/Retry/Bounds.antt =====
-- How often and how long the retry transport (helpers/httpx/retry.go) keeps a caller.
use gazetteer.Prelude.{
  ℕ, zero, suc, ◌+◌, ◌≤◌, true, Option, none, some, List, [], ◌∷◌, ◌≡◌, arith, sym, subst,
  if◌then◌else◌, length, ◌==◌, if-cases, Option-elim,
}
use gazetteer.Prelude.Int.{ℤ, pos, negsuc, leb_ℤ, is_positive}
use gazetteer.Prelude.Int64.{min_ℤ}
use gazetteer.Errors.{Result, err, wrap, Node, Err}
use gazetteer.Httpx.Retry.{
  Options, HttpRequest, Response, Trip, ended, waited, returned, last_err, uncapped, stopped,
  backoff, wait_of, should_retry, attempt_loop, round_trip, max_attempts, replayable,
}

leb_ℤ-refl : (a : ℤ) → leb_ℤ a a ≡ true
leb_ℤ-refl (pos n) = ground arith
leb_ℤ-refl (negsuc n) = ground arith

min_ℤ-le : (a b : ℤ) → leb_ℤ (min_ℤ a b) b ≡ true
min_ℤ-le a b = if-cases (λ m. leb_ℤ m b ≡ true) (leb_ℤ a b) a b (λ h. h) (λ _. leb_ℤ-refl b)

-- What a wait after an attempt is held to, from what should_retry made of it: the server's own wait
-- by one cap, a backoff by the other.
abbrev pub cap_of : Options → Option ℤ → ℤ
cap_of o none = o.backoff_cap
cap_of o (some asked) = if is_positive asked then o.max_retry_after else o.backoff_cap

module _ (o : Options) (next : ℕ → Result Response) (now : ℕ → ℕ) where
  -- Each wait is no longer than the cap of its own attempt.
  abbrev pub AreCapped : ℕ → List ℤ → Type 0
  AreCapped attempt [] = Unit {0}
  AreCapped attempt (w ∷ ws) =
      (leb_ℤ w (cap_of o (should_retry (next attempt) (now attempt))) ≡ true)
      × AreCapped (suc attempt) ws

  -- What a trip keeps that may make `n` attempts, from one on.
  abbrev pub IsShort : ℕ → ℕ → Trip → Type 0
  IsShort n attempt t = (t.attempts ≤ n) × (length t.waits ≤ t.attempts) × AreCapped attempt t.waits

  waited-IsShort :
      (n attempt : ℕ) (w : ℤ) (t : Trip)
      → leb_ℤ w (cap_of o (should_retry (next attempt) (now attempt))) ≡ true
      → IsShort n (suc attempt) t
      → IsShort (suc n) attempt (waited w t)
  waited-IsShort n attempt w t capped h = (omega (arith, h.0), omega (arith, h.1), (capped, h.2))

  ended-IsShort : (n attempt : ℕ) (r : Result Response) → IsShort (suc n) attempt (ended r)
  ended-IsShort n attempt r = (omega arith, omega arith, tt)

module _ (o : Options) (next : ℕ → Result Response) (jitter now : ℕ → ℕ)
    (canceled_at : ℕ → Option Err) where
  wait_of-le :
      (attempt : ℕ) (asked : ℤ)
      → leb_ℤ (wait_of o next jitter now canceled_at attempt asked) (cap_of o (some asked)) ≡ true
  unfolding wait_of backoff
  wait_of-le attempt asked = ground (
    arith,
    min_ℤ-le asked o.max_retry_after,
    min_ℤ-le (uncapped o attempt (jitter attempt)) o.backoff_cap,
  )

  attempt_loop-IsShort :
      (left attempt : ℕ)
      → IsShort o next now left attempt (attempt_loop o next jitter now canceled_at left attempt)
  unfolding attempt_loop
  attempt_loop-IsShort zero attempt = (omega arith, omega arith, tt)
  attempt_loop-IsShort (suc left) attempt =
      let rest = attempt_loop o next jitter now canceled_at left (suc attempt) in
      let wait = wait_of o next jitter now canceled_at attempt in
      let Short : Trip → Type 0 = IsShort o next now (suc left) attempt in
      Option-elim Short (should_retry (next attempt) (now attempt))
        (ended (returned (next attempt)))
        (λ asked.
          if left == 0
          then ended (err (wrap Node.too_many_retries (last_err (next attempt))))
          else elim (canceled_at attempt) [
            | some e ↦ waited (wait asked) (stopped e)
            | none ↦ waited (wait asked) rest
          ])
        (λ _. ended-IsShort o next now left attempt (returned (next attempt)))
        (λ asked k.
          let capped : leb_ℤ (wait asked) (cap_of o (should_retry (next attempt) (now attempt)))
              ≡ true =
            subst (λ s. leb_ℤ (wait asked) (cap_of o s) ≡ true) (sym k)
              (wait_of-le attempt asked) in
          if-cases Short (left == 0)
            (ended (err (wrap Node.too_many_retries (last_err (next attempt)))))
            (elim (canceled_at attempt) [
              | some e ↦ waited (wait asked) (stopped e)
              | none ↦ waited (wait asked) rest
            ])
            (λ _.
              ended-IsShort o next now left attempt
                (err (wrap Node.too_many_retries (last_err (next attempt)))))
            (λ _.
              Option-elim Short (canceled_at attempt) (waited (wait asked) rest)
                (λ e. waited (wait asked) (stopped e))
                (λ _.
                  waited-IsShort o next now left attempt (wait asked) rest capped
                    (attempt_loop-IsShort left (suc attempt)))
                (λ e _.
                  waited-IsShort o next now left attempt (wait asked) (stopped e) capped
                    (omega arith, omega arith, tt))))

  -- RoundTrip makes at most one attempt more than the retries that are allowed, and a request that
  -- is not replayable is sent at most once; it waits at most once after an attempt. Each wait is
  -- held to the cap of the attempt before it, even where the arithmetic of the backoff overflows:
  -- to the cap on Retry-After where the server asked for a wait, and to that of the backoff
  -- otherwise.
  pub round_trip-IsShort :
      (q : HttpRequest)
      → IsShort o next now
          (if replayable q then o.max_retries + 1 else 1)
          0
          (round_trip o next jitter now canceled_at q)
  unfolding round_trip
  round_trip-IsShort q =
      let n = max_attempts o q in
      Option-elim (IsShort o next now n 0) q.body_error
        (attempt_loop o next jitter now canceled_at n 0)
        (λ e. record { attempts = 0; waits = []; outcome = err (wrap Node.err_transport e) })
        (λ _. attempt_loop-IsShort n 0) (λ e _. (omega arith, omega arith, tt))
