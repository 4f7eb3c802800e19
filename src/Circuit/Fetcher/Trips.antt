-- ===== src/Circuit/Fetcher/Trips.antt =====
-- When a Fetch (helpers/circuit/circuit.go) sets the flag.
use gazetteer.Prelude.{
  ℕ, ◌+◌, ◌<◌, ◌≡◌, refl, String, Bool, true, false, ◌&&◌, ◌||◌, not, Option, none, some, [], ◌∷◌,
  ◌++◌, arith, leb, ltb,
}
use gazetteer.Prelude.Int.{pos, add_one32-pos, int32_half}
use gazetteer.Errors.{Err}
use gazetteer.Floats.{Floats}
use gazetteer.Circuit.Registry.{World, trip_circuit, record_circuit_trip}
use gazetteer.Circuit.Registry.Trips.{flags-trip_and_warn}
use gazetteer.Circuit.Classify.{
  is_transport_or_deadline_err, err_is_429, resp_has_quota_remaining_zero,
}
use gazetteer.Circuit.Window
use gazetteer.Circuit.Fetcher.{
  HttpFetcher, Answer, circuit_flag, reset_streaks, feed_quota, feed_transport, feed_window,
  feed_breakers, abandoned, fetch_set, fetch,
}

module _ (fl : Floats) (h : HttpFetcher fl.Float) (p : ℕ) (a : Answer) (w : World) where
  -- Flags after the switch on quota signals.
  flags-feed_quota :
      (m j : ℕ)
      → h.max_consecutive429 ≡ pos m
      → h.consecutive429 ≡ pos j
      → j + 1 < int32_half
      → w.flags p ≡ false
      → (feed_quota (some p) h a w).1.flags p ≡ (
          resp_has_quota_remaining_zero a.quota_remaining
          || (err_is_429 a.error && (not (ltb 0 m) || leb m (j + 1))))
  unfolding feed_quota trip_circuit record_circuit_trip
  flags-feed_quota m j em ej short open_flag = ground (
    arith,
    add_one32-pos j,
    flags-trip_and_warn p h.err_prefix "circuit tripped on consecutive 429 responses"
        (("consecutive_429", pos (j + 1)) ∷ ("threshold", pos m) ∷ []) w p,
  )

  flags-feed_transport :
      (k i : ℕ)
      → h.max_consecutive_transport_errors ≡ pos k
      → h.consecutive_transport_errors ≡ pos i
      → i + 1 < int32_half
      → (feed_transport (some p) h a.error w).1.flags p
        ≡ (w.flags p || (is_transport_or_deadline_err a.error && (ltb 0 k && leb k (i + 1))))
  unfolding feed_transport
  flags-feed_transport k i ek ei short = ground (
    arith,
    add_one32-pos i,
    flags-trip_and_warn p h.err_prefix "circuit tripped on consecutive transport errors"
        (("consecutive_errors", pos (i + 1)) ∷ ("threshold", pos k) ∷ []) w p,
  )

  options-feed_quota :
      (c : Option ℕ)
      → ((feed_quota c h a w).0.options ≡ h.options)
        × ((feed_quota c h a w).0.consecutive_transport_errors ≡ h.consecutive_transport_errors)
  unfolding feed_quota
  options-feed_quota none = (refl, refl)
  options-feed_quota (some p) = ground arith

no_error : (is_transport_or_deadline_err none ≡ false) × (err_is_429 none ≡ false)
unfolding is_transport_or_deadline_err err_is_429
no_error = (refl, refl)

window-feed_window :
    (fl : Floats) (h : HttpFetcher fl.Float) (now : ℕ) (e : Option Err) (w : World)
    → h.rate_window ≡ none
    → (feed_window fl h now e w).1 ≡ w
unfolding feed_window Window.observe
window-feed_window fl h now e w no_window = ground arith

rate_window-feed_transport :
    {Float : Type 0} (c : Option ℕ) (h : HttpFetcher Float) (e : Option Err) (w : World)
    → (feed_transport c h e w).0.rate_window ≡ h.rate_window
unfolding feed_transport
rate_window-feed_transport c h e w = ground arith

-- Does the answer trip through the quota signals, at a limit `m` and a streak of `j` so far?
abbrev pub quota_trips : Answer → ℕ → ℕ → Bool
quota_trips a m j =
    resp_has_quota_remaining_zero a.quota_remaining
    || (err_is_429 a.error && (not (ltb 0 m) || leb m (j + 1)))

-- Does it trip as a transport error, at a limit `k` and a streak of `i` so far?
abbrev pub transport_trips : Answer → ℕ → ℕ → Bool
transport_trips a k i = is_transport_or_deadline_err a.error && (ltb 0 k && leb k (i + 1))

module _ (fl : Floats) (h : HttpFetcher fl.Float) (now p k m : ℕ) (a : Answer) where
  -- The three breakers of a fetcher whose streaks are `i` and `j`.
  flags-chain :
      (i j : ℕ) (w : World)
      → h.rate_window ≡ none
      → h.max_consecutive_transport_errors ≡ pos k
      → h.max_consecutive429 ≡ pos m
      → h.consecutive_transport_errors ≡ pos i
      → h.consecutive429 ≡ pos j
      → i + 1 < int32_half
      → j + 1 < int32_half
      → w.flags p ≡ false
      → let (h1, w1) = feed_quota (some p) h a w in
        let (h2, w2) = feed_transport (some p) h1 a.error w1 in
        (feed_window fl h2 now a.error w2).1.flags p ≡ (quota_trips a m j || transport_trips a k i)
  flags-chain i j w no_window limit limit429 streak streak429 short short429 open_flag = ground (
    arith,
    window-feed_window fl h2 now a.error w2,
    rate_window-feed_transport (some p) h1 a.error w1,
    options-feed_quota fl h p a w (some p),
    flags-feed_quota fl h p a w m j,
    flags-feed_transport fl h1 p a w1 k i,
  )
    where
      h1 : HttpFetcher fl.Float
      h1 = (feed_quota (some p) h a w).0

      w1 : World
      w1 = (feed_quota (some p) h a w).1

      h2 : HttpFetcher fl.Float
      h2 = (feed_transport (some p) h1 a.error w1).0

      w2 : World
      w2 = (feed_transport (some p) h1 a.error w1).1

module _ (fl : Floats) (h : HttpFetcher fl.Float) (p k m i j : ℕ) (a : Answer) (w : World) where
  -- A fetcher with an open flag and no rate window.
  pub record IsReady : Type 0 where
    pub client : h.has_client ≡ true
    pub flagged : circuit_flag h.options ≡ some p
    pub open_flag : w.flags p ≡ false
    pub no_window : h.rate_window ≡ none
    pub limit : h.max_consecutive_transport_errors ≡ pos k
    pub limit429 : h.max_consecutive429 ≡ pos m
    pub streak : h.consecutive_transport_errors ≡ pos i
    pub streak429 : h.consecutive429 ≡ pos j
    pub short : i + 1 < int32_half
    pub short429 : j + 1 < int32_half

  flags-feed_breakers :
      (now : ℕ) (e : Option Err) (v : World)
      → a.error ≡ e
      → IsReady
      → v.flags p ≡ false
      → (feed_breakers fl h now a v).1.flags p ≡ (quota_trips a m j || transport_trips a k i)
  unfolding feed_breakers
  flags-feed_breakers now none v same r open_flag = ground (
    arith,
    flags-chain fl (reset_streaks h none) now p k m a 0 0 v r.no_window r.limit r.limit429 refl refl
        (omega arith) (omega arith) open_flag,
    no_error,
  )
  flags-feed_breakers now (some e) v same r open_flag = ground (
    arith,
    flags-chain fl h now p k m a i j v r.no_window r.limit r.limit429 r.streak r.streak429 r.short
        r.short429 open_flag,
  )

  -- Such a fetcher sets the flag exactly if the caller did not cancel and the quota header says 0
  -- (on any answer that has it, those of an error status included), or a 429 came and its streak has no limit or reaches it, or a transport error came and its
  -- streak has a limit and reaches it.
  pub fetch-trips :
      (url : String) (now : ℕ)
      → IsReady
      → (fetch fl (some h) url now a w).2.flags p
        ≡ (not (abandoned fl a) && (quota_trips a m j || transport_trips a k i))
  unfolding fetch_set fetch
  fetch-trips url now ready = ground (
    arith,
    flags-feed_breakers now a.error (record w { requests = w.requests ++ url ∷ [] }) refl ready,
  )
