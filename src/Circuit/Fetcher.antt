-- ===== src/Circuit/Fetcher.antt =====
-- helpers/circuit/circuit.go: HTTPFetcher. What the HTTP client answers is an argument; the
-- headers and the logger of the options are left out. A rate window belongs to one fetcher.
pub mod Laws
pub mod Trips
use gazetteer.Prelude.{
  ℕ, String, Bool, true, false, ◌&&◌, Option, none, some, List, [], ◌∷◌, ◌++◌, not, str_eq,
  str_append, if◌then◌else◌,
}
use gazetteer.Prelude.Int.{ℤ, pos, leb_ℤ, is_positive, add_one32}
use gazetteer.Errors
use gazetteer.Errors.{Node, Err, leaf, wrap, Result, ok, err}
use gazetteer.Floats.{Floats}
use gazetteer.Circuit.Registry.{
  World, or_common, loaded, trip_circuit, trip_and_warn, register_circuit_state,
}
use gazetteer.Circuit.Classify.{
  is_transport_or_deadline_err, err_is_429, resp_has_quota_remaining_zero, caller_canceled,
}
use gazetteer.Circuit.Window
use gazetteer.Circuit.Window.{RateWindow}

pub record HttpFetcherOptions (Float : Type 0) : Type 0 where
  pub err_prefix : String
  pub circuit_tripped : Option ℕ
  pub quota_tripped : Option ℕ
  pub max_consecutive_transport_errors : ℤ
  pub max_consecutive429 : ℤ
  pub rate_window : Option (RateWindow Float)

pub record HttpFetcher (Float : Type 0) : Type 0 where
  pub has_client : Bool
  pub options : HttpFetcherOptions Float
  pub open options use *
  pub consecutive_transport_errors : ℤ
  pub consecutive429 : ℤ

-- What one GetBytes gives: the body, the header `x-quota-remaining` of the response if there is
-- one, the error, and `ctx.Err()` once the call is back.
pub record Answer : Type 0 where
  pub body : List ℕ
  pub quota_remaining : Option String
  pub error : Option Err
  pub ctx_err : Option Err

abbrev pub is_error : Option Err → Bool
is_error none = false
is_error (some e) = true

module _ {Float : Type 0} where
  abbrev pub circuit_flag : HttpFetcherOptions Float → Option ℕ
  circuit_flag o = elim o.circuit_tripped [ none ↦ o.quota_tripped | some p ↦ some p ]

  unfoldable pub new_http_fetcher :
      Bool → HttpFetcherOptions Float → World → HttpFetcher Float × World
  unfolding or_common register_circuit_state
  new_http_fetcher has_client opts w =
      let o : HttpFetcherOptions Float = record opts { err_prefix = or_common opts.err_prefix } in
      let h : HttpFetcher Float = record {
        has_client = has_client;
        options = o;
        consecutive_transport_errors = pos 0;
        consecutive429 = pos 0;
      } in
      (h, register_circuit_state o.err_prefix (circuit_flag o) w)

  -- `if err == nil`: both streaks end.
  abbrev pub reset_streaks : HttpFetcher Float → Option Err → HttpFetcher Float
  reset_streaks h none = record h { consecutive_transport_errors = pos 0; consecutive429 = pos 0 }
  reset_streaks h (some e) = h

  -- `if circuit != nil` and its switch.
  unfoldable pub feed_quota :
      Option ℕ → HttpFetcher Float → Answer → World → HttpFetcher Float × World
  feed_quota none h a w = (h, w)
  feed_quota (some p) h a w =
      if resp_has_quota_remaining_zero a.quota_remaining
      then (h, (trip_circuit (some p) h.err_prefix w).0)
      else if err_is_429 a.error && not (is_positive h.max_consecutive429)
      then (h, (trip_circuit (some p) h.err_prefix w).0)
      else if err_is_429 a.error
      then (let n = add_one32 h.consecutive429 in
          (
            record h { consecutive429 = n },
            if leb_ℤ h.max_consecutive429 n
                then trip_and_warn (some p) h.err_prefix
                    "circuit tripped on consecutive 429 responses"
                    (("consecutive_429", n) ∷ ("threshold", h.max_consecutive429) ∷ []) w
                else w,
          ))
      else (h, w)

  unfoldable pub feed_transport :
      Option ℕ → HttpFetcher Float → Option Err → World → HttpFetcher Float × World
  feed_transport circuit h e w =
      if is_positive h.max_consecutive_transport_errors && is_transport_or_deadline_err e
      then (let n = add_one32 h.consecutive_transport_errors in
          (
            record h { consecutive_transport_errors = n },
            if leb_ℤ h.max_consecutive_transport_errors n
                then trip_and_warn circuit h.err_prefix
                    "circuit tripped on consecutive transport errors"
                    (("consecutive_errors", n)
                      ∷ ("threshold", h.max_consecutive_transport_errors)
                      ∷ [])
                    w
                else w,
          ))
      else (h, w)

-- `fmt.Errorf("%s fetch %s: %w", prefix, url, err)`
abbrev pub fetch_failed : String → String → Err → Err
fetch_failed prefix url e =
    wrap (Node.context (str_append prefix (str_append " fetch " (str_append url ": ")))) e

module _ (fl : Floats) where
  unfoldable pub feed_window :
      HttpFetcher fl.Float → ℕ → Option Err → World → HttpFetcher fl.Float × World
  feed_window h now e w =
      let (r, w') = Window.observe fl h.rate_window now e w in
      (record h { options = record h.options { rate_window = r } }, w')

  -- The three breakers, in the order of the code.
  unfoldable pub feed_breakers :
      HttpFetcher fl.Float → ℕ → Answer → World → HttpFetcher fl.Float × World
  unfolding feed_quota feed_transport feed_window
  feed_breakers h now a w =
      let circuit = circuit_flag h.options in
      let (h1, w1) = feed_quota circuit (reset_streaks h a.error) a w in
      let (h2, w2) = feed_transport circuit h1 a.error w1 in feed_window h2 now a.error w2

  abbrev pub Fetched : Type 0
  Fetched = HttpFetcher fl.Float × Result (List ℕ) × World

  abbrev to_result : String → String → Answer → Result (List ℕ)
  to_result prefix url a = elim a.error [
    | none ↦ ok a.body
    | some e ↦ err (fetch_failed prefix url e)
  ]

  abbrev abandoned : Answer → Bool
  abandoned a = is_error a.error && caller_canceled a.ctx_err

  -- Fetch with a client.
  unfoldable pub fetch_answered : HttpFetcher fl.Float → String → ℕ → Answer → World → Fetched
  unfolding feed_breakers
  fetch_answered h url now a w =
      if abandoned a
      then (h, to_result h.err_prefix url a, w)
      else (let (h', w') = feed_breakers h now a w in (h', to_result h.err_prefix url a, w'))

  unfoldable pub fetch_set : HttpFetcher fl.Float → String → ℕ → Answer → World → Fetched
  unfolding fetch_answered or_common
  fetch_set h url now a w =
      if not h.has_client
      then (h, err (leaf (Node.text (str_append (or_common h.err_prefix) ": nil HTTPFetcher"))), w)
      else if loaded w (circuit_flag h.options)
      then (h, err (fetch_failed h.err_prefix url (leaf Node.circuit_open)), w)
      else fetch_answered h url now a (record w { requests = w.requests ++ url ∷ [] })

  -- A nil receiver is `none`.
  unfoldable pub fetch :
      Option (HttpFetcher fl.Float)
      → String
      → ℕ
      → Answer
      → World
      → Option (HttpFetcher fl.Float) × Result (List ℕ) × World
  unfolding fetch_set
  fetch none url now a w = (none, err (leaf (Node.text "circuit: nil HTTPFetcher")), w)
  fetch (some h) url now a w = let (h', res, w') = fetch_set h url now a w in (some h', res, w')
