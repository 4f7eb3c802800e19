-- ===== src/Circuit/Transport/Streaks.antt =====
-- The counters of TransportCircuit (helpers/circuit/circuit.go) against the history of outcomes.
use gazetteer.Prelude.{
  ap, sym, subst, ℕ, ◌+◌, ◌<◌, String, ◌≡◌, refl, true, false, Option, none, some, List, [], ◌∷◌,
  arith, ltb, leb, if◌then◌else◌, length, inl, inr, Bool-cases,
}
use gazetteer.Prelude.Int.{ℤ, pos, add_one32-pos, int32_half}
use gazetteer.Errors.{Err}
use gazetteer.Circuit.Registry.{World, trip_and_warn}
use gazetteer.Circuit.Registry.Trips.{flags-trip_and_warn, trips-trip_and_warn, log-trip_and_warn}
use gazetteer.Circuit.Classify.{err_is_429}
use gazetteer.Circuit.Transport.{TransportCircuit, tick_transport, tick_429, observe_outcome}
use gazetteer.Circuit.Transport.History.{
  History, failures, failures-le-length, reached-same, is_transport, is_quota, after, current,
  Agrees, Steps,
}

-- The lines that a trip writes.
abbrev streak_attrs : String → ℕ → ℕ → List (String × ℤ)
streak_attrs name n k = (name, pos n) ∷ ("threshold", pos k) ∷ []

abbrev transport_trip : ℕ → String → ℕ → ℕ → World → World
transport_trip p source n k =
    trip_and_warn (some p) source "circuit tripped on consecutive transport errors"
      (streak_attrs "consecutive_errors" n k)

abbrev quota_trip : ℕ → String → ℕ → ℕ → World → World
quota_trip p source n m =
    trip_and_warn (some p) source "circuit tripped on consecutive 429 responses"
      (streak_attrs "consecutive_429" n m)

-- What the two cases of the switch come to while the counters are exact.
tick_transport-armed :
    (t : TransportCircuit) (p k n : ℕ) (w : World)
    → n + 1 < int32_half
    → t.threshold ≡ pos k
    → t.flag ≡ some p
    → t.consec ≡ pos n
    → tick_transport t w ≡ (
        if ltb 0 k
        then (
          record t { consec = pos (n + 1) },
          (if leb k (n + 1) then transport_trip p t.source (n + 1) k w else w),
        )
        else (t, w))
unfolding tick_transport
tick_transport-armed t p k n w short ek ep en =
    rw (ek, ep, en, add_one32-pos n short) (ground arith)

tick_429-armed :
    (t : TransportCircuit) (p m n : ℕ) (w : World)
    → n + 1 < int32_half
    → t.max429 ≡ pos m
    → t.flag ≡ some p
    → t.consec429 ≡ pos n
    → tick_429 t w ≡ (
        if ltb 0 m
        then (
          record t { consec429 = pos (n + 1) },
          (if leb m (n + 1) then quota_trip p t.source (n + 1) m w else w),
        )
        else (t, w))
unfolding tick_429
tick_429-armed t p m n w short em ep en = rw (em, ep, en, add_one32-pos n short) (ground arith)

module _ (t : TransportCircuit) (e : Err) (v : World) where
  outcome-transport : is_transport e ≡ true → observe_outcome t (some e) v ≡ tick_transport t v
  unfolding observe_outcome
  outcome-transport hit = rw hit

  outcome-quota :
      is_transport e ≡ false
      → err_is_429 (some e) ≡ true
      → observe_outcome t (some e) v ≡ tick_429 t v
  unfolding observe_outcome
  outcome-quota miss hit = rw (miss, hit)

  outcome-ignored :
      is_transport e ≡ false → err_is_429 (some e) ≡ false → observe_outcome t (some e) v ≡ (t, v)
  unfolding observe_outcome
  outcome-ignored miss other = rw (miss, other)

module _ (source : String) (p k m : ℕ) (w : World) where
  transport-Steps :
      (e : Err) (h : History) (v : World) (n : ℕ)
      → n ≡ (if ltb 0 k then failures is_transport h else 0)
      → is_transport e ≡ true
      → length h + 1 < int32_half
      → Agrees source p k m w h v
      → Steps source p k m w (some e) h (tick_transport (current source p k m w h) v)
  transport-Steps e h v n en hit short a =
      rw
        (tick_transport-armed (current source p k m w h) p k n v
          (ground (arith, failures-le-length is_transport h)) refl refl (ap pos (sym en)))
        (ground (
          arith,
          reached-same is_quota m h,
          flags-trip_and_warn p source "circuit tripped on consecutive transport errors"
              (streak_attrs "consecutive_errors" (n + 1) k) v p,
          trips-trip_and_warn p source "circuit tripped on consecutive transport errors"
              (streak_attrs "consecutive_errors" (n + 1) k) v,
          log-trip_and_warn p source "circuit tripped on consecutive transport errors"
              (streak_attrs "consecutive_errors" (n + 1) k) v,
        ))

  quota-Steps :
      (e : Err) (h : History) (v : World) (n : ℕ)
      → n ≡ (if ltb 0 m then failures is_quota h else 0)
      → is_quota e ≡ true
      → length h + 1 < int32_half
      → Agrees source p k m w h v
      → Steps source p k m w (some e) h (tick_429 (current source p k m w h) v)
  quota-Steps e h v n en hit short a =
      rw
        (tick_429-armed (current source p k m w h) p m n v
          (ground (arith, failures-le-length is_quota h)) refl refl (ap pos (sym en)))
        (ground (
          arith,
          reached-same is_transport k h,
          flags-trip_and_warn p source "circuit tripped on consecutive 429 responses"
              (streak_attrs "consecutive_429" (n + 1) m) v p,
          trips-trip_and_warn p source "circuit tripped on consecutive 429 responses"
              (streak_attrs "consecutive_429" (n + 1) m) v,
          log-trip_and_warn p source "circuit tripped on consecutive 429 responses"
              (streak_attrs "consecutive_429" (n + 1) m) v,
        ))

  ignored-Steps :
      (e : Err) (h : History) (v : World)
      → is_transport e ≡ false
      → is_quota e ≡ false
      → Agrees source p k m w h v
      → Steps source p k m w (some e) h (current source p k m w h, v)
  ignored-Steps e h v no_transport no_quota a =
      ground (arith, reached-same is_transport k h, reached-same is_quota m h)

  observe_outcome-Steps :
      (x : Option Err) (h : History) (v : World)
      → length h + 1 < int32_half
      → Agrees source p k m w h v
      → Steps source p k m w x h (observe_outcome (current source p k m w h) x v)
  observe_outcome-Steps none h v short a = unfold observe_outcome in ground arith
  observe_outcome-Steps (some e) h v short a = elim (Bool-cases (is_transport e)) [
    | inl hit ↦ moved (outcome-transport _ e v hit) (transport-Steps e h v _ refl hit short a)
    | inr miss ↦ elim (Bool-cases (err_is_429 (some e))) [
      | inl quota ↦
          moved (outcome-quota _ e v miss quota) (quota-Steps e h v _ refl (ground arith) short a)
      | inr other ↦
          moved (outcome-ignored _ e v miss other) (ignored-Steps e h v miss (ground arith) a)
    ]
  ]
    where
      moved :
          {s t : TransportCircuit × World}
          → s ≡ t
          → Steps source p k m w (some e) h t
          → Steps source p k m w (some e) h s
      moved q = subst (Steps source p k m w (some e) h) (sym q)

  -- Whatever the outcomes, up to 2 ^ 31 of them: the counters of an armed breaker are the failures
  -- of their kind since the last success, its flag is set exactly if it was set before or one of
  -- the counters that are switched on ever reached its threshold, and on that flip alone the trip
  -- counter of the source goes up by one and one line is logged.
  pub replay-Agrees :
      (h : History)
      → length h < int32_half
      → ((after source p k m w h).0 ≡ current source p k m w h)
        × Agrees source p k m w h (after source p k m w h).1
  replay-Agrees [] short = ground arith
  replay-Agrees (x ∷ h) short =
      let (same, agrees) = replay-Agrees h (omega arith) in
      rw same (observe_outcome-Steps x h (after source p k m w h).1 (omega arith) agrees)
