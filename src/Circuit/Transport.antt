-- ===== src/Circuit/Transport.antt =====
-- helpers/circuit/circuit.go: TransportCircuit. Its two counters are `atomic.Int32`s.
pub mod History
pub mod Streaks
use gazetteer.Prelude.{
  ℕ, String, Bool, true, false, Option, none, some, [], ◌∷◌, not, if◌then◌else◌,
}
use gazetteer.Prelude.Int.{ℤ, pos, leb_ℤ, is_positive, to_int32, add_one32}
use gazetteer.Errors.{Err}
use gazetteer.Circuit.Registry.{World, or_common, loaded, trip_and_warn, register_circuit_state}
use gazetteer.Circuit.Classify.{is_transport_or_deadline_err, err_is_429, caller_canceled}

pub record TransportCircuit : Type 0 where
  pub source : String
  pub threshold : ℤ
  pub flag : Option ℕ
  pub consec : ℤ
  pub max429 : ℤ
  pub consec429 : ℤ

unfoldable pub new_transport_circuit : String → ℤ → Option ℕ → World → TransportCircuit × World
unfolding or_common register_circuit_state
new_transport_circuit source threshold flag w =
    let t : TransportCircuit = record {
      source = or_common source;
      threshold = threshold;
      flag = flag;
      consec = pos 0;
      max429 = pos 0;
      consec429 = pos 0;
    } in
    (t, register_circuit_state source flag w)

-- A nil receiver is `none`.
unfoldable pub tripped : Option TransportCircuit → World → Bool
tripped none w = false
tripped (some t) w = loaded w t.flag

unfoldable pub set_max429 : ℤ → Option TransportCircuit → Option TransportCircuit
unfolding to_int32
set_max429 n none = none
set_max429 n (some t) = some (record t { max429 = to_int32 n })

-- The two cases of the switch in Observe.
unfoldable pub tick_transport : TransportCircuit → World → TransportCircuit × World
tick_transport t w =
    if not (is_positive t.threshold)
    then (t, w)
    else (let n = add_one32 t.consec in
        (
          record t { consec = n },
          if leb_ℤ t.threshold n
              then trip_and_warn t.flag t.source "circuit tripped on consecutive transport errors"
                  (("consecutive_errors", n) ∷ ("threshold", t.threshold) ∷ []) w
              else w,
        ))

unfoldable pub tick_429 : TransportCircuit → World → TransportCircuit × World
tick_429 t w =
    if not (is_positive t.max429)
    then (t, w)
    else (let n = add_one32 t.consec429 in
        (
          record t { consec429 = n },
          if leb_ℤ t.max429 n
              then trip_and_warn t.flag t.source "circuit tripped on consecutive 429 responses"
                  (("consecutive_429", n) ∷ ("threshold", t.max429) ∷ []) w
              else w,
        ))

unfoldable pub observe_outcome : TransportCircuit → Option Err → World → TransportCircuit × World
unfolding tick_transport tick_429
observe_outcome t none w = (record t { consec = pos 0; consec429 = pos 0 }, w)
observe_outcome t (some e) w =
    if is_transport_or_deadline_err (some e)
    then tick_transport t w
    else if err_is_429 (some e)
    then tick_429 t w
    else (t, w)

abbrev to_pointer : TransportCircuit × World → Option TransportCircuit × World
to_pointer (t, w) = (some t, w)

unfoldable pub observe :
    Option TransportCircuit → Option Err → World → Option TransportCircuit × World
unfolding observe_outcome
observe none err w = (none, w)
observe (some t) err w = elim t.flag [
  | none ↦ (some t, w)
  | some p ↦ to_pointer (observe_outcome t err w)
]

unfoldable pub observe_ctx :
    Option Err → Option TransportCircuit → Option Err → World → Option TransportCircuit × World
unfolding observe
observe_ctx ctx_err t none w = observe t none w
observe_ctx ctx_err t (some e) w = if caller_canceled ctx_err then (t, w) else observe t (some e) w
