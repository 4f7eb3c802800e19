-- ===== src/Circuit/Registry.antt =====
-- helpers/circuit/circuit.go: the process-wide state of the breakers. A `*atomic.Bool` is an
-- address into `flags`, so that breakers can share one; `none` is the nil pointer.
pub mod Trips
use gazetteer.Prelude.{
  ℕ, ◌+◌, ◌%◌, String, Bool, true, false, Option, none, some, List, [], ◌∷◌, ◌++◌, ltb, ◌==◌,
  str_eq, if◌then◌else◌,
}
use gazetteer.Prelude.Int.{ℤ}
use gazetteer.Prelude.Dict.{lookup, insert}

-- One line of the log, at level Warn. The ratios of a rate-window line are left out.
pub record Line : Type 0 where
  pub source : String
  pub message : String
  pub attrs : List (String × ℤ)

-- `trips` is circuitTripCounters, `states` is circuitStateRegistry, `requests` are the URLs that
-- were handed to the HTTP client, latest last.
pub record World : Type 0 where
  pub flags : ℕ → Bool
  pub trips : List (String × ℕ)
  pub states : List (String × ℕ)
  pub log : List Line
  pub requests : List String

abbrev pub update : (ℕ → Bool) → ℕ → Bool → ℕ → Bool
update f p b q = if p == q then b else f q

-- `if source == "" { source = "common" }`
unfoldable pub or_common : String → String
or_common source = if str_eq source "" then "common" else source

-- `Load()` through a pointer that may be nil.
abbrev pub loaded : World → Option ℕ → Bool
loaded w none = false
loaded w (some p) = w.flags p

abbrev pub count_of : Option ℕ → ℕ
count_of none = 0
count_of (some n) = n

-- `Add(1)` on an `atomic.Int64`, as its bit pattern.
abbrev pub add_one64 : ℕ → ℕ
add_one64 n = (n + 1) % 18446744073709551616

unfoldable pub record_circuit_trip : String → World → World
record_circuit_trip source w =
    let key = or_common source in
    record w { trips = insert key (add_one64 (count_of (lookup key w.trips))) w.trips }

-- The new state, and whether this call flipped the flag.
unfoldable pub trip_circuit : Option ℕ → String → World → World × Bool
trip_circuit none source w = (w, false)
trip_circuit (some p) source w =
    if w.flags p
    then (w, false)
    else (record_circuit_trip source (record w { flags = update w.flags p true }), true)

unfoldable pub trip_and_warn : Option ℕ → String → String → List (String × ℤ) → World → World
trip_and_warn flag source msg attrs w =
    let (w', flipped) = trip_circuit flag source w in
    if flipped
    then record w' { log = w'.log ++ record { source = source; message = msg; attrs = attrs } ∷ [] }
    else w'

unfoldable pub register_circuit_state : String → Option ℕ → World → World
register_circuit_state source none w = w
register_circuit_state source (some p) w = record w {
  states = insert (or_common source) p w.states;
}
