-- ===== src/Circuit/Registry/Trips.antt =====
-- What a trip does to the process-wide state of helpers/circuit/circuit.go.
use gazetteer.Prelude.{
  ℕ, ◌+◌, String, ◌≡◌, true, some, List, arith, ◌==◌, if◌then◌else◌, length, length-append, [], ◌∷◌,
  inl, inr, Bool-cases,
}
use gazetteer.Prelude.Int.{ℤ}
use gazetteer.Prelude.Dict.{lookup, lookup-insert_self}
use gazetteer.Circuit.Registry.{
  World, or_common, count_of, add_one64, record_circuit_trip, trip_circuit, trip_and_warn,
}

module _ (p : ℕ) (source msg : String) (attrs : List (String × ℤ)) (w : World) where
  -- Only the flag at `p` changes, and it is set.
  pub flags-trip_and_warn :
      (q : ℕ)
      → (trip_and_warn (some p) source msg attrs w).flags q ≡ (if p == q then true else w.flags q)
  unfolding trip_and_warn trip_circuit record_circuit_trip
  flags-trip_and_warn q = ground arith

  -- The counter of the source counts the flip and nothing else.
  pub trips-trip_and_warn :
      count_of (lookup (or_common source) (trip_and_warn (some p) source msg attrs w).trips) ≡ (
        if w.flags p
        then count_of (lookup (or_common source) w.trips)
        else add_one64 (count_of (lookup (or_common source) w.trips)))
  unfolding trip_and_warn trip_circuit record_circuit_trip
  trips-trip_and_warn = elim (Bool-cases (w.flags p)) [
    | inl e ↦ ground arith
    | inr e ↦ ground (
      arith,
      lookup-insert_self (or_common source)
          (add_one64 (count_of (lookup (or_common source) w.trips))) w.trips,
    )
  ]

  -- The flip is warned of once.
  pub log-trip_and_warn :
      length (trip_and_warn (some p) source msg attrs w).log
      ≡ (if w.flags p then length w.log else length w.log + 1)
  unfolding trip_and_warn trip_circuit record_circuit_trip
  log-trip_and_warn =
      ground
        (arith, length-append w.log (record { source = source; message = msg; attrs = attrs } ∷ []))

  pub requests-trip_and_warn : (trip_and_warn (some p) source msg attrs w).requests ≡ w.requests
  unfolding trip_and_warn trip_circuit record_circuit_trip
  requests-trip_and_warn = ground arith
