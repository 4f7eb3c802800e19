-- ===== src/Circuit/Content.antt =====
-- helpers/circuit/streak.go: ContentStreakBreaker.
pub mod Streaks
use gazetteer.Prelude.{
  ℕ, String, Bool, true, false, Option, none, some, List, [], ◌∷◌, not, length, ltb, if◌then◌else◌,
}
use gazetteer.Prelude.Int.{ℤ, pos, leb_ℤ, is_positive, add_one32}
use gazetteer.Circuit.Registry.{World, or_common, loaded, trip_and_warn, register_circuit_state}

pub record ContentStreakBreaker : Type 0 where
  pub source : String
  pub threshold : ℤ
  pub flag : Option ℕ
  pub consec : ℤ

unfoldable pub new_content_streak_breaker :
    String → ℤ → Option ℕ → World → ContentStreakBreaker × World
unfolding or_common register_circuit_state
new_content_streak_breaker source threshold flag w =
    let b : ContentStreakBreaker = record {
      source = or_common source;
      threshold = threshold;
      flag = flag;
      consec = pos 0;
    } in
    (b, register_circuit_state source flag w)

-- A nil receiver is `none`.
unfoldable pub tripped : Option ContentStreakBreaker → World → Bool
tripped none w = false
tripped (some b) w = loaded w b.flag

-- `b.flag == nil || b.threshold <= 0`
abbrev pub is_off : ContentStreakBreaker → Bool
is_off b = elim b.flag [ none ↦ true | some p ↦ not (is_positive b.threshold) ]

unfoldable pub observe_signal :
    Option ContentStreakBreaker → Bool → World → Option ContentStreakBreaker × World
observe_signal none signal_bearing w = (none, w)
observe_signal (some b) signal_bearing w =
    if is_off b
    then (some b, w)
    else if signal_bearing
    then (some (record b { consec = pos 0 }), w)
    else (let n = add_one32 b.consec in
        (
          some (record b { consec = n }),
          if leb_ℤ b.threshold n
              then trip_and_warn b.flag b.source
                  "circuit tripped on consecutive empty-content responses"
                  (("consecutive_empty", n) ∷ ("threshold", b.threshold) ∷ []) w
              else w,
        ))

-- A body is its bytes; a nil validator is `none`.
unfoldable pub signal_bearing : List ℕ → Option (List ℕ → Bool) → Bool
signal_bearing body none = ltb 0 (length body)
signal_bearing body (some validator) = validator body

unfoldable pub observe :
    Option ContentStreakBreaker
    → List ℕ
    → Option (List ℕ → Bool)
    → World
    → Option ContentStreakBreaker × World
unfolding observe_signal signal_bearing
observe none body validator w = (none, w)
observe (some b) body validator w =
    if is_off b then (some b, w) else observe_signal (some b) (signal_bearing body validator) w

unfoldable pub consecutive_empty : Option ContentStreakBreaker → ℤ
consecutive_empty none = pos 0
consecutive_empty (some b) = b.consec
