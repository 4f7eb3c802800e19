-- ===== src/Circuit/Content/Streaks.antt =====
-- The counter of ContentStreakBreaker (helpers/circuit/streak.go) against the history of bodies.
use gazetteer.Prelude.{
  ℕ, suc, ◌+◌, ◌≤◌, ◌<◌, String, ◌≡◌, Bool, false, ◌||◌, ◌&&◌, not, Option, some, List, [], ◌∷◌,
  arith, leb, if◌then◌else◌, length,
}
use gazetteer.Prelude.Int.{pos, add_one32-pos, int32_half}
use gazetteer.Prelude.Dict.{lookup}
use gazetteer.Circuit.Registry.{World, or_common, count_of, add_one64}
use gazetteer.Circuit.Registry.Trips.{flags-trip_and_warn, trips-trip_and_warn, log-trip_and_warn}
use gazetteer.Circuit.Content.{ContentStreakBreaker, signal_bearing, observe}

-- The bodies without signal since the last one with it, the latest body first.
abbrev pub empties : (List ℕ → Bool) → List (List ℕ) → ℕ
empties signal [] = 0
empties signal (body ∷ h) = if signal body then 0 else suc (empties signal h)

abbrev pub reached : (List ℕ → Bool) → ℕ → List (List ℕ) → Bool
reached signal k [] = false
reached signal k (body ∷ h) = leb k (empties signal (body ∷ h)) || reached signal k h

empties-le-length : (signal : List ℕ → Bool) (h : List (List ℕ)) → empties signal h ≤ length h
empties-le-length signal [] = omega arith
empties-le-length signal (body ∷ h) = ground (arith, empties-le-length signal h)

module _ (source : String) (p k : ℕ) (validator : Option (List ℕ → Bool)) (w : World) where
  abbrev pub signal : List ℕ → Bool
  signal body = signal_bearing body validator

  abbrev pub current : List (List ℕ) → ContentStreakBreaker
  current h = record {
    source = source;
    threshold = pos (suc k);
    flag = some p;
    consec = pos (empties signal h);
  }

  abbrev pub after : List (List ℕ) → Option ContentStreakBreaker × World
  after [] = (some (current []), w)
  after (body ∷ h) = let (b, v) = after h in observe b body validator v

  abbrev pub flips : List (List ℕ) → Bool
  flips h = reached signal (suc k) h && not (w.flags p)

  -- The flag, the trip counter and the log agree with the history.
  pub record Agrees (h : List (List ℕ)) (v : World) : Type 0 where
    pub flag_state : v.flags p ≡ (w.flags p || reached signal (suc k) h)
    pub counted : count_of (lookup (or_common source) v.trips) ≡ (
        if flips h
        then add_one64 (count_of (lookup (or_common source) w.trips))
        else count_of (lookup (or_common source) w.trips))
    pub warned : length v.log ≡ (if flips h then length w.log + 1 else length w.log)

  abbrev Steps : List ℕ → List (List ℕ) → Option ContentStreakBreaker × World → Type 0
  Steps body h s = (s.0 ≡ some (current (body ∷ h))) × Agrees (body ∷ h) s.1

  observe-Steps :
      (body : List ℕ) (h : List (List ℕ)) (v : World)
      → length h + 1 < int32_half
      → Agrees h v
      → Steps body h (observe (some (current h)) body validator v)
  unfolding observe
  observe-Steps body h v short a =
      rw (add_one32-pos (empties signal h) (omega (arith, empties-le-length signal h))) (
        ground (
          arith,
          flags-trip_and_warn p source "circuit tripped on consecutive empty-content responses"
              (("consecutive_empty", pos (empties signal h + 1)) ∷ ("threshold", pos (suc k)) ∷ [])
              v p,
          trips-trip_and_warn p source "circuit tripped on consecutive empty-content responses"
              (("consecutive_empty", pos (empties signal h + 1)) ∷ ("threshold", pos (suc k)) ∷ [])
              v,
          log-trip_and_warn p source "circuit tripped on consecutive empty-content responses"
              (("consecutive_empty", pos (empties signal h + 1)) ∷ ("threshold", pos (suc k)) ∷ [])
              v,
        ))

  -- Whatever the bodies, up to 2 ^ 31 of them: a breaker with a positive threshold counts the
  -- bodies without signal since the last one with signal, its flag is set exactly if it was set
  -- before or that count ever reached the threshold, and on that flip alone the trip counter of
  -- the source goes up by one and one line is logged.
  pub observe-Agrees :
      (h : List (List ℕ))
      → length h < int32_half
      → ((after h).0 ≡ some (current h)) × Agrees h (after h).1
  observe-Agrees [] short = ground arith
  observe-Agrees (body ∷ h) short =
      let (same, agrees) = observe-Agrees h (omega arith) in
      rw same (observe-Steps body h (after h).1 (omega arith) agrees)
