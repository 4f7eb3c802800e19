-- ===== src/Circuit/Transport/History.antt =====
-- The history of outcomes that a TransportCircuit (helpers/circuit/circuit.go) has observed, and
-- the state that it calls for.
use gazetteer.Prelude.{
  ℕ, suc, ◌+◌, ◌≤◌, ◌<◌, String, ◌≡◌, Bool, false, ◌||◌, ◌&&◌, not, Option, none, some, List, [],
  ◌∷◌, arith, ltb, leb, if◌then◌else◌, length,
}
use gazetteer.Prelude.Int.{pos}
use gazetteer.Prelude.Dict.{lookup}
use gazetteer.Errors.{Err}
use gazetteer.Circuit.Registry.{World, or_common, count_of, add_one64}
use gazetteer.Circuit.Classify.{is_transport_or_deadline_err, err_is_429}
use gazetteer.Circuit.Transport.{TransportCircuit, observe_outcome}

-- A history holds the outcomes that were observed, the latest first; `none` is a success.
abbrev pub History : Type 0
History = List (Option Err)

-- The failures of a kind since the last success.
abbrev pub failures : (Err → Bool) → History → ℕ
failures p [] = 0
failures p (none ∷ h) = 0
failures p (some e ∷ h) = if p e then suc (failures p h) else failures p h

-- Did the failures of a kind ever reach `k` with no success between them?
abbrev pub reached : (Err → Bool) → ℕ → History → Bool
reached p k [] = false
reached p k (x ∷ h) = leb k (failures p (x ∷ h)) || reached p k h

pub failures-le-length : (p : Err → Bool) (h : History) → failures p h ≤ length h
failures-le-length p [] = omega arith
failures-le-length p (none ∷ h) = omega arith
failures-le-length p (some e ∷ h) = ground (arith, failures-le-length p h)

-- An outcome of another kind reaches nothing new.
pub reached-same :
    (p : Err → Bool) (k : ℕ) (h : History)
    → 0 < k
    → (leb k (failures p h) || reached p k h) ≡ reached p k h
reached-same p k [] h = ground arith
reached-same p k (x ∷ r) h = ground arith

abbrev pub is_transport : Err → Bool
is_transport e = is_transport_or_deadline_err (some e)

-- A 429 that is no transport failure: the switch takes its first case that holds.
abbrev pub is_quota : Err → Bool
is_quota e = not (is_transport_or_deadline_err (some e)) && err_is_429 (some e)

abbrev pub replay : TransportCircuit × World → History → TransportCircuit × World
replay s [] = s
replay s (x ∷ h) = let (t, w) = replay s h in observe_outcome t x w

-- A breaker over the flag at `p` with thresholds `k` and `m`, where 0 switches a counter off.
abbrev pub armed : String → ℕ → ℕ → ℕ → TransportCircuit
armed source p k m = record {
  source = source;
  threshold = pos k;
  flag = some p;
  consec = pos 0;
  max429 = pos m;
  consec429 = pos 0;
}

module _ (source : String) (p k m : ℕ) (w : World) where
  abbrev pub after : History → TransportCircuit × World
  after h = replay (armed source p k m, w) h

  abbrev pub has_tripped : History → Bool
  has_tripped h =
      w.flags p || ((ltb 0 k && reached is_transport k h) || (ltb 0 m && reached is_quota m h))

  -- The breaker with the counters that the history calls for.
  abbrev pub current : History → TransportCircuit
  current h = record (armed source p k m) {
    consec = pos (if ltb 0 k then failures is_transport h else 0);
    consec429 = pos (if ltb 0 m then failures is_quota h else 0);
  }

  abbrev pub flips : History → Bool
  flips h = has_tripped h && not (w.flags p)

  -- The flag, the trip counter and the log agree with the history.
  pub record Agrees (h : History) (v : World) : Type 0 where
    pub flag_state : v.flags p ≡ has_tripped h
    pub counted : count_of (lookup (or_common source) v.trips) ≡ (
        if flips h
        then add_one64 (count_of (lookup (or_common source) w.trips))
        else count_of (lookup (or_common source) w.trips))
    pub warned : length v.log ≡ (if flips h then length w.log + 1 else length w.log)

  abbrev pub Steps : Option Err → History → TransportCircuit × World → Type 0
  Steps x h s = (s.0 ≡ current (x ∷ h)) × Agrees (x ∷ h) s.1
