-- ===== src/Dossier.antt =====
-- gazetteer/result.go and gazetteer/dossier.go. A value of Go's type `any` is of a type `V`; which
-- methods its dynamic type has, and what they return, is in `Methods`.
pub mod Partition
pub mod Wire
pub mod RoundTrip
use gazetteer.Prelude.{
  ℕ, zero, suc, String, Bool, true, false, ◌&&◌, not, Option, none, some, List, [], ◌∷◌, length,
  str_eq, if◌then◌else◌,
}
use gazetteer.Prelude.Dict.{Dict, lookup, insert}
use gazetteer.Errors.{Err}
use gazetteer.Status.{Status, is_success}

-- A call of a method returns or panics.
pub data Call {ℓ} (A : Type ℓ) : Type ℓ where
  answers : A → Call A
  panics : String → Call A

-- `none` where the type does not implement the interface. `evidence_field` is what reflection
-- finds: the exported, non-zero field Evidence of a struct or of a non-nil pointer to one.
pub record Methods (V : Type 0) : Type 0 where
  pub is_empty : V → Option (Call Bool)
  pub evidence : V → Option (Call (Option V))
  pub evidence_field : V → Option V

-- After a JSON round trip the evidence is raw bytes.
pub data Evidence (V : Type 0) : Type 0 where
  typed : V → Evidence V
  raw : List ℕ → Evidence V

-- Times are in nanoseconds but for `elapsed_ms`. `payload` is the field Data.
pub record Result (V : Type 0) : Type 0 where
  pub name : String
  pub version : ℕ
  pub status : Status
  pub fetched_at : ℕ
  pub elapsed_ms : ℕ
  pub err : Option Err
  pub payload : Option V
  pub evidence : Option (Evidence V)

pub record Dossier (V : Type 0) : Type 0 where
  pub results : Dict (Result V)
  pub started_at : ℕ
  pub finished_at : ℕ

abbrev pub is_ok : Status → Bool
is_ok Status.ok = true
is_ok _ = false

-- The statuses that Get lets through.
abbrev pub is_readable : Status → Bool
is_readable Status.unset = true
is_readable Status.ok = true
is_readable Status.ok_empty = true
is_readable _ = false

module _ {V : Type 0} where
  -- The method OK.
  unfoldable pub ok : Dossier V → String → Bool
  ok d name = elim (lookup name d.results) [ none ↦ false | some r ↦ is_ok r.status ]

  unfoldable pub failed_of : Dict (Result V) → Dict (Result V)
  failed_of [] = []
  failed_of (entry ∷ rest) =
      let out = failed_of rest in if is_success entry.1.status then out else entry ∷ out

  -- The method Failed.
  unfoldable pub failed : Dossier V → Dict (Result V)
  unfolding failed_of
  failed d = failed_of d.results

  -- `Get[T]`: the type assertion of the payload to T is `as_t`.
  unfoldable pub get {ℓ} : {T : Type ℓ} → (V → Option T) → Dossier V → String → Option T
  get as_t d name = elim (lookup name d.results) [
    | none ↦ none
    | some r ↦
        if is_readable r.status then elim r.payload [ none ↦ none | some v ↦ as_t v ] else none
  ]

  -- The method IsEmpty of a Result; a panic of the payload's own IsEmpty is passed on.
  unfoldable pub is_empty : Methods V → Result V → Call Bool
  is_empty ms r = elim r.payload [
    | none ↦ answers false
    | some v ↦ elim (ms.is_empty v) [ none ↦ answers false | some c ↦ c ]
  ]
