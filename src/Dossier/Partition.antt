-- ===== src/Dossier/Partition.antt =====
-- The readings of a Dossier (gazetteer/dossier.go) side by side.
use gazetteer.Prelude.{
  ◌≡◌, refl, String, Bool, true, false, Option, none, some, [], ◌∷◌, arith, if◌then◌else◌, eq_iff,
  ◌⊎◌,
}
use gazetteer.Prelude.Dict.{Dict, lookup}
use gazetteer.Status.{Status, is_success}
use gazetteer.Dossier.{Dossier, Result, failed_of, failed, ok, get}

abbrev pub is_unset : Status → Bool
is_unset Status.unset = true
is_unset _ = false

module _ {V : Type 0} where
  -- The keys of a Go map are distinct.
  abbrev pub HasDistinctKeys : Dict (Result V) → Type 0
  HasDistinctKeys [] = Unit {0}
  HasDistinctKeys (entry ∷ rest) = (lookup entry.0 rest ≡ none) × HasDistinctKeys rest

  lookup-failed_of :
      (results : Dict (Result V)) (name : String)
      → HasDistinctKeys results
      → lookup name (failed_of results) ≡ elim (lookup name results) [
        | none ↦ none
        | some r ↦ if is_success r.status then none else some r
      ]
  unfolding lookup failed_of
  lookup-failed_of [] name distinct = refl
  lookup-failed_of (entry ∷ rest) name distinct =
      ground (arith, lookup-failed_of rest name distinct.1, eq_iff entry.0 name)

  -- In a dossier with distinct keys, take a Result whose Status is set and whose payload is of
  -- the type that is asked for. Either its Status is no success, Failed lists it and Get does
  -- not return the payload; or its Status is a success, Failed omits it and Get returns it.
  pub get-failed {ℓ} :
      {T : Type ℓ} (as_t : V → Option T) (d : Dossier V) (name : String) (r : Result V) (v : V)
      (value : T)
      → HasDistinctKeys d.results
      → lookup name d.results ≡ some r
      → r.payload ≡ some v
      → as_t v ≡ some value
      → is_unset r.status ≡ false
      → (is_success r.status ≡ false) × (lookup name (failed d) ≡ some r) × (get as_t d name ≡ none)
        ⊎ (is_success r.status ≡ true)
          × (lookup name (failed d) ≡ none)
          × (get as_t d name ≡ some value)
  unfolding failed get
  get-failed as_t d name r v value distinct found payload typed set =
      ground (arith, lookup-failed_of d.results name distinct)

  -- A Result whose Status is the empty string is in both readings: Failed lists it, and Get
  -- returns its payload as if the Source had succeeded; OK does not count it.
  pub get-failed_unset {ℓ} :
      {T : Type ℓ} (as_t : V → Option T) (d : Dossier V) (name : String) (r : Result V) (v : V)
      (value : T)
      → HasDistinctKeys d.results
      → lookup name d.results ≡ some r
      → r.payload ≡ some v
      → as_t v ≡ some value
      → r.status ≡ Status.unset
      → (lookup name (failed d) ≡ some r) × (get as_t d name ≡ some value) × (ok d name ≡ false)
  unfolding failed get ok
  get-failed_unset as_t d name r v value distinct found payload typed unset =
      ground (arith, lookup-failed_of d.results name distinct)
