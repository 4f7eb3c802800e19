-- ===== src/Prelude/Dict.antt =====
-- Go's `map[string]V` and `sync.Map` with string keys, as association lists.
use text.Mathlib.TextPositions.{eq_refl}
use gazetteer.Prelude.Tests.{if◌then◌else◌}
use native.Mathlib.Omega.{arith}
use mathlib.Core.Path.{◌≡◌, refl}
use mathlib.Core.Option.{Option, none, some}
use mathlib.Core.List.{List, [], ◌∷◌}
use Prim.Native.String.{String}
use text.Mathlib.Text.{◌==◌}
use text.Mathlib.TextEquality.{eq_iff}

abbrev pub Dict {ℓ} : Type ℓ → Type ℓ
Dict V = List (String × V)

module _ {ℓ} {V : Type ℓ} where
  unfoldable pub lookup : String → Dict V → Option V
  lookup key [] = none
  lookup key (entry ∷ dict) = if entry.0 == key then some entry.1 else lookup key dict

  -- An entry of the key is replaced where it stands, and else one is added at the end.
  unfoldable pub insert : String → V → Dict V → Dict V
  insert key value [] = (key, value) ∷ []
  insert key value (entry ∷ dict) =
      if entry.0 == key then (key, value) ∷ dict else entry ∷ insert key value dict

  unfoldable pub delete : String → Dict V → Dict V
  delete key [] = []
  delete key (entry ∷ dict) =
      let kept = delete key dict in if entry.0 == key then kept else entry ∷ kept

  pub lookup-nil : (key : String) → lookup key [] ≡ none
  unfolding lookup
  lookup-nil key = refl

  pub lookup-insert :
      (dict : Dict V) (key other : String) (value : V)
      → lookup other (insert key value dict)
        ≡ (if key == other then some value else lookup other dict)
  unfolding lookup insert
  lookup-insert [] key other value = refl
  lookup-insert (entry ∷ dict) key other value = ground (
    arith,
    lookup-insert dict key other value,
    eq_iff entry.0 key,
    eq_iff entry.0 other,
    eq_iff key other,
  )

  pub lookup-insert_self :
      (key : String) (value : V) (dict : Dict V) → lookup key (insert key value dict) ≡ some value
  lookup-insert_self key value dict = simp (lookup-insert, eq_refl)

  pub lookup-delete :
      (dict : Dict V) (key other : String)
      → lookup other (delete key dict) ≡ (if key == other then none else lookup other dict)
  unfolding lookup delete
  lookup-delete [] key other = ground arith
  lookup-delete (entry ∷ dict) key other = ground (
    arith,
    lookup-delete dict key other,
    eq_iff entry.0 key,
    eq_iff entry.0 other,
    eq_iff key other,
  )
