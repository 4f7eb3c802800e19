-- ===== src/Dvf/Matcher/Cap.antt =====
-- sources/dvf/matcher.go: capPerParcelle.
use gazetteer.Prelude.{ℕ, suc, ◌+◌, ◌≤◌, Bool, true, List, [], ◌∷◌, ◌≡◌, arith, ap}
use gazetteer.Prelude.Bytes.{bytes_eq, bytes_eq→≡, is_blank}
use gazetteer.Dvf.Matcher.{Mutation, cap_from, cap_per_parcelle, count_parcel}

count_parcel-same :
    (q p : List ℕ) (seen : List (List ℕ))
    → bytes_eq q p ≡ true
    → count_parcel q seen ≡ count_parcel p seen
count_parcel-same q p seen h = ap (λ r. count_parcel r seen) (bytes_eq→≡ q p h)

is_blank-same : (q p : List ℕ) → bytes_eq q p ≡ true → is_blank q ≡ is_blank p
is_blank-same q p h = ap is_blank (bytes_eq→≡ q p h)

module _ {Float : Type 0} where
  abbrev pub parcels : List (Mutation Float) → List (List ℕ)
  parcels [] = []
  parcels (m ∷ ms) = m.id_parcelle ∷ parcels ms

  cap_from-bounded :
      (p : List ℕ) (max : ℕ) (seen : List (List ℕ)) (ms : List (Mutation Float))
      → is_blank p ≡ Bool.false
      → count_parcel p seen ≤ max
      → count_parcel p (parcels (cap_from max seen ms)) + count_parcel p seen ≤ max
  unfolding cap_from count_parcel
  cap_from-bounded p max seen [] b h = omega (arith, h)
  cap_from-bounded p max seen (m ∷ ms) b h = ground (
    arith,
    h,
    b,
    cap_from-bounded p max seen ms b,
    cap_from-bounded p max (m.id_parcelle ∷ seen) ms b,
    count_parcel-same m.id_parcelle p seen,
    is_blank-same m.id_parcelle p,
  )

  -- Of one parcel that has an id at most so many rows survive the cap.
  pub cap_per_parcelle-bounded :
      (p : List ℕ) (max : ℕ) (ms : List (Mutation Float))
      → is_blank p ≡ Bool.false
      → count_parcel p (parcels (cap_per_parcelle (suc max) ms)) ≤ suc max
  unfolding cap_per_parcelle count_parcel
  cap_per_parcelle-bounded p max ms b =
      omega (arith, cap_from-bounded p (suc max) [] ms b (omega arith))
