-- ===== src/Dvf/Matcher/Cohort.antt =====
-- sources/dvf/matcher.go: what FilterMutations leaves in the cohort.
use gazetteer.Prelude.{ℕ, zero, suc, ◌≤◌, Bool, true, List, [], ◌∷◌, ◌≡◌, refl, arith}
use gazetteer.Prelude.Bytes.{is_blank}
use gazetteer.Floats.{Floats}
use gazetteer.Dvf.Matcher.{
  Mutation, Texts, Window, built_from, cap_from, cap_per_parcelle, count_parcel, filter_from,
  filter_mutations, max_mutations_per_parcelle,
}
use gazetteer.Dvf.Matcher.Cap.{cap_per_parcelle-bounded, parcels}
use gazetteer.Dvf.Matcher.OnePrice.{
  are_built, are_single, built_from-covers, filter_from-are_single, is_absent,
}

module _ (F : Floats) (t : Texts F.Float) where
  cap_from-is_absent :
      (s : List ℕ) (max : ℕ) (seen : List (List ℕ)) (ms : List (Mutation F.Float))
      → is_absent F t s ms ≡ true
      → is_absent F t s (cap_from max seen ms) ≡ true
  unfolding cap_from
  cap_from-is_absent s max seen [] h = refl
  cap_from-is_absent s max seen (m ∷ ms) h = ground (
    arith,
    h,
    cap_from-is_absent s max seen ms,
    cap_from-is_absent s max (m.id_parcelle ∷ seen) ms,
  )

  cap_from-are_single :
      (max : ℕ) (seen : List (List ℕ)) (ms : List (Mutation F.Float))
      → are_single F t ms ≡ true
      → are_single F t (cap_from max seen ms) ≡ true
  unfolding cap_from
  cap_from-are_single max seen [] h = refl
  cap_from-are_single max seen (m ∷ ms) h = ground (
    arith,
    h,
    cap_from-are_single max seen ms,
    cap_from-are_single max (m.id_parcelle ∷ seen) ms,
    cap_from-is_absent m.id_mutation max seen ms,
    cap_from-is_absent m.id_mutation max (m.id_parcelle ∷ seen) ms,
  )

  cap_per_parcelle-are_single :
      (max : ℕ) (ms : List (Mutation F.Float))
      → are_single F t ms ≡ true
      → are_single F t (cap_per_parcelle max ms) ≡ true
  unfolding cap_per_parcelle
  cap_per_parcelle-are_single zero ms h = h
  cap_per_parcelle-are_single (suc max) ms h = cap_from-are_single (suc max) [] ms h

  -- Where every row of the target's type is a built local: no sale enters the cohort twice,
  -- however many rows and locals it has, and no parcel more than four times. Rows without an id
  -- of a sale, or of a parcel, are not grouped.
  pub filter_mutations-are_single :
      (rows : List (Mutation F.Float)) (target : List ℕ) (w : Window) (p : List ℕ)
      → are_built F t target rows ≡ true
      → is_blank p ≡ Bool.false
      → (are_single F t (filter_mutations F t rows target w) ≡ true)
        × (count_parcel p (parcels (filter_mutations F t rows target w)) ≤ 4)
  unfolding filter_mutations
  filter_mutations-are_single rows target w p i b =
      let built = built_from F t 0 rows [] in
      let kept = filter_from F t built target w 0 rows [] in
      (
        cap_per_parcelle-are_single max_mutations_per_parcelle kept (
            filter_from-are_single F t built target w 0 rows [] (built_from-covers F t 0 rows [])
              i),
        cap_per_parcelle-bounded p 3 kept b,
      )
