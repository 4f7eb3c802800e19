-- ===== src/Httpx/Prune/Limits.antt =====
-- What is left and what is counted after a pruning (helpers/httpx/prune.go).
use gazetteer.Prelude.{
  ℕ, zero, suc, ◌+◌, ◌-◌, ◌≤◌, Bool, true, List, [], ◌∷◌, ◌≡◌, refl, sym, length, leb, arith,
}
use gazetteer.Prelude.Int.{ℤ, pos, negsuc}
use gazetteer.Httpx.Prune.{
  PruneEntry, PruneOptions, PruneStats, bytes_of, age_pass, insert_by_age, sort_by_age, size_loop,
  size_pass, prune_cache_dir,
}

-- Nothing is lost: entries and bytes of the survivors and of the removed.
abbrev Splits : List PruneEntry → List PruneEntry → List PruneEntry → Type 0
Splits all kept gone =
    (length kept + length gone ≡ length all) × (bytes_of kept + bytes_of gone ≡ bytes_of all)

age_pass-Splits :
    (now : ℕ) (max_age : ℤ) (es : List PruneEntry)
    → Splits es (age_pass now max_age es).0 (age_pass now max_age es).1
unfolding age_pass
age_pass-Splits now max_age [] = (refl, refl)
age_pass-Splits now max_age (e ∷ es) = ground (arith, age_pass-Splits now max_age es)

insert_by_age-Splits :
    (e : PruneEntry) (es : List PruneEntry)
    → (length (insert_by_age e es) ≡ suc (length es))
      × (bytes_of (insert_by_age e es) ≡ e.bytes + bytes_of es)
unfolding insert_by_age
insert_by_age-Splits e [] = (refl, refl)
insert_by_age-Splits e (f ∷ fs) = ground (arith, insert_by_age-Splits e fs)

sort_by_age-Splits :
    (es : List PruneEntry)
    → (length (sort_by_age es) ≡ length es) × (bytes_of (sort_by_age es) ≡ bytes_of es)
unfolding sort_by_age
sort_by_age-Splits [] = (refl, refl)
sort_by_age-Splits (e ∷ es) =
    ground (arith, sort_by_age-Splits es, insert_by_age-Splits e (sort_by_age es))

-- The total is kept up to date, and the loop ends below the maximum.
size_loop-Splits :
    (max total : ℕ) (es : List PruneEntry)
    → total ≡ bytes_of es
    → Splits es (size_loop max total es).0 (size_loop max total es).1
      × ((size_loop max total es).2 ≡ bytes_of (size_loop max total es).0)
      × ((size_loop max total es).2 ≤ max)
unfolding size_loop
size_loop-Splits max total [] h = ((refl, refl), h, omega (arith, h))
size_loop-Splits max total (e ∷ es) h =
    ground (arith, h, size_loop-Splits max (total - e.bytes) es (omega (arith, h)))

abbrev pub is_within : ℤ → ℕ → Bool
is_within (pos zero) n = true
is_within (pos (suc max)) n = leb n (suc max)
is_within (negsuc max) n = true

size_pass-Splits :
    (max : ℤ) (es : List PruneEntry)
    → Splits es (size_pass max es).0 (size_pass max es).1
      × ((size_pass max es).2 ≡ bytes_of (size_pass max es).0)
      × (is_within max (size_pass max es).2 ≡ true)
unfolding size_pass
size_pass-Splits (pos zero) es = (omega arith, refl, refl)
size_pass-Splits (negsuc n) es = (omega arith, refl, refl)
size_pass-Splits (pos (suc max)) es = ground (
  arith,
  sort_by_age-Splits es,
  size_loop-Splits (suc max) (bytes_of es) (sort_by_age es) (sym (sort_by_age-Splits es).1),
)

abbrev pub AddsUp : ℤ → List PruneEntry → List PruneEntry × List PruneEntry × PruneStats → Type 0
AddsUp max entries r =
    (r.2.removed_entries + r.2.remaining_entries ≡ length entries)
    × (r.2.removed_bytes + r.2.remaining_bytes ≡ bytes_of entries)
    × (r.2.remaining_bytes ≡ bytes_of r.0)
    × (is_within max r.2.remaining_bytes ≡ true)

-- The statistics of a pruning add up: every entry that was scanned is removed or remains, their
-- bytes too, and a cache with a limit on its bytes is within the limit after it.
pub prune_cache_dir-AddsUp :
    (now : ℕ) (o : PruneOptions) (entries : List PruneEntry)
    → AddsUp o.max_bytes entries (prune_cache_dir now o entries)
unfolding prune_cache_dir
prune_cache_dir-AddsUp now o entries =
    let aged = age_pass-Splits now o.max_age entries in
    let sized = size_pass-Splits o.max_bytes (age_pass now o.max_age entries).0 in
    (omega (arith, aged.0, sized.0.0), omega (arith, aged.1, sized.0.1, sized.1), sized.1, sized.2)
