-- ===== src/Httpx/Prune.antt =====
-- helpers/httpx/prune.go: pruneCacheDir past the scan of the directory. Removing a file never
-- fails for the caller, so the pass is a function of the entries that were found.
pub mod Limits
pub mod Order
use gazetteer.Prelude.{
  ℕ, zero, suc, ◌+◌, ◌-◌, String, Bool, true, false, ◌||◌, ◌&&◌, not, List, [], ◌∷◌, ◌++◌, length,
  ltb, leb, if◌then◌else◌,
}
use gazetteer.Prelude.Int.{ℤ, pos, negsuc}

pub record PruneEntry : Type 0 where
  pub path : String
  pub bytes : ℕ
  pub fetched_at : ℕ
  pub broken : Bool

pub record PruneOptions : Type 0 where
  pub max_age : ℤ
  pub max_bytes : ℤ

pub record PruneStats : Type 0 where
  pub scanned_entries : ℕ
  pub removed_entries : ℕ
  pub removed_bytes : ℕ
  pub remaining_entries : ℕ
  pub remaining_bytes : ℕ

abbrev pub bytes_of : List PruneEntry → ℕ
bytes_of [] = 0
bytes_of (e ∷ es) = e.bytes + bytes_of es

-- A limit that is not positive is off.
abbrev pub is_old : ℕ → ℤ → PruneEntry → Bool
is_old now (pos zero) e = false
is_old now (pos (suc age)) e = ltb (e.fetched_at + suc age) now
is_old now (negsuc n) e = false

abbrev pub is_dropped : ℕ → ℤ → PruneEntry → Bool
is_dropped now max_age e = e.broken || is_old now max_age e

-- The loop over the entries: the survivors and the removed, in their order.
unfoldable pub age_pass : ℕ → ℤ → List PruneEntry → List PruneEntry × List PruneEntry
age_pass now max_age [] = ([], [])
age_pass now max_age (e ∷ es) =
    let r = age_pass now max_age es in
    if is_dropped now max_age e then (r.0, e ∷ r.1) else (e ∷ r.0, r.1)

-- `slices.SortFunc` by the time of the fetch; the order of equal times is its own.
unfoldable pub insert_by_age : PruneEntry → List PruneEntry → List PruneEntry
insert_by_age e [] = e ∷ []
insert_by_age e (f ∷ fs) =
    let rest = insert_by_age e fs in if leb e.fetched_at f.fetched_at then e ∷ f ∷ fs else f ∷ rest

unfoldable pub sort_by_age : List PruneEntry → List PruneEntry
unfolding insert_by_age
sort_by_age [] = []
sort_by_age (e ∷ es) = insert_by_age e (sort_by_age es)

-- What the size pass leaves: the survivors, the removed, and the total.
unfoldable pub size_loop : ℕ → ℕ → List PruneEntry → List PruneEntry × List PruneEntry × ℕ
size_loop max total [] = ([], [], total)
size_loop max total (e ∷ es) =
    let r = size_loop max (total - e.bytes) es in
    if leb total max then (e ∷ es, [], total) else (r.0, e ∷ r.1, r.2)

unfoldable pub size_pass : ℤ → List PruneEntry → List PruneEntry × List PruneEntry × ℕ
unfolding size_loop sort_by_age
size_pass (pos zero) es = (es, [], bytes_of es)
size_pass (pos (suc max)) es =
    if ltb (suc max) (bytes_of es)
    then size_loop (suc max) (bytes_of es) (sort_by_age es)
    else (es, [], bytes_of es)
size_pass (negsuc n) es = (es, [], bytes_of es)

-- pruneCacheDir: the entries that survive, those removed, and the statistics.
unfoldable pub prune_cache_dir :
    ℕ → PruneOptions → List PruneEntry → List PruneEntry × List PruneEntry × PruneStats
unfolding age_pass size_pass
prune_cache_dir now o entries =
    let aged = age_pass now o.max_age entries in
    let sized = size_pass o.max_bytes aged.0 in
    (
      sized.0,
      aged.1 ++ sized.1,
      record {
        scanned_entries = length entries;
        removed_entries = length aged.1 + length sized.1;
        removed_bytes = bytes_of aged.1 + bytes_of sized.1;
        remaining_entries = length sized.0;
        remaining_bytes = sized.2;
      },
    )
