-- ===== src/Tests/PruneTests.antt =====
-- A pruning of a small cache directory.
use gazetteer.Prelude.{ℕ, String, true, false, List, [], ◌∷◌, ◌≡◌, refl, All}
use gazetteer.Prelude.Int.{pos}
use gazetteer.Httpx.Prune.{
  PruneEntry, PruneOptions, prune_cache_dir, is_dropped, size_pass, age_pass,
}
use gazetteer.Httpx.Prune.Limits.{AddsUp, prune_cache_dir-AddsUp}
use gazetteer.Httpx.Prune.Order.{AreOlder, prune_cache_dir-AreOlder}

abbrev cached : String → ℕ → ℕ → PruneEntry
cached path bytes fetched_at = record {
  path = path;
  bytes = bytes;
  fetched_at = fetched_at;
  broken = false;
}

abbrev half_written : PruneEntry
half_written = record { path = "3f/aa"; bytes = 4; fetched_at = 0; broken = true }

abbrev entries : List PruneEntry
entries = cached "00/ab" 30 95 ∷ half_written ∷ cached "17/cd" 20 40 ∷ cached "29/ef" 25 80 ∷ []

abbrev limits : PruneOptions
limits = record { max_age = pos 50; max_bytes = pos 40 }

test_prune_cache_dir : prune_cache_dir 100 limits entries ≡ (
  cached "00/ab" 30 95 ∷ [],
  half_written ∷ cached "17/cd" 20 40 ∷ cached "29/ef" 25 80 ∷ [],
  record {
    scanned_entries = 4;
    removed_entries = 3;
    removed_bytes = 49;
    remaining_entries = 1;
    remaining_bytes = 30;
  },
)
unfolding prune_cache_dir
test_prune_cache_dir = refl

prune_cache_dir-AddsUp_example : AddsUp (pos 40) entries (prune_cache_dir 100 limits entries)
prune_cache_dir-AddsUp_example = prune_cache_dir-AddsUp 100 limits entries

prune_cache_dir-AreOlder_example :
    All (λ e. is_dropped 100 (pos 50) e ≡ false) (prune_cache_dir 100 limits entries).0
    × AreOlder
        (size_pass (pos 40) (age_pass 100 (pos 50) entries).0).1
        (prune_cache_dir 100 limits entries).0
prune_cache_dir-AreOlder_example = prune_cache_dir-AreOlder 100 limits entries
