-- ===== src/Httpx/Prune/Order.antt =====
-- Which entries a pruning (helpers/httpx/prune.go) leaves.
use gazetteer.Prelude.{
  ℕ, zero, suc, ◌-◌, ◌≤◌, false, List, [], ◌∷◌, ◌≡◌, ltb, leb, arith, All, All-map, leb→le,
  if-cases,
}
use gazetteer.Prelude.Int.{ℤ, pos, negsuc}
use gazetteer.Httpx.Prune.{
  PruneEntry, PruneOptions, bytes_of, is_dropped, age_pass, insert_by_age, sort_by_age, size_loop,
  size_pass, prune_cache_dir,
}

age_pass-All :
    (now : ℕ) (max_age : ℤ) (es : List PruneEntry)
    → All (λ e. is_dropped now max_age e ≡ false) (age_pass now max_age es).0
unfolding age_pass
age_pass-All now max_age [] = tt
age_pass-All now max_age (e ∷ es) =
    if-cases
      (λ (r : List PruneEntry × List PruneEntry). All (λ f. is_dropped now max_age f ≡ false) r.0)
      (is_dropped now max_age e) ((age_pass now max_age es).0, e ∷ (age_pass now max_age es).1)
      (e ∷ (age_pass now max_age es).0, (age_pass now max_age es).1)
      (λ _. age_pass-All now max_age es) (λ kept. (kept, age_pass-All now max_age es))

module _ {ℓ} (P : PruneEntry → Type ℓ) where
  insert_by_age-All :
      (e : PruneEntry) (es : List PruneEntry) → P e → All P es → All P (insert_by_age e es)
  unfolding insert_by_age
  insert_by_age-All e [] h all = (h, tt)
  insert_by_age-All e (f ∷ fs) h all =
      if-cases (All P) (leb e.fetched_at f.fetched_at) (e ∷ f ∷ fs) (f ∷ insert_by_age e fs)
        (λ _. (h, all)) (λ _. (all.0, insert_by_age-All e fs h all.1))

  sort_by_age-All : (es : List PruneEntry) → All P es → All P (sort_by_age es)
  unfolding sort_by_age
  sort_by_age-All [] all = tt
  sort_by_age-All (e ∷ es) all =
      insert_by_age-All e (sort_by_age es) all.0 (sort_by_age-All es all.1)

  size_loop-All :
      (max total : ℕ) (es : List PruneEntry) → All P es → All P (size_loop max total es).0
  unfolding size_loop
  size_loop-All max total [] all = tt
  size_loop-All max total (e ∷ es) all =
      let r = size_loop max (total - e.bytes) es in
      if-cases (λ (r : List PruneEntry × List PruneEntry × ℕ). All P r.0) (leb total max)
        (e ∷ es, [], total) (r.0, e ∷ r.1, r.2) (λ _. all)
        (λ _. size_loop-All max (total - e.bytes) es all.1)

  size_pass-All : (max : ℤ) (es : List PruneEntry) → All P es → All P (size_pass max es).0
  unfolding size_pass
  size_pass-All (pos zero) es all = all
  size_pass-All (negsuc n) es all = all
  size_pass-All (pos (suc max)) es all =
      if-cases (λ (r : List PruneEntry × List PruneEntry × ℕ). All P r.0)
        (ltb (suc max) (bytes_of es)) (size_loop (suc max) (bytes_of es) (sort_by_age es))
        (es, [], bytes_of es)
        (λ _. size_loop-All (suc max) (bytes_of es) (sort_by_age es) (sort_by_age-All es all))
        (λ _. all)

-- Fetched no later than.
abbrev pub IsOlder : PruneEntry → PruneEntry → Type 0
IsOlder e f = e.fetched_at ≤ f.fetched_at

abbrev AreSorted : List PruneEntry → Type 0
AreSorted [] = Unit {0}
AreSorted (e ∷ es) = All (IsOlder e) es × AreSorted es

insert_by_age-AreSorted :
    (e : PruneEntry) (es : List PruneEntry) → AreSorted es → AreSorted (insert_by_age e es)
unfolding insert_by_age
insert_by_age-AreSorted e [] h = (tt, tt)
insert_by_age-AreSorted e (f ∷ fs) h =
    if-cases AreSorted (leb e.fetched_at f.fetched_at) (e ∷ f ∷ fs) (f ∷ insert_by_age e fs)
      (λ le. (
        (
          ground (arith, le),
          All-map (λ g older. omega (arith, older, leb→le e.fetched_at f.fetched_at le)) fs h.0,
        ),
        h,
      ))
      (λ gt. (
        insert_by_age-All (IsOlder f) e fs (ground (arith, gt)) h.0,
        insert_by_age-AreSorted e fs h.1,
      ))

sort_by_age-AreSorted : (es : List PruneEntry) → AreSorted (sort_by_age es)
unfolding sort_by_age
sort_by_age-AreSorted [] = tt
sort_by_age-AreSorted (e ∷ es) =
    insert_by_age-AreSorted e (sort_by_age es) (sort_by_age-AreSorted es)

abbrev pub AreOlder : List PruneEntry → List PruneEntry → Type 0
AreOlder gone kept = All (λ g. All (IsOlder g) kept) gone

size_loop-AreOlder :
    (max total : ℕ) (es : List PruneEntry)
    → AreSorted es
    → AreOlder (size_loop max total es).1 (size_loop max total es).0
unfolding size_loop
size_loop-AreOlder max total [] h = tt
size_loop-AreOlder max total (e ∷ es) h =
    let r = size_loop max (total - e.bytes) es in
    if-cases (λ (r : List PruneEntry × List PruneEntry × ℕ). AreOlder r.1 r.0) (leb total max)
      (e ∷ es, [], total) (r.0, e ∷ r.1, r.2) (λ _. tt)
      (λ _. (
        size_loop-All (IsOlder e) max (total - e.bytes) es h.0,
        size_loop-AreOlder max (total - e.bytes) es h.1,
      ))

size_pass-AreOlder :
    (max : ℤ) (es : List PruneEntry) → AreOlder (size_pass max es).1 (size_pass max es).0
unfolding size_pass
size_pass-AreOlder (pos zero) es = tt
size_pass-AreOlder (negsuc n) es = tt
size_pass-AreOlder (pos (suc max)) es =
    if-cases (λ (r : List PruneEntry × List PruneEntry × ℕ). AreOlder r.1 r.0)
      (ltb (suc max) (bytes_of es)) (size_loop (suc max) (bytes_of es) (sort_by_age es))
      (es, [], bytes_of es)
      (λ _. size_loop-AreOlder (suc max) (bytes_of es) (sort_by_age es) (sort_by_age-AreSorted es))
      (λ _. tt)

-- No entry that remains is broken or older than the maximal age, and what the limit on the bytes
-- removed was fetched no later than anything that remains.
pub prune_cache_dir-AreOlder :
    (now : ℕ) (o : PruneOptions) (entries : List PruneEntry)
    → All (λ e. is_dropped now o.max_age e ≡ false) (prune_cache_dir now o entries).0
      × AreOlder
          (size_pass o.max_bytes (age_pass now o.max_age entries).0).1
          (prune_cache_dir now o entries).0
unfolding prune_cache_dir
prune_cache_dir-AreOlder now o entries =
    let aged = (age_pass now o.max_age entries).0 in
    (
      size_pass-All (λ e. is_dropped now o.max_age e ≡ false) o.max_bytes aged
          (age_pass-All now o.max_age entries),
      size_pass-AreOlder o.max_bytes aged,
    )
