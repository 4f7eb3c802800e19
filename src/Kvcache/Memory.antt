-- ===== src/Kvcache/Memory.antt =====
-- The memcache (helpers/kvcache/memcache/memcache.go) as a kvcache.Cache. It never fails.
use gazetteer.Prelude.{
  ℕ, zero, suc, ◌+◌, String, Bool, true, ◌&&◌, ◌||◌, not, Option, none, some, List, [], ◌∷◌, ◌≡◌,
  refl, ap, arith, length, if-cases, Option-elim, AllSome, subst,
}
use gazetteer.Prelude.Names.{holds}
use gazetteer.Prelude.Int.{ℤ, is_positive}
use gazetteer.Memcache.{
  Entry, Cache, remove, sweep, delete_expired, evict, make_room, set, get, back, row, drop_row,
  to_front, stamped, has_room, new,
}
use gazetteer.Memcache.Recency.{get-set}
use gazetteer.Kvcache.{KvCache, IsLawful, Read, found, missing}

abbrev read_of : Option Entry → Read
read_of none = missing
read_of (some e) = found e

abbrev pub memory : KvCache
memory = record {
  State = Cache;
  get = λ k c. (read_of (get k c).0, (get k c).1);
  set = λ now e c. (none, set now e c);
}

module _ (p : Entry → Bool) where
  abbrev all_pass : List Entry → Bool
  all_pass [] = true
  all_pass (e ∷ es) = p e && all_pass es

  all_pass-drop_row :
      (k : String) (es : List Entry) → all_pass es ≡ true → all_pass (drop_row k es) ≡ true
  unfolding drop_row
  all_pass-drop_row k [] h = refl
  all_pass-drop_row k (e ∷ es) h = ground (arith, h, all_pass-drop_row k es)

  all_pass-row :
      (k : String) (es : List Entry) → all_pass es ≡ true → AllSome (λ e. p e ≡ true) (row k es)
  unfolding row
  all_pass-row k [] h = tt
  all_pass-row k (e ∷ es) h = ground (arith, h, all_pass-row k es)

  all_pass-sweep :
      (now : ℕ) (es : List Entry) (c : Cache) (n : ℕ)
      → all_pass c.lru ≡ true
      → all_pass (sweep now es c n).0.lru ≡ true
  unfolding sweep remove
  all_pass-sweep now [] c n h = h
  all_pass-sweep now (e ∷ es) c n h = ground (
    arith,
    h,
    all_pass-sweep now es (remove e c) (n + 1) (all_pass-drop_row e.key c.lru h),
    all_pass-sweep now es c n h,
  )

  all_pass-evict :
      (fuel : ℕ) (c : Cache) → all_pass c.lru ≡ true → all_pass (evict fuel c).lru ≡ true
  unfolding evict remove
  all_pass-evict zero c h = h
  all_pass-evict (suc fuel) c h =
      if-cases (λ (d : Cache). all_pass d.lru ≡ true) (has_room c) _ _ (λ _. h)
        (λ _.
          Option-elim (λ (d : Cache). all_pass d.lru ≡ true) (back c.lru) _ _ (λ _. h)
            (λ e _. all_pass-evict fuel (remove e c) (all_pass-drop_row e.key c.lru h)))

  all_pass-make_room :
      (now : ℕ) (c : Cache) → all_pass c.lru ≡ true → all_pass (make_room now c).lru ≡ true
  unfolding make_room delete_expired
  all_pass-make_room now c h =
      if-cases (λ (d : Cache). all_pass d.lru ≡ true) (not (is_positive c.max) || has_room c) _ _
        (λ _. h)
        (λ _.
          all_pass-evict (length (sweep now c.lru c 0).0.lru) _ (all_pass-sweep now c.lru c 0 h))

  all_pass-set :
      (now : ℕ) (e : Entry) (c : Cache)
      → p (stamped now e) ≡ true
      → all_pass c.lru ≡ true
      → all_pass (set now e c).lru ≡ true
  unfolding set
  all_pass-set now e c q h =
      ground
        (arith, q, h, all_pass-drop_row (stamped now e).key c.lru h, all_pass-make_room now c h)

  abbrev Passes : Option Entry × Cache → Type 0
  Passes r = AllSome (λ e. p e ≡ true) r.0 × (all_pass r.1.lru ≡ true)

  hit-Passes :
      (e : Entry) (c : Cache) → p e ≡ true → all_pass c.lru ≡ true → Passes (some e, to_front e c)
  hit-Passes e c q h = (q, ground (arith, q, all_pass-drop_row e.key c.lru h))

  get-Passes : (k : String) (c : Cache) → all_pass c.lru ≡ true → Passes (get k c)
  unfolding get
  get-Passes k c h =
      if-cases Passes (holds k c.m) _ _
        (λ _.
          Option-elim Passes (row k c.lru) _ _ (λ _. (tt, h))
            (λ e r.
              hit-Passes e c (subst (AllSome (λ e. p e ≡ true)) r (all_pass-row k c.lru h)) h))
        (λ _. (tt, h))

  found-passes :
      (o : Option Entry) (e : Entry)
      → AllSome (λ e. p e ≡ true) o
      → read_of o ≡ found e
      → p e ≡ true
  found-passes none e h f = ground (arith, f)
  found-passes (some d) e h f = ground (arith, f, h)

-- The memcache is a lawful cache.
pub memory-IsLawful : IsLawful memory
memory-IsLawful = record {
  AllRows = λ p c. all_pass p c.lru ≡ true;
  get-found = λ p k c e h f. found-passes p (get k c).0 e (get-Passes p k c h).0 f;
  get-AllRows = λ p k c h. (get-Passes p k c h).1;
  set-AllRows = λ p now e c q h. all_pass-set p now e c q h;
  get-set = λ now e c _. ap read_of (get-set now e c);
}

-- A new memcache has no rows.
pub new-AllRows : (p : Entry → Bool) (max : Option ℤ) → memory-IsLawful.AllRows p (new max)
unfolding memory-IsLawful new
new-AllRows p none = refl
new-AllRows p (some n) = refl
