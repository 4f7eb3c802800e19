-- ===== src/Httpx/Cache/Others.antt =====
-- helpers/httpx/cache.go: which requests touch which entries of the directory.
use gazetteer.Prelude.{
  String, Bool, true, ◌&&◌, ◌||◌, not, Option, some, List, [], ◌∷◌, str_eq, ◌≡◌, refl, arith, ℕ,
  if-cases, Bool-cases, subst, sym, inl, inr, ◌∙◌,
}
use gazetteer.Prelude.Dict.{lookup, insert, lookup-insert}
use gazetteer.Httpx.Cache.{CacheMeta, Disk, Faults, passes_by, write_entry, write_meta}
use gazetteer.Httpx.Cache.Cases.{round_trip-cases, round_trip-passes_by}
use gazetteer.Httpx.Cache.Clean.{Visit, visit, after}

-- The two files of an entry.
abbrev pub files : String → Disk → Option (Option CacheMeta) × Option (List ℕ)
files hash d = (lookup hash d.metas, lookup hash d.bodies)

write_meta-other :
    (fails : Bool) (key hash : String) (m : CacheMeta) (d : Disk)
    → str_eq key hash ≡ Bool.false
    → files hash (write_meta fails key m d) ≡ files hash d
write_meta-other true key hash m d n = refl
write_meta-other Bool.false key hash m d n = rw (lookup-insert d.metas key hash (some m), n) refl

write_entry-other :
    (faults : Faults) (key hash : String) (m : CacheMeta) (body : List ℕ) (d : Disk)
    → str_eq key hash ≡ Bool.false
    → files hash (write_entry faults key m body d) ≡ files hash d
unfolding write_entry
write_entry-other faults key hash m body d n =
    if-cases (λ w. files hash w ≡ files hash d) faults.body_fails _ _ (λ _. refl)
      (λ _.
        write_meta-other faults.meta_fails key hash m
          (record { metas = d.metas; bodies = insert key body d.bodies }) n
        ∙ rw (lookup-insert d.bodies key hash body, n) refl)

-- Is the disk's entry of the hash left alone?
abbrev pub is_other : String → Visit → Bool
is_other hash v = passes_by v.request || not (str_eq v.request.hash hash)

abbrev pub are_others : String → List Visit → Bool
are_others hash [] = true
are_others hash (v ∷ vs) = is_other hash v && are_others hash vs

module _ (limit : ℕ) (ttl_for : String → ℕ) where
  visit-other :
      (v : Visit) (d : Disk) (hash : String)
      → is_other hash v ≡ true
      → files hash (visit limit ttl_for v d) ≡ files hash d
  visit-other v d hash o =
      let q = v.request in
      elim (Bool-cases (passes_by q)) [
        | inl p ↦
            subst (λ t. files hash t.disk ≡ files hash d)
              (sym (round_trip-passes_by limit ttl_for v.next v.faults q v.now d p)) refl
        | inr p ↦
            let n : str_eq q.hash hash ≡ Bool.false = ground (arith, o, p) in
            round_trip-cases (λ t. files hash t.disk ≡ files hash d) limit ttl_for v.faults q v.now
              d (λ s e. refl) (λ s a k. refl)
              (λ s a k. write_entry-other v.faults q.hash hash _ a.body d n)
              (λ s a e r. write_meta-other v.faults.meta_fails q.hash hash _ d n) v.next
              (λ p r. refl) (λ f h. refl)
      ]

  -- An entry changes only by a request with its own key: a request with credentials, one that
  -- bypasses the cache, and one of another method than GET and HEAD leave every entry as it is.
  pub after-others :
      (vs : List Visit) (d : Disk) (hash : String)
      → are_others hash vs ≡ true
      → files hash (after limit ttl_for vs d) ≡ files hash d
  after-others [] d hash o = refl
  after-others (v ∷ vs) d hash o =
      after-others vs (visit limit ttl_for v d) hash (ground (arith, o))
      ∙ visit-other v d hash (ground (arith, o))
