-- ===== src/Httpx/Cache/Clean.antt =====
-- helpers/httpx/cache.go: what may come to stand in the directory, and by which requests.
use gazetteer.Prelude.{
  ℕ, String, Bool, true, ◌&&◌, Option, none, some, List, [], ◌∷◌, ◌≡◌, arith, if-cases, length,
  ◌==◌, subst, Bool-cases, inl, inr, sym, AllSome,
}
use gazetteer.Prelude.Dict.{Dict, lookup, insert}
use gazetteer.Httpx.Cache.Cases.{round_trip-cases, round_trip-passes_by}
use gazetteer.Errors.{Result}
use gazetteer.Httpx.Cache.{
  Answer, CacheMeta, CacheRequest, Disk, Faults, Sent, checked_entry, is_cacheable_method,
  is_status_cacheable, is_storable, passes_by, read_entry, round_trip, write_entry, write_meta,
  refreshed, is_kept,
}

-- May an entry with this meta file stand on the disk?
abbrev pub is_clean_meta : Option CacheMeta → Bool
is_clean_meta none = true
is_clean_meta (some m) =
    is_cacheable_method m.method && (is_status_cacheable m.status && is_storable m.header)

abbrev pub are_clean : Dict (Option CacheMeta) → Bool
are_clean [] = true
are_clean (e ∷ es) = is_clean_meta e.1 && are_clean es

are_clean-insert :
    (hash : String) (m : Option CacheMeta) (es : Dict (Option CacheMeta))
    → is_clean_meta m ≡ true
    → are_clean es ≡ true
    → are_clean (insert hash m es) ≡ true
unfolding insert
are_clean-insert hash m [] h c = ground (arith, h)
are_clean-insert hash m (e ∷ es) h c = ground (arith, h, c, are_clean-insert hash m es h)

are_clean-lookup :
    (hash : String) (es : Dict (Option CacheMeta))
    → are_clean es ≡ true
    → AllSome (λ m. is_clean_meta m ≡ true) (lookup hash es)
unfolding lookup
are_clean-lookup hash [] c = tt
are_clean-lookup hash (e ∷ es) c = ground (arith, c, are_clean-lookup hash es)

-- What an answer may bring to the disk.
write_entry-clean :
    (faults : Faults) (hash : String) (m : CacheMeta) (body : List ℕ) (d : Disk)
    → is_clean_meta (some m) ≡ true
    → are_clean d.metas ≡ true
    → are_clean (write_entry faults hash m body d).metas ≡ true
unfolding write_entry
write_entry-clean faults hash m body d h c =
    ground (arith, h, c, are_clean-insert hash (some m) d.metas h c)

checked_entry-clean :
    (m : Option (Option CacheMeta)) (body : Option (List ℕ))
    → AllSome (λ m. is_clean_meta m ≡ true) m
    → AllSome (λ e. is_clean_meta (some e.0) ≡ true) (checked_entry m body)
checked_entry-clean none body h = tt
checked_entry-clean (some none) body h = tt
checked_entry-clean (some (some m)) none h = tt
checked_entry-clean (some (some m)) (some body) h =
    if-cases (AllSome (λ e. is_clean_meta (some e.0) ≡ true)) (length body == m.body_len) _ _
      (λ _. h) (λ _. tt)

pub read_entry-clean :
    (hash : String) (d : Disk)
    → are_clean d.metas ≡ true
    → AllSome (λ e. is_clean_meta (some e.0) ≡ true) (read_entry hash d)
unfolding read_entry
read_entry-clean hash d c = checked_entry-clean _ _ (are_clean-lookup hash d.metas c)

refreshed-clean :
    (limit : ℕ) (ttl_for : String → ℕ) (fails : Bool) (q : CacheRequest) (now : ℕ) (a : Answer)
    (m : CacheMeta) (d : Disk)
    → is_clean_meta (some m) ≡ true
    → are_clean d.metas ≡ true
    → are_clean (write_meta fails q.hash (refreshed limit ttl_for q now a m) d).metas ≡ true
refreshed-clean limit ttl_for true q now a m d h c = c
refreshed-clean limit ttl_for Bool.false q now a m d h c = are_clean-insert q.hash _ d.metas h c

kept-clean :
    (q : CacheRequest) (a : Answer)
    → passes_by q ≡ Bool.false
    → is_kept a ≡ true
    → is_cacheable_method q.method && (is_status_cacheable a.status_code && is_storable a.header)
      ≡ true
unfolding passes_by is_kept
kept-clean q a p k = ground (arith, p, k)

-- One call of RoundTrip: what it is asked, when, how the upstream would answer, and which writes
-- fail.
pub record Visit : Type 0 where
  pub request : CacheRequest
  pub now : ℕ
  pub next : Sent → Result Answer
  pub faults : Faults

module _ (limit : ℕ) (ttl_for : String → ℕ) where
  abbrev pub visit : Visit → Disk → Disk
  visit v d = (round_trip limit ttl_for v.next v.faults v.request v.now d).disk

  -- The disk after visits.
  abbrev pub after : List Visit → Disk → Disk
  after [] d = d
  after (v ∷ vs) d = after vs (visit v d)

  visit-clean :
      (v : Visit) (d : Disk) → are_clean d.metas ≡ true → are_clean (visit v d).metas ≡ true
  visit-clean v d c =
      let q = v.request in
      elim (Bool-cases (passes_by q)) [
        | inl p ↦
            subst (λ t. are_clean t.disk.metas ≡ true)
              (sym (round_trip-passes_by limit ttl_for v.next v.faults q v.now d p)) c
        | inr p ↦
            round_trip-cases (λ t. are_clean t.disk.metas ≡ true) limit ttl_for v.faults q v.now d
              (λ s e. c) (λ s a k. c)
              (λ s a k. write_entry-clean v.faults q.hash _ a.body d (kept-clean q a p k) c)
              (λ s a e r.
                refreshed-clean limit ttl_for v.faults.meta_fails q v.now a e.0 d
                  (subst (AllSome (λ e. is_clean_meta (some e.0) ≡ true)) r
                    (read_entry-clean q.hash d c))
                  c)
              v.next (λ p r. c) (λ f h. c)
      ]

  -- Whatever is asked in whatever order, and whichever writes fail: if every entry on the disk is
  -- of a GET or HEAD request, has a cacheable status, and neither says no-store nor varies on
  -- everything, then so has every entry after that.
  pub after-clean :
      (vs : List Visit) (d : Disk) → are_clean d.metas ≡ true → are_clean (after vs d).metas ≡ true
  after-clean [] d c = c
  after-clean (v ∷ vs) d c = after-clean vs (visit v d) (visit-clean v d c)
