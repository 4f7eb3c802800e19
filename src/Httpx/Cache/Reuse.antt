-- ===== src/Httpx/Cache/Reuse.antt =====
-- helpers/httpx/cache.go: what a request brings to a later one, and what no error brings.
use gazetteer.Prelude.{
  ℕ, String, Bool, true, false, ◌&&◌, not, Option, none, some, List, [], ◌∷◌, ◌≡◌, refl, arith,
  length, eqb_refl, ◌∙◌, ap,
}
use gazetteer.Prelude.Dict.{lookup-insert_self}
use gazetteer.Errors.{Result, ok}
use gazetteer.Httpx.Cache.{
  Answer, CacheMeta, CacheRequest, Disk, Faults, Sent, Trip, forward, from_entry, checked_entry,
  is_fresh, is_kept, is_oversized, meta_of, passes_by, persist, plain, read_entry, round_trip,
  trip_of, write_entry,
}
use gazetteer.Httpx.Cache.Cases.{as_fetched}
use gazetteer.Httpx.Cache.Clean.{Visit, after}
use gazetteer.Httpx.Cache.Others.{files, are_others, after-others}

abbrev pub no_faults : Faults
no_faults = record { body_fails = Bool.false; meta_fails = Bool.false }

read_entry-write_entry :
    (hash : String) (m : CacheMeta) (body : List ℕ) (d : Disk)
    → m.body_len ≡ length body
    → read_entry hash (write_entry no_faults hash m body d) ≡ some (m, body)
unfolding read_entry write_entry
read_entry-write_entry hash m body d l =
    rw
      (lookup-insert_self hash (some m) d.metas, lookup-insert_self hash body d.bodies, l, eqb_refl)
      refl

pub read_entry-files :
    (hash : String) (d e : Disk)
    → files hash d ≡ files hash e
    → read_entry hash d ≡ read_entry hash e
unfolding read_entry
read_entry-files hash d e h =
    ap (λ (f : Option (Option CacheMeta) × Option (List ℕ)). checked_entry f.0 f.1) h

module _ (limit : ℕ) (ttl_for : String → ℕ) where
  -- A fresh entry is served from the disk, and the upstream is not asked.
  pub round_trip-hit :
      (next : Sent → Result Answer) (faults : Faults) (q : CacheRequest) (now : ℕ) (d : Disk)
      (m : CacheMeta) (body : List ℕ)
      → passes_by q ≡ Bool.false
      → read_entry q.hash d ≡ some (m, body)
      → is_fresh now m ≡ true
      → round_trip limit ttl_for next faults q now d ≡ trip_of [] (ok (from_entry m body), d)
  unfolding round_trip
  round_trip-hit next faults q now d m body p r f = rw (p, r, f) refl

  -- An answer that is read to its end within the limit and may be kept.
  abbrev pub is_good : Answer → Bool
  is_good a = elim a.read_error [
    | none ↦ not (is_oversized limit ttl_for a.body) && is_kept a
    | some e ↦ false
  ]

  forward-miss :
      (next : Sent → Result Answer) (faults : Faults) (q : CacheRequest) (now : ℕ) (d : Disk)
      (a : Answer)
      → read_entry q.hash d ≡ none
      → next (plain q) ≡ ok a
      → forward limit ttl_for next faults q now d
        ≡ trip_of (plain q ∷ []) (persist limit ttl_for faults q now a d)
  unfolding forward
  forward-miss next faults q now d a r n = rw (r, n) refl

  persist-good :
      (faults : Faults) (q : CacheRequest) (now : ℕ) (a : Answer) (d : Disk)
      → is_good a ≡ true
      → persist limit ttl_for faults q now a d
        ≡ (ok (as_fetched a), write_entry faults q.hash (meta_of limit ttl_for q now a) a.body d)
  unfolding persist
  persist-good faults q now a d g = ground (arith, g)

  round_trip-miss :
      (next : Sent → Result Answer) (faults : Faults) (q : CacheRequest) (now : ℕ) (d : Disk)
      (a : Answer)
      → passes_by q ≡ Bool.false
      → read_entry q.hash d ≡ none
      → next (plain q) ≡ ok a
      → is_good a ≡ true
      → round_trip limit ttl_for next faults q now d
        ≡ trip_of
            (plain q ∷ [])
            (ok (as_fetched a), write_entry faults q.hash (meta_of limit ttl_for q now a) a.body d)
  unfolding round_trip
  round_trip-miss next faults q now d a p r n g =
      rw (p, r, forward-miss next faults q now d a r n, persist-good faults q now a d g) refl

  -- After a miss that the upstream answered within the size limit with a storable answer of a
  -- cacheable status, and that was written, a request with the same key, before the expiry and
  -- after any requests with other keys, is served the same status, header and body from the
  -- disk: nothing is sent and nothing is written.
  pub round_trip-reuse :
      (q again : CacheRequest) (now later : ℕ) (a : Answer) (d : Disk)
      (next next_later : Sent → Result Answer) (faults : Faults) (vs : List Visit)
      → passes_by q ≡ Bool.false
      → read_entry q.hash d ≡ none
      → next (plain q) ≡ ok a
      → is_good a ≡ true
      → are_others q.hash vs ≡ true
      → passes_by again ≡ Bool.false
      → again.hash ≡ q.hash
      → is_fresh later (meta_of limit ttl_for q now a) ≡ true
      → let kept = after limit ttl_for vs (round_trip limit ttl_for next no_faults q now d).disk in
        round_trip limit ttl_for next_later faults again later kept ≡ record {
          outcome = ok record {
            status_code = a.status_code;
            header = a.header;
            body = a.body;
            from_cache = true;
          };
          disk = kept;
          sent = [];
        }
  round_trip-reuse q again now later a d next next_later faults vs p r n g o p' e f =
      let m = meta_of limit ttl_for q now a in
      let kept = after limit ttl_for vs (round_trip limit ttl_for next no_faults q now d).disk in
      round_trip-hit next_later faults again later kept m a.body p'
        (rw e (
          read_entry-files q.hash kept _ (
            after-others limit ttl_for vs (round_trip limit ttl_for next no_faults q now d).disk
              q.hash o)
          ∙ ap (λ (t : Trip). read_entry q.hash t.disk)
              (round_trip-miss next no_faults q now d a p r n g)
          ∙ read_entry-write_entry q.hash m a.body d refl))
        f
