-- ===== src/Httpx/Cache/Cases.antt =====
-- helpers/httpx/cache.go: what RoundTrip can come to, case by case.
use gazetteer.Prelude.{
  ℕ, String, true, false, Option, none, some, List, [], ◌∷◌, ◌≡◌, refl, if-cases, Option-elim, ◌==◌,
}
use gazetteer.Errors.{Err, Result, ok, err}
use gazetteer.Httpx.Cache.{
  Answer, CacheMeta, CacheRequest, Disk, Faults, Sent, Trip, forward, passes_by, persist,
  read_entry, round_trip, write_entry, write_meta, meta_of, refreshed, is_kept, forward_with,
  conditional, unconditional, fresh_hit, from_entry, trip_of, plain, handed_through, has_validator,
  conditional_sent, is_oversized, Fetched,
}

abbrev pub as_fetched : Answer → Fetched
as_fetched a = record {
  status_code = a.status_code;
  header = a.header;
  body = a.body;
  from_cache = false;
}

module _ {ℓ} (P : Trip → Type ℓ) (limit : ℕ) (ttl_for : String → ℕ) (faults : Faults)
    (q : CacheRequest) (now : ℕ) (d : Disk) where
  -- Of an answer that is read: it is in error, passed on, or passed on and written.
  persist-cases :
      (s : Sent) (a : Answer)
      → ((e : Err) → P (trip_of (s ∷ []) (err e, d)))
      → (is_kept a ≡ false → P (trip_of (s ∷ []) (ok (as_fetched a), d)))
      → (is_kept a ≡ true
          → P (
              trip_of (s ∷ []) (
                ok (as_fetched a),
                write_entry faults q.hash (meta_of limit ttl_for q now a) a.body d,
              )))
      → P (trip_of (s ∷ []) (persist limit ttl_for faults q now a d))
  unfolding persist
  persist-cases s a failed passed written =
      if-cases (λ r. P (trip_of (s ∷ []) r)) (is_oversized limit ttl_for a.body) _ _ (λ _. failed _)
        (λ _.
          Option-elim (λ r. P (trip_of (s ∷ []) r)) a.read_error _ _
            (λ _.
              if-cases (λ b. P (trip_of (s ∷ []) (ok (as_fetched a), b))) (is_kept a) _ _ written
                passed)
            (λ e _. failed e))

  module _ (failed : (s : Sent) (e : Err) → P (trip_of (s ∷ []) (err e, d)))
      (passed : (s : Sent) (a : Answer)
        → is_kept a ≡ false
        → P (trip_of (s ∷ []) (ok (as_fetched a), d)))
      (written : (s : Sent) (a : Answer)
        → is_kept a ≡ true
        → P (
            trip_of (s ∷ []) (
              ok (as_fetched a),
              write_entry faults q.hash (meta_of limit ttl_for q now a) a.body d,
            )))
      (revalidated : (s : Sent) (a : Answer) (e : CacheMeta × List ℕ)
        → read_entry q.hash d ≡ some e
        → P (
            trip_of (s ∷ []) (
              ok (from_entry e.0 e.1),
              write_meta faults.meta_fails q.hash (refreshed limit ttl_for q now a e.0) d,
            ))) where
    unconditional-cases : (r : Result Answer) → P (unconditional limit ttl_for faults q now d r)
    unconditional-cases (err e) = failed _ e
    unconditional-cases (ok a) = persist-cases _ a (failed _) (passed _ a) (written _ a)

    conditional-cases :
        (e : CacheMeta × List ℕ) (r : Result Answer)
        → read_entry q.hash d ≡ some e
        → P (conditional limit ttl_for faults q now d e.0 e.1 r)
    conditional-cases e (err x) h = failed _ x
    conditional-cases e (ok a) h =
        if-cases P (a.status_code == 304) _ _ (λ _. revalidated _ a e h)
          (λ _. persist-cases _ a (failed _) (passed _ a) (written _ a))

    forward_with-cases :
        (next : Sent → Result Answer) (o : Option (CacheMeta × List ℕ))
        → read_entry q.hash d ≡ o
        → P (forward_with limit ttl_for next faults q now d o)
    forward_with-cases next none h = unconditional-cases (next (plain q))
    forward_with-cases next (some e) h =
        if-cases P (has_validator e.0) _ _
          (λ _. conditional-cases e (next (conditional_sent q e.0)) h)
          (λ _. unconditional-cases (next (plain q)))

    pub forward-cases :
        (next : Sent → Result Answer) → P (forward limit ttl_for next faults q now d)
    unfolding forward
    forward-cases next = forward_with-cases next _ refl

    pub round_trip-cases :
        (next : Sent → Result Answer)
        → (passes_by q ≡ true → (r : Result Fetched) → P (trip_of (plain q ∷ []) (r, d)))
        → ((f : Fetched) → fresh_hit now (read_entry q.hash d) ≡ some f → P (trip_of [] (ok f, d)))
        → P (round_trip limit ttl_for next faults q now d)
    unfolding round_trip
    round_trip-cases next by hit =
        if-cases P (passes_by q) _ _ (λ p. by p _)
          (λ p.
            Option-elim P (fresh_hit now (read_entry q.hash d)) _ _ (λ _. forward-cases next) hit)

pub round_trip-passes_by :
    (limit : ℕ) (ttl_for : String → ℕ) (next : Sent → Result Answer) (faults : Faults)
    (q : CacheRequest) (now : ℕ) (d : Disk)
    → passes_by q ≡ true
    → round_trip limit ttl_for next faults q now d
      ≡ trip_of (plain q ∷ []) (handed_through (next (plain q)), d)
unfolding round_trip
round_trip-passes_by limit ttl_for next faults q now d h = rw h refl
