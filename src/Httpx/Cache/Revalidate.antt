-- ===== src/Httpx/Cache/Revalidate.antt =====
-- helpers/httpx/cache.go: when the upstream is asked, what a 304 brings, and what an error leaves.
use gazetteer.Prelude.{
  ℕ, String, Bool, true, false, ◌&&◌, ◌||◌, not, Option, none, some, List, ◌≡◌, refl, arith, length,
  ◌==◌, ltb, ◌/◌, if◌then◌else◌, subst, AllSome,
}
use gazetteer.Prelude.Int.{pos, negsuc}
use gazetteer.Prelude.Dict.{lookup}
use gazetteer.Errors.{Result, ok, err}
use gazetteer.Httpx.Cache.{
  Answer, CacheMeta, CacheRequest, Disk, Faults, Fetched, Sent, forward, fresh_hit, from_entry,
  checked_entry, is_kept, is_status_cacheable, passes_by, read_entry, refreshed, second, round_trip,
}
use gazetteer.Httpx.Cache.Cases.{as_fetched, forward-cases, round_trip-cases}
use gazetteer.Httpx.Cache.Clean.{are_clean, is_clean_meta, read_entry-clean}

-- The body file has the length that the meta file says, and the expiry is to come.
abbrev pub is_intact_and_fresh : ℕ → Option (Option CacheMeta) → Option (List ℕ) → Bool
is_intact_and_fresh now (some (some m)) (some body) =
    (length body == m.body_len)
    && elim m.expires_at [ pos e ↦ ltb (now / second) e | negsuc e ↦ false ]
is_intact_and_fresh now _ _ = false

abbrev is_some {ℓ} : {A : Type ℓ} → Option A → Bool
is_some none = false
is_some (some a) = true

fresh_hit-checked_entry :
    (now : ℕ) (m : Option (Option CacheMeta)) (body : Option (List ℕ))
    → is_some (fresh_hit now (checked_entry m body)) ≡ is_intact_and_fresh now m body
fresh_hit-checked_entry now none none = refl
fresh_hit-checked_entry now none (some body) = refl
fresh_hit-checked_entry now (some none) none = refl
fresh_hit-checked_entry now (some none) (some body) = refl
fresh_hit-checked_entry now (some (some m)) none = refl
fresh_hit-checked_entry now (some (some m)) (some body) = ground arith

-- 200, 203, 300, 301 and 308
abbrev pub is_banked : Result Fetched → Bool
is_banked (err e) = false
is_banked (ok f) =
    let s = f.status_code in
    (s == 200) || ((s == 203) || ((s == 300) || ((s == 301) || (s == 308))))

is_kept-is_banked : (a : Answer) → is_kept a ≡ true → is_banked (ok (as_fetched a)) ≡ true
unfolding is_kept is_status_cacheable
is_kept-is_banked a k = ground (arith, k)

is_clean-is_banked :
    (m : CacheMeta) (body : List ℕ)
    → is_clean_meta (some m) ≡ true
    → is_banked (ok (from_entry m body)) ≡ true
unfolding is_status_cacheable
is_clean-is_banked m body k = ground (arith, k)

module _ (limit : ℕ) (ttl_for : String → ℕ) where
  forward-asks :
      (next : Sent → Result Answer) (faults : Faults) (q : CacheRequest) (now : ℕ) (d : Disk)
      → length (forward limit ttl_for next faults q now d).sent ≡ 1
  forward-asks next faults q now d =
      forward-cases (λ t. length t.sent ≡ 1) limit ttl_for faults q now d (λ s e. refl)
        (λ s a k. refl) (λ s a k. refl) (λ s a e r. refl) next

  -- A request asks the upstream once, or not at all: not at all exactly when the cache may answer
  -- it and holds an intact entry for it whose expiry is to come.
  pub round_trip-asks :
      (next : Sent → Result Answer) (faults : Faults) (q : CacheRequest) (now : ℕ) (d : Disk)
      → length (round_trip limit ttl_for next faults q now d).sent ≡ (
          if not (passes_by q)
            && is_intact_and_fresh now (lookup q.hash d.metas) (lookup q.hash d.bodies)
          then 0
          else 1)
  unfolding round_trip read_entry
  round_trip-asks next faults q now d =
      let asked = fresh_hit-checked_entry now (lookup q.hash d.metas) (lookup q.hash d.bodies) in
      ground (arith, forward-asks next faults q now d, asked)

  -- A trip that ends in an error, or in an answer of another status than the cacheable ones,
  -- leaves the disk as it is, where its entries are of cacheable statuses.
  pub round_trip-not_banked :
      (next : Sent → Result Answer) (faults : Faults) (q : CacheRequest) (now : ℕ) (d : Disk)
      → are_clean d.metas ≡ true
      → is_banked (round_trip limit ttl_for next faults q now d).outcome ≡ Bool.false
      → (round_trip limit ttl_for next faults q now d).disk ≡ d
  round_trip-not_banked next faults q now d c =
      round_trip-cases (λ t. is_banked t.outcome ≡ Bool.false → t.disk ≡ d) limit ttl_for faults q
        now d (λ s e h. refl) (λ s a k h. refl)
        (λ s a k h. ground (arith, h, is_kept-is_banked a k))
        (λ s a e r h. ground (
          arith,
          h,
          is_clean-is_banked e.0 e.1 (
              subst (AllSome (λ e. is_clean_meta (some e.0) ≡ true)) r
                (read_entry-clean q.hash d c)),
        ))
        next (λ p r h. refl) (λ f r h. refl)

  -- What the meta file says after a 304: the old record where the write of the new one fails.
  abbrev pub renewed : Faults → CacheRequest → ℕ → Answer → CacheMeta → CacheMeta
  renewed faults q now a m = if faults.meta_fails then m else refreshed limit ttl_for q now a m
