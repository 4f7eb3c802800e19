-- ===== src/Banx/Guard.antt =====
-- helpers/banx/cache.go: what the cached geocoder may answer, and when it asks.
use gazetteer.Prelude.{
  ℕ, String, Bool, true, ◌||◌, not, Option, none, some, List, if◌then◌else◌, and_then, ◌≡◌, refl,
  arith, ◌∙◌, subst, if-cases, Option-elim, AllSome, AllSome-if, and_then-cases,
}
use gazetteer.Prelude.Bytes.{is_blank, trim_space}
use gazetteer.Errors.{Err, Result, ok, err}
use gazetteer.Communes.{CpStore}
use gazetteer.Memcache.{Entry}
use gazetteer.Kvcache.{KvCache, Read, found, missing, failed}
use gazetteer.Banx.{
  Clock, GeocodeQuery, GeocodeResult, after_read, answer_of_row, ask, department_mismatch, geocode,
  is_coherent, is_drifted, is_unexpired, read_failed, store, undrifted, with_fetched_at,
  zips_share_department,
}

if-not {ℓ} :
    {A : Type ℓ} (b c : Bool) (x y : A) → b ≡ not c → (if b then x else y) ≡ (if c then y else x)
if-not true true x y h = ground (arith, h)
if-not true Bool.false x y h = refl
if-not Bool.false true x y h = refl
if-not Bool.false Bool.false x y h = ground (arith, h)

first-if :
    {A S : Type 0} (b c : Bool) (x y : A) (s t u : S)
    → (if◌then◌else◌ {A = A × S} b (x, s) (if◌then◌else◌ {A = A × S} c (y, t) (y, u))).0
      ≡ (if b then x else y)
first-if true c x y s t u = refl
first-if Bool.false true x y s t u = refl
first-if Bool.false Bool.false x y s t u = refl

module _ {Float : Type 0} where
  undrifted-is_drifted :
      (zip : List ℕ) (r : GeocodeResult Float)
      → AllSome (λ r. is_drifted zip r ≡ Bool.false) (undrifted zip r)
  undrifted-is_drifted zip r =
      AllSome-if (λ r. is_drifted zip r ≡ Bool.false) (is_drifted zip r) none (some r) (λ h. tt)
        (λ h. h)

  answer_of_row-is_drifted :
      (unmarshal : List ℕ → Option (GeocodeResult Float)) (now : ℕ) (zip : List ℕ) (row : Entry)
      → AllSome (λ r. is_drifted zip r ≡ Bool.false) (answer_of_row unmarshal now zip row)
  unfolding answer_of_row
  answer_of_row-is_drifted unmarshal now zip row =
      AllSome-if (λ r. is_drifted zip r ≡ Bool.false) (is_unexpired now row)
        (and_then (unmarshal row.value) (undrifted zip)) none
        (λ _.
          and_then-cases (λ r. is_drifted zip r ≡ Bool.false) (unmarshal row.value) (undrifted zip)
            (λ r _. undrifted-is_drifted zip r))
        (λ _. tt)

  -- The zip of the query and the postal code of the answer, where both are there, share a
  -- département.
  abbrev pub is_in_department : List ℕ → Result (GeocodeResult Float) → Bool
  is_in_department zip (err e) = true
  is_in_department zip (ok r) =
      is_blank (trim_space zip)
      || (is_blank r.post_code || zips_share_department (trim_space zip) r.post_code)

  undrifted-is_in_department :
      (zip : List ℕ) (r : GeocodeResult Float)
      → is_drifted zip r ≡ Bool.false
      → is_in_department zip (ok r) ≡ true
  undrifted-is_in_department zip r h = ground (arith, h)

  -- What the geocoder answers where there is no cache.
  abbrev pub uncached : ℕ → List ℕ → Result (GeocodeResult Float) → Result (GeocodeResult Float)
  uncached now zip (err e) = err e
  uncached now zip (ok r) =
      if is_in_department zip (ok r) then ok (with_fetched_at now r) else err department_mismatch

  is_drifted-with_fetched_at :
      (now : ℕ) (zip : List ℕ) (r : GeocodeResult Float)
      → is_drifted zip (with_fetched_at now r) ≡ not (is_in_department zip (ok r))
  is_drifted-with_fetched_at now zip r = ground arith

-- The cache has no row, or cannot be read while the caller's context goes on.
abbrev pub is_unavailable : Option Err → Read → Bool
is_unavailable ctx_err (found row) = Bool.false
is_unavailable ctx_err missing = true
is_unavailable none (failed e) = true
is_unavailable (some c) (failed e) = Bool.false

module _ (Float : Type 0) (unmarshal : List ℕ → Option (GeocodeResult Float))
    (marshal : GeocodeResult Float → Option (List ℕ)) (table : Option CpStore) (K : KvCache)
    (ttl : ℕ) where
  module _ {ℓ} (P : Result (GeocodeResult Float) × K.State → Type ℓ) (clock : Clock) (zip : List ℕ)
      (key : String) (s : K.State) where
    module _ (refused : (e : Err) → P (err e, s))
        (kept : (r : GeocodeResult Float)
          → is_drifted zip r ≡ Bool.false
          → is_coherent table r.city_code r.post_code ≡ Bool.false
          → P (ok r, s))
        (stored : (r : GeocodeResult Float)
          → is_drifted zip r ≡ Bool.false
          → is_coherent table r.city_code r.post_code ≡ true
          → P (ok r, store Float unmarshal marshal table K ttl clock key r s)) where
      pub ask-cases :
          (reply : Result (GeocodeResult Float))
          → P (ask Float unmarshal marshal table K ttl clock zip key reply s)
      unfolding ask
      ask-cases (err e) = refused e
      ask-cases (ok r) =
          let t = with_fetched_at clock.at_answer r in
          if-cases P (is_drifted zip t) _ _ (λ _. refused department_mismatch)
            (λ u.
              if-cases P (is_coherent table t.city_code t.post_code) _ _ (stored t u) (kept t u))

      pub after_read-cases :
          (ctx_err : Option Err) (reply : Result (GeocodeResult Float)) (read : Read)
          → ((row : Entry) (r : GeocodeResult Float)
              → read ≡ found row
              → answer_of_row unmarshal clock.at_read zip row ≡ some r
              → P (ok r, s))
          → P (after_read Float unmarshal marshal table K ttl clock ctx_err zip key reply read s)
      after_read-cases ctx_err reply (found row) hit =
          Option-elim P (answer_of_row unmarshal clock.at_read zip row) _ _ (λ _. ask-cases reply)
            (λ r h. hit row r refl h)
      after_read-cases ctx_err reply missing hit = ask-cases reply
      after_read-cases ctx_err reply (failed e) hit =
          Option-elim P (read_failed ctx_err) _ _ (λ _. ask-cases reply) (λ c _. refused c)

  ask-eq-uncached :
      (clock : Clock) (zip : List ℕ) (key : String) (reply : Result (GeocodeResult Float))
      (s : K.State)
      → (ask Float unmarshal marshal table K ttl clock zip key reply s).0
        ≡ uncached clock.at_answer zip reply
  unfolding ask
  ask-eq-uncached clock zip key (err e) s = refl
  ask-eq-uncached clock zip key (ok r) s =
      let t = with_fetched_at clock.at_answer r in
      first-if (is_drifted zip t) (is_coherent table t.city_code t.post_code)
        (err department_mismatch) (ok t) s _ s
      ∙ if-not (is_drifted zip t) (is_in_department zip (ok r)) _ _
          (is_drifted-with_fetched_at clock.at_answer zip r)

  after_read-eq-uncached :
      (clock : Clock) (ctx_err : Option Err) (zip : List ℕ) (key : String)
      (reply : Result (GeocodeResult Float)) (read : Read) (s : K.State)
      → is_unavailable ctx_err read ≡ true
      → (after_read Float unmarshal marshal table K ttl clock ctx_err zip key reply read s).0
        ≡ uncached clock.at_answer zip reply
  unfolding read_failed
  after_read-eq-uncached clock ctx_err zip key reply (found row) s h = ground (arith, h)
  after_read-eq-uncached clock ctx_err zip key reply missing s h =
      ask-eq-uncached clock zip key reply s
  after_read-eq-uncached clock none zip key reply (failed e) s h =
      ask-eq-uncached clock zip key reply s
  after_read-eq-uncached clock (some c) zip key reply (failed e) s h = ground (arith, h)

  module _ (cache_key : GeocodeQuery → String)
      (delegate : GeocodeQuery → Result (GeocodeResult Float)) (clock : Clock)
      (ctx_err : Option Err) (q : GeocodeQuery) (s : K.State) where
    -- Whatever the cache holds and the delegate answers, Geocode never returns a result whose
    -- postal code is outside the département of the zip in the query.
    pub geocode-is_in_department :
        is_in_department q.zip
          (geocode Float unmarshal marshal table K ttl cache_key delegate clock ctx_err q s).0
        ≡ true
    unfolding geocode
    geocode-is_in_department =
        after_read-cases (λ t. is_in_department q.zip t.0 ≡ true) clock q.zip (cache_key q)
          (K.get (cache_key q) s).1 (λ e. refl) (λ r u c. undrifted-is_in_department q.zip r u)
          (λ r u c. undrifted-is_in_department q.zip r u) ctx_err (delegate q)
          (K.get (cache_key q) s).0
          (λ row r f a. undrifted-is_in_department q.zip r (
            subst (AllSome (λ r. is_drifted q.zip r ≡ Bool.false)) a
              (answer_of_row-is_drifted unmarshal clock.at_read q.zip row)))

    -- A cache that has no row, or fails to be read, or fails to be written, costs no answer: what
    -- Geocode returns is what it would return with no cache, as long as the caller's own context
    -- has not ended. That is the delegate's error, or its result with FetchedAt filled in, but for
    -- a result outside the département of the zip, which is refused.
    pub geocode-eq-uncached :
        is_unavailable ctx_err (K.get (cache_key q) s).0 ≡ true
        → (geocode Float unmarshal marshal table K ttl cache_key delegate clock ctx_err q s).0
          ≡ uncached clock.at_answer q.zip (delegate q)
    unfolding geocode
    geocode-eq-uncached h =
        after_read-eq-uncached clock ctx_err q.zip (cache_key q) (delegate q)
          (K.get (cache_key q) s).0 (K.get (cache_key q) s).1 h
