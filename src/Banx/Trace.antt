-- ===== src/Banx/Trace.antt =====
-- helpers/banx/cache.go: what any calls of Geocode and Reverse leave in the cache, and what a later
-- call gets out of it.
use gazetteer.Prelude.{
  ℕ, ◌+◌, String, Bool, true, Option, none, some, List, [], ◌∷◌, ltb, if◌then◌else◌, ◌≡◌, refl,
  arith, ap, ◌∙◌, sym, subst, Option-elim,
}
use gazetteer.Errors.{Err, Result, ok}
use gazetteer.Communes.{CpStore}
use gazetteer.Memcache.{Entry, stamped}
use gazetteer.Kvcache.{IsLawful, KvCache, found, missing}
use gazetteer.Banx.{
  Clock, GeocodeQuery, GeocodeResult, after_read, answer_of_row, ask, geocode, is_coherent,
  is_drifted, reverse, row_of, store, through_cache, undrifted, with_fetched_at,
}
use gazetteer.Banx.Guard.{after_read-cases}

second-if {ℓ} :
    {A : Type ℓ} (b c : Bool) (x y z : A)
    → b ≡ Bool.false
    → c ≡ true
    → (if b then x else if c then y else z) ≡ y
second-if true c x y z h k = ground (arith, h)
second-if Bool.false true x y z h k = refl
second-if Bool.false Bool.false x y z h k = ground (arith, k)

if-else {ℓ} : {A : Type ℓ} (b : Bool) (x y : A) → b ≡ Bool.false → (if b then x else y) ≡ y
if-else true x y h = ground (arith, h)
if-else Bool.false x y h = refl

undrifted-some :
    {Float : Type 0} (zip : List ℕ) (r : GeocodeResult Float)
    → is_drifted zip r ≡ Bool.false
    → undrifted zip r ≡ some r
undrifted-some zip r d = if-else (is_drifted zip r) _ _ d

-- One call of the geocoder.
pub data Call (Float : Type 0) : Type 0 where
  forward : GeocodeQuery → Call Float
  backward : Float → Float → Call Float

-- A call, with what its clock reads, what its context has come to if a read fails, and what the
-- delegate answers.
pub record Visit (Float : Type 0) : Type 0 where
  pub call : Call Float
  pub clock : Clock
  pub ctx_err : Option Err
  pub reply : Result (GeocodeResult Float)

module _ (Float : Type 0) (unmarshal : List ℕ → Option (GeocodeResult Float))
    (marshal : GeocodeResult Float → Option (List ℕ)) (table : Option CpStore) (K : KvCache)
    (ttl : ℕ) (cache_key : GeocodeQuery → String) (reverse_key : Float → Float → String) where
  abbrev run_call : Call Float → Visit Float → K.State → Result (GeocodeResult Float) × K.State
  run_call (forward q) v s =
      geocode Float unmarshal marshal table K ttl cache_key (λ _. v.reply) v.clock v.ctx_err q s
  run_call (backward lat lon) v s =
      reverse Float unmarshal marshal table K ttl reverse_key (some (λ _ _. v.reply)) v.clock
        v.ctx_err lat lon s

  -- The cache after calls.
  abbrev pub after : List (Visit Float) → K.State → K.State
  after [] s = s
  after (v ∷ vs) s = after vs (run_call v.call v s).1

  abbrev coherent_value : Option (GeocodeResult Float) → Bool
  coherent_value none = true
  coherent_value (some r) = is_coherent table r.city_code r.post_code

  -- Is a row one of a coherent result, where it can be read?
  abbrev pub is_coherent_row : Entry → Bool
  is_coherent_row e = coherent_value (unmarshal e.value)

  stamped-is_coherent_row :
      (now : ℕ) (e : Entry) → is_coherent_row (stamped now e) ≡ is_coherent_row e
  stamped-is_coherent_row now e = ground arith

  module _ (L : IsLawful K)
      (faithful : (r : GeocodeResult Float) (v : List ℕ)
        → marshal r ≡ some v
        → unmarshal v ≡ some r) where
    store-AllRows :
        (clock : Clock) (key : String) (r : GeocodeResult Float) (s : K.State)
        → is_coherent table r.city_code r.post_code ≡ true
        → L.AllRows is_coherent_row s
        → L.AllRows is_coherent_row (store Float unmarshal marshal table K ttl clock key r s)
    unfolding store
    store-AllRows clock key r s c h =
        Option-elim (λ t. L.AllRows is_coherent_row t) (marshal r) _ _ (λ _. h)
          (λ v m.
            let row = row_of Float unmarshal marshal table K ttl clock key v in
            let good : is_coherent_row row ≡ true =
              subst (λ (o : Option (GeocodeResult Float)). coherent_value o ≡ true)
                (sym (faithful r v m)) c in
            L.set-AllRows is_coherent_row clock.at_store row s
              (stamped-is_coherent_row clock.at_store row ∙ good) h)

    through_cache-AllRows :
        (clock : Clock) (ctx_err : Option Err) (zip : List ℕ) (key : String)
        (reply : Result (GeocodeResult Float)) (s : K.State)
        → L.AllRows is_coherent_row s
        → L.AllRows is_coherent_row
            (through_cache Float unmarshal marshal table K ttl clock ctx_err zip key reply s).1
    through_cache-AllRows clock ctx_err zip key reply s h =
        let t = (K.get key s).1 in
        let g = L.get-AllRows is_coherent_row key s h in
        after_read-cases Float unmarshal marshal table K ttl (λ r. L.AllRows is_coherent_row r.1)
          clock zip key t (λ e. g) (λ r u c. g) (λ r u c. store-AllRows clock key r t c g) ctx_err
          reply (K.get key s).0 (λ row r f a. g)

    run_call-AllRows :
        (call : Call Float) (v : Visit Float) (s : K.State)
        → L.AllRows is_coherent_row s
        → L.AllRows is_coherent_row (run_call call v s).1
    unfolding geocode reverse
    run_call-AllRows (forward q) v s h =
        through_cache-AllRows v.clock v.ctx_err q.zip (cache_key q) v.reply s h
    run_call-AllRows (backward lat lon) v s h =
        through_cache-AllRows v.clock v.ctx_err [] (reverse_key lat lon) v.reply s h

    -- With any lawful cache, and a JSON encoding that reads back what it wrote: calls of Geocode
    -- and Reverse in any order, with any answers and failures, leave a cache whose rows are all
    -- of coherent results, if it was such before.
    pub after-AllRows :
        (vs : List (Visit Float)) (s : K.State)
        → L.AllRows is_coherent_row s
        → L.AllRows is_coherent_row (after vs s)
    after-AllRows [] s h = h
    after-AllRows (v ∷ vs) s h =
        after-AllRows vs (run_call v.call v s).1 (run_call-AllRows v.call v s h)

  ask-stored :
      (clock : Clock) (zip : List ℕ) (key : String) (r : GeocodeResult Float) (s : K.State)
      → is_drifted zip (with_fetched_at clock.at_answer r) ≡ Bool.false
      → is_coherent table
          (with_fetched_at clock.at_answer r).city_code
          (with_fetched_at clock.at_answer r).post_code
        ≡ true
      → (ask Float unmarshal marshal table K ttl clock zip key (ok r) s).1
        ≡ store Float unmarshal marshal table K ttl clock key (with_fetched_at clock.at_answer r) s
  unfolding ask
  ask-stored clock zip key r s d c =
      let t = with_fetched_at clock.at_answer r in
      ap (λ (x : Result (GeocodeResult Float) × K.State). x.1)
        (second-if (is_drifted zip t) (is_coherent table t.city_code t.post_code) _ _ _ d c)

  store-found :
      (L : IsLawful K) (clock : Clock) (key : String) (r : GeocodeResult Float) (v : List ℕ)
      (s : K.State)
      → marshal r ≡ some v
      → (K.set clock.at_store (row_of Float unmarshal marshal table K ttl clock key v) s).0 ≡ none
      → (K.get key (store Float unmarshal marshal table K ttl clock key r s)).0
        ≡ found (row_of Float unmarshal marshal table K ttl clock key v)
  unfolding store
  store-found L clock key r v s m w =
      rw (m, store)
        (L.get-set clock.at_store (row_of Float unmarshal marshal table K ttl clock key v) s w)

  answer_of_row-stored :
      (clock : Clock) (now : ℕ) (zip : List ℕ) (key : String) (v : List ℕ) (r : GeocodeResult Float)
      → unmarshal v ≡ some r
      → is_drifted zip r ≡ Bool.false
      → ltb now (clock.at_expiry + ttl) ≡ true
      → answer_of_row unmarshal now zip (row_of Float unmarshal marshal table K ttl clock key v)
        ≡ some r
  unfolding answer_of_row
  answer_of_row-stored clock now zip key v r u d l = rw (l, u) (undrifted-some zip r d)

  after_read-hit :
      (clock : Clock) (ctx_err : Option Err) (zip : List ℕ) (key : String)
      (reply : Result (GeocodeResult Float)) (row : Entry) (s : K.State) (r : GeocodeResult Float)
      → answer_of_row unmarshal clock.at_read zip row ≡ some r
      → (after_read Float unmarshal marshal table K ttl clock ctx_err zip key reply (found row) s).0
        ≡ ok r
  after_read-hit clock ctx_err zip key reply row s r h = rw (h, after_read) refl

  -- With any lawful cache that has no row for a query and takes the new one: once the delegate has
  -- answered with a coherent result in the département of the zip, which JSON reads back as it
  -- was written, the next call of the geocoder, if it is a query with the same key, in that
  -- département too, and within the lifetime, gets that very result, whatever the delegate would
  -- answer then. Nothing is said of a call after others, since a cache may evict.
  pub geocode-asks_once :
      (L : IsLawful K) (q again : GeocodeQuery)
      (delegate delegate_later : GeocodeQuery → Result (GeocodeResult Float)) (clock later : Clock)
      (ctx_err ctx_err_later : Option Err) (r : GeocodeResult Float) (v : List ℕ) (s : K.State)
      → (K.get (cache_key q) s).0 ≡ missing
      → delegate q ≡ ok r
      → is_drifted q.zip (with_fetched_at clock.at_answer r) ≡ Bool.false
      → is_coherent table
          (with_fetched_at clock.at_answer r).city_code
          (with_fetched_at clock.at_answer r).post_code
        ≡ true
      → marshal (with_fetched_at clock.at_answer r) ≡ some v
      → unmarshal v ≡ some (with_fetched_at clock.at_answer r)
      → (K.set clock.at_store
          (row_of Float unmarshal marshal table K ttl clock (cache_key q) v)
          (K.get (cache_key q) s).1).0
        ≡ none
      → cache_key again ≡ cache_key q
      → is_drifted again.zip (with_fetched_at clock.at_answer r) ≡ Bool.false
      → ltb later.at_read (clock.at_expiry + ttl) ≡ true
      → (geocode Float unmarshal marshal table K ttl cache_key delegate_later later ctx_err_later
          again
          (geocode Float unmarshal marshal table K ttl cache_key delegate clock ctx_err q s).1).0
        ≡ ok (with_fetched_at clock.at_answer r)
  unfolding geocode
  geocode-asks_once L q again delegate delegate_later clock later ctx_err ctx_err_later r v s miss
        reply d c m u w k d' l =
      let t = with_fetched_at clock.at_answer r in
      let key = cache_key q in
      let s' = (K.get key s).1 in
      let kept : (after_read Float unmarshal marshal table K ttl clock ctx_err q.zip key
            (delegate q) (K.get key s).0 s').1
          ≡ store Float unmarshal marshal table K ttl clock key t s' =
        rw (miss, reply) (ask-stored clock q.zip key r s' d c) in
      let row = row_of Float unmarshal marshal table K ttl clock key v in
      let hit = store-found L clock key t v s' m w in
      rw (k, kept, hit)
        (after_read-hit later ctx_err_later again.zip key (delegate_later again) row _ t
          (answer_of_row-stored clock later.at_read again.zip key v t u d' l))
