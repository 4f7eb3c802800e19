-- ===== src/Banx.antt =====
-- helpers/banx: the cached geocoder (cache.go) and the tests on postal codes that guard it
-- (dept.go and ZipsShareDepartment of geocode.go). Strings are lists of bytes. Parameters: the
-- type of a float64, what encoding/json writes and reads of a result, the keys of CacheKey and
-- ReverseCacheKey, the embedded postal codes, the cache and the geocoder that is asked.
pub mod Zips
pub mod Guard
pub mod Position
pub mod Resolve
pub mod Trace
use gazetteer.Prelude.{
  ℕ, zero, suc, ◌+◌, ◌*◌, String, Bool, true, false, ◌&&◌, ◌||◌, not, Option, none, some, List, [],
  ◌∷◌, ltb, ◌==◌, if◌then◌else◌, and_then,
}
use gazetteer.Prelude.Bytes.{bytes_eq, is_blank, trim_space}
use gazetteer.Errors.{Err, Node, leaf, Result, ok, err}
use gazetteer.Communes.{CpStore, is_five_digit_zip, zip_matches_insee}
use gazetteer.Memcache.{Entry}
use gazetteer.Kvcache.{KvCache, Read, found, missing, failed}

-- The digits of the two codes that saintMartinBarthZips holds.
abbrev pub zip_saint_barthelemy : List ℕ
zip_saint_barthelemy = b'9' ∷ b'7' ∷ b'1' ∷ b'3' ∷ b'3' ∷ []

abbrev pub zip_saint_martin : List ℕ
zip_saint_martin = b'9' ∷ b'7' ∷ b'1' ∷ b'5' ∷ b'0' ∷ []

abbrev pub prefix_key : List ℕ → List ℕ
prefix_key (a ∷ b ∷ c ∷ s) =
    if (a == b'9') && ((b == b'7') || (b == b'8')) then a ∷ b ∷ c ∷ [] else a ∷ b ∷ []
prefix_key s = s

unfoldable pub dept_match_key : List ℕ → List ℕ
unfolding bytes_eq
dept_match_key zip =
    if not (is_five_digit_zip zip)
    then zip
    else if bytes_eq zip zip_saint_barthelemy
    then b'9' ∷ b'7' ∷ b'7' ∷ []
    else if bytes_eq zip zip_saint_martin
    then b'9' ∷ b'7' ∷ b'8' ∷ []
    else prefix_key zip

-- ZipsShareDepartment
unfoldable pub zips_share_department : List ℕ → List ℕ → Bool
unfolding dept_match_key bytes_eq trim_space
zips_share_department a b =
    let s = trim_space a in
    let t = trim_space b in
    if is_blank s || is_blank t
    then true
    else if bytes_eq s t
    then true
    else bytes_eq (dept_match_key s) (dept_match_key t)

pub record GeocodeQuery : Type 0 where
  pub address : List ℕ
  pub city : List ℕ
  pub zip : List ℕ

-- The zero FetchedAt is `none`.
pub record GeocodeResult (Float : Type 0) : Type 0 where
  pub lat : Float
  pub lon : Float
  pub label : List ℕ
  pub score : Float
  pub precision : List ℕ
  pub city_code : List ℕ
  pub post_code : List ℕ
  pub source : List ℕ
  pub fetched_at : Option ℕ

abbrev pub is_overseas : ℕ → ℕ → Bool
is_overseas a b = (a == b'9') && ((b == b'7') || (b == b'8'))

-- Do the first two characters of an INSEE code and of a postal code agree?
abbrev pub prefixes_agree : List ℕ → List ℕ → Bool
prefixes_agree (a ∷ b ∷ s) (c ∷ d ∷ t) =
    ((a == c) && (b == d))
    || (((a == b'2') && ((b == b'A') || (b == b'B')) && ((c == b'2') && (d == b'0')))
        || (is_overseas a b && is_overseas c d))
prefixes_agree _ _ = true

-- Is a code shorter than two bytes?
abbrev pub is_short : List ℕ → Bool
is_short (a ∷ b ∷ s) = false
is_short _ = true

-- validateCoherence returns nil.
unfoldable pub is_coherent : Option CpStore → List ℕ → List ℕ → Bool
unfolding zip_matches_insee
is_coherent table city_code post_code =
    if is_short city_code || is_short post_code
    then true
    else elim (zip_matches_insee table city_code post_code) [
      | some match ↦ match
      | none ↦ prefixes_agree city_code post_code
    ]

-- The four readings of the clock in one call, in order.
pub record Clock : Type 0 where
  pub at_read : ℕ
  pub at_answer : ℕ
  pub at_expiry : ℕ
  pub at_store : ℕ

abbrev pub default_ttl : ℕ
default_ttl = 365 * 24 * 3600 * 1000000000

-- NewCachedGeocoder: a lifetime of 0 is a year.
abbrev pub effective_ttl : ℕ → ℕ
effective_ttl ttl = if ttl == 0 then default_ttl else ttl

abbrev pub department_mismatch : Err
department_mismatch =
    leaf (Node.text "banx: BAN returned a candidate outside the input zip's département")

-- Has a row not expired at the time?
abbrev pub is_unexpired : ℕ → Entry → Bool
is_unexpired now row = elim row.expires_at [ none ↦ true | some t ↦ ltb now t ]

module _ {Float : Type 0} where
  -- Is there a zip in the query that the result's postal code is in another département than?
  abbrev pub is_drifted : List ℕ → GeocodeResult Float → Bool
  is_drifted zip r =
      let input = trim_space zip in
      not (is_blank input)
      && (not (is_blank r.post_code) && not (zips_share_department input r.post_code))

  abbrev pub undrifted : List ℕ → GeocodeResult Float → Option (GeocodeResult Float)
  undrifted zip r = if is_drifted zip r then none else some r

  -- What a row answers, if it does.
  unfoldable pub answer_of_row :
      (List ℕ → Option (GeocodeResult Float)) → ℕ → List ℕ → Entry → Option (GeocodeResult Float)
  unfolding zips_share_department
  answer_of_row unmarshal now zip row =
      if is_unexpired now row then and_then (unmarshal row.value) (undrifted zip) else none

  abbrev pub with_fetched_at : ℕ → GeocodeResult Float → GeocodeResult Float
  with_fetched_at now r = elim r.fetched_at [
    | none ↦ record r { fetched_at = some now }
    | some t ↦ r
  ]

-- readFailed: the caller's own context ends the call, and any other failure is a miss.
unfoldable pub read_failed : Option Err → Option Err
read_failed ctx_err = ctx_err

module _ (Float : Type 0) (unmarshal : List ℕ → Option (GeocodeResult Float))
    (marshal : GeocodeResult Float → Option (List ℕ)) (table : Option CpStore) (K : KvCache)
    (ttl : ℕ) where
  abbrev pub row_of : Clock → String → List ℕ → Entry
  row_of clock key value = record {
    key = key;
    value = value;
    fetched_at = some clock.at_store;
    expires_at = some (clock.at_expiry + ttl);
  }

  -- store: a failure is only logged.
  unfoldable pub store : Clock → String → GeocodeResult Float → K.State → K.State
  store clock key r s = elim (marshal r) [
    | none ↦ s
    | some value ↦ (K.set clock.at_store (row_of clock key value) s).1
  ]

  -- A result that was asked for, with FetchedAt filled in.
  abbrev pub admit :
      Clock
      → List ℕ
      → String
      → GeocodeResult Float
      → K.State
      → Result (GeocodeResult Float) × K.State
  admit clock zip key r s =
      if is_drifted zip r
      then (err department_mismatch, s)
      else if is_coherent table r.city_code r.post_code
      then (ok r, store clock key r s)
      else (ok r, s)

  unfoldable pub ask :
      Clock
      → List ℕ
      → String
      → Result (GeocodeResult Float)
      → K.State
      → Result (GeocodeResult Float) × K.State
  unfolding zips_share_department is_coherent store
  ask clock zip key (err e) s = (err e, s)
  ask clock zip key (ok r) s = admit clock zip key (with_fetched_at clock.at_answer r) s

  abbrev pub after_read :
      Clock
      → Option Err
      → List ℕ
      → String
      → Result (GeocodeResult Float)
      → Read
      → K.State
      → Result (GeocodeResult Float) × K.State
  after_read clock ctx_err zip key reply (found row) s =
      elim (answer_of_row unmarshal clock.at_read zip row) [
        | some r ↦ (ok r, s)
        | none ↦ ask clock zip key reply s
      ]
  after_read clock ctx_err zip key reply missing s = ask clock zip key reply s
  after_read clock ctx_err zip key reply (failed e) s = elim (read_failed ctx_err) [
    | some c ↦ (err c, s)
    | none ↦ ask clock zip key reply s
  ]

  -- The shared path of Geocode and Reverse.
  abbrev pub through_cache :
      Clock
      → Option Err
      → List ℕ
      → String
      → Result (GeocodeResult Float)
      → K.State
      → Result (GeocodeResult Float) × K.State
  through_cache clock ctx_err zip key reply s =
      after_read clock ctx_err zip key reply (K.get key s).0 (K.get key s).1

  -- The method Geocode. `ctx_err` is what the context has come to when a read fails.
  unfoldable pub geocode :
      (GeocodeQuery → String)
      → (GeocodeQuery → Result (GeocodeResult Float))
      → Clock
      → Option Err
      → GeocodeQuery
      → K.State
      → Result (GeocodeResult Float) × K.State
  unfolding answer_of_row ask read_failed
  geocode cache_key delegate clock ctx_err q s =
      through_cache clock ctx_err q.zip (cache_key q) (delegate q) s

  -- The method Reverse, of a delegate that may have none. With no zip nothing drifts.
  unfoldable pub reverse :
      (Float → Float → String)
      → Option (Float → Float → Result (GeocodeResult Float))
      → Clock
      → Option Err
      → Float
      → Float
      → K.State
      → Result (GeocodeResult Float) × K.State
  unfolding answer_of_row ask read_failed
  reverse reverse_key none clock ctx_err lat lon s =
      (err (leaf (Node.text "banx: delegate does not implement ReverseGeocoder")), s)
  reverse reverse_key (some delegate) clock ctx_err lat lon s =
      through_cache clock ctx_err [] (reverse_key lat lon) (delegate lat lon) s
