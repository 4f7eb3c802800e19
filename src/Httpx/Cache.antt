-- ===== src/Httpx/Cache.antt =====
-- helpers/httpx/cache.go: the disk cache of one directory. The two files of an entry are in two
-- dictionaries by the hash of the request; the upstream, the clock and which writes fail are
-- parameters. Headers are read: the directives of Cache-Control after splitting, trimming and
-- lower-casing, with what strconv.Atoi makes of the argument, and Expires after http.ParseTime,
-- in Unix seconds.
pub mod Cases
pub mod Clean
pub mod Expiry
pub mod Others
pub mod Reuse
pub mod Revalidate
use gazetteer.Prelude.{
  ℕ, zero, suc, ◌+◌, ◌*◌, ◌/◌, String, Bool, true, false, ◌&&◌, ◌||◌, not, Option, none, some, List,
  [], ◌∷◌, length, str_eq, ltb, leb, ◌==◌, if◌then◌else◌,
}
use gazetteer.Prelude.Int.{ℤ, pos, negsuc, is_positive}
use gazetteer.Prelude.Int64.{wrap64, add_ℤ}
use gazetteer.Prelude.Dict.{Dict, lookup, insert}
use gazetteer.Errors.{Err, Node, leaf, Result, ok, err}

pub record Header : Type 0 where
  pub directives : List (String × Option ℤ)
  pub vary : List String
  pub expires : Option ℤ
  pub etag : String
  pub last_modified : String

-- `hash` is what requestHash makes of the request.
pub record CacheRequest : Type 0 where
  pub method : String
  pub host : String
  pub hash : String
  pub bypass : Bool
  pub has_userinfo : Bool
  pub has_credential_header : Bool

-- What goes upstream: a blank validator is not sent.
pub record Sent : Type 0 where
  pub request : CacheRequest
  pub if_none_match : String
  pub if_modified_since : String

-- `body` is what arrives before the end or the read error.
pub record Answer : Type 0 where
  pub status_code : ℕ
  pub header : Header
  pub body : List ℕ
  pub read_error : Option Err

-- cacheMeta; the times are Unix seconds, and 0 never expires by itself.
pub record CacheMeta : Type 0 where
  pub method : String
  pub status : ℕ
  pub header : Header
  pub fetched_at : ℤ
  pub expires_at : ℤ
  pub body_len : ℕ

-- The files: a meta file that does not parse is `none`.
pub record Disk : Type 0 where
  pub metas : Dict (Option CacheMeta)
  pub bodies : Dict (List ℕ)

-- Which of the two writes of an entry fail; the directory is made with the first.
pub record Faults : Type 0 where
  pub body_fails : Bool
  pub meta_fails : Bool

pub record Fetched : Type 0 where
  pub status_code : ℕ
  pub header : Header
  pub body : List ℕ
  pub from_cache : Bool

-- What a request comes to: the answer, the disk after it, and what was sent upstream.
pub record Trip : Type 0 where
  pub outcome : Result Fetched
  pub disk : Disk
  pub sent : List Sent

abbrev pub second : ℕ
second = 1000000000

-- The method Unix of a time in nanoseconds.
abbrev pub unix : ℤ → ℤ
unix (pos n) = pos (n / second)
unix (negsuc n) = negsuc (n / second)

unfoldable pub carries_credentials : CacheRequest → Bool
carries_credentials q = q.has_userinfo || q.has_credential_header

-- cacheDirectives: of a name that comes twice the last argument counts.
unfoldable pub directive : String → List (String × Option ℤ) → Option (Option ℤ)
directive name [] = none
directive name (d ∷ ds) = elim (directive name ds) [
  | none ↦ if str_eq d.0 name then some d.1 else none
  | some a ↦ some a
]

abbrev pub has_directive : String → Header → Bool
has_directive name h = elim (directive name h.directives) [ none ↦ false | some a ↦ true ]

abbrev pub varies_on_all : List String → Bool
varies_on_all [] = false
varies_on_all (f ∷ fs) = str_eq f "*" || varies_on_all fs

unfoldable pub is_storable : Header → Bool
unfolding directive
is_storable h = not (has_directive "no-store" h) && not (varies_on_all h.vary)

unfoldable pub is_status_cacheable : ℕ → Bool
is_status_cacheable s = (s == 200) || (s == 203) || (s == 300) || (s == 301) || (s == 308)

-- What is left when no max-age counts: Expires, or the default lifetime.
abbrev pub expiry_without_age : Header → ℕ → ℕ → ℤ
expiry_without_age h now ttl = elim h.expires [
  | some t ↦ t
  | none ↦ if ltb 0 ttl then unix (pos (now + ttl)) else pos 0
]

abbrev pub expiry_of_age : Option (Option ℤ) → Header → ℕ → ℕ → ℤ
expiry_of_age (some (some (pos n))) h now ttl = unix (add_ℤ (pos now) (wrap64 (n * second)))
expiry_of_age _ h now ttl = expiry_without_age h now ttl

unfoldable pub compute_expiry : Header → ℕ → ℕ → ℤ
unfolding directive
compute_expiry h now ttl =
    if has_directive "no-cache" h || has_directive "no-store" h
    then pos 0
    else expiry_of_age (directive "max-age" h.directives) h now ttl

-- readEntry: both files, and a body of the length that the meta file says.
abbrev pub checked_entry : Option (Option CacheMeta) → Option (List ℕ) → Option (CacheMeta × List ℕ)
checked_entry (some (some meta)) (some body) =
    if length body == meta.body_len then some (meta, body) else none
checked_entry _ _ = none

unfoldable pub read_entry : String → Disk → Option (CacheMeta × List ℕ)
read_entry hash d = checked_entry (lookup hash d.metas) (lookup hash d.bodies)

-- Is the entry served without asking?
abbrev pub is_fresh : ℕ → CacheMeta → Bool
is_fresh now meta = elim meta.expires_at [ pos e ↦ ltb (now / second) e | negsuc e ↦ false ]

abbrev pub from_entry : CacheMeta → List ℕ → Fetched
from_entry meta body = record {
  status_code = meta.status;
  header = meta.header;
  body = body;
  from_cache = true;
}

abbrev pub write_meta : Bool → String → CacheMeta → Disk → Disk
write_meta fails hash meta d =
    if fails then d else record { metas = insert hash (some meta) d.metas; bodies = d.bodies }

-- writeEntry: the body, then the meta file.
unfoldable pub write_entry : Faults → String → CacheMeta → List ℕ → Disk → Disk
write_entry faults hash meta body d =
    if faults.body_fails
    then d
    else write_meta faults.meta_fails hash meta
        (record { metas = d.metas; bodies = insert hash body d.bodies })

-- A storable answer with a cacheable status.
unfoldable pub is_kept : Answer → Bool
unfolding is_status_cacheable is_storable
is_kept a = is_status_cacheable a.status_code && is_storable a.header

abbrev pub trip_of : List Sent → Result Fetched × Disk → Trip
trip_of sent r = record { outcome = r.0; disk = r.1; sent = sent }

abbrev pub plain : CacheRequest → Sent
plain q = record { request = q; if_none_match = ""; if_modified_since = "" }

abbrev pub conditional_sent : CacheRequest → CacheMeta → Sent
conditional_sent q meta = record {
  request = q;
  if_none_match = meta.header.etag;
  if_modified_since = meta.header.last_modified;
}

abbrev pub has_validator : CacheMeta → Bool
has_validator meta = not (str_eq meta.header.etag "") || not (str_eq meta.header.last_modified "")

-- An answer that the cache hands through unread.
abbrev pub handed_through : Result Answer → Result Fetched
handed_through (err e) = err e
handed_through (ok a) =
    ok record { status_code = a.status_code; header = a.header; body = a.body; from_cache = false }

abbrev pub is_cacheable_method : String → Bool
is_cacheable_method m = str_eq m "GET" || str_eq m "HEAD"

-- Does the request go past the cache?
unfoldable pub passes_by : CacheRequest → Bool
unfolding carries_credentials
passes_by q = q.bypass || not (is_cacheable_method q.method) || carries_credentials q

-- The fresh hit of an entry, if it is one.
abbrev pub fresh_hit : ℕ → Option (CacheMeta × List ℕ) → Option Fetched
fresh_hit now none = none
fresh_hit now (some e) = if is_fresh now e.0 then some (from_entry e.0 e.1) else none

module _ (limit : ℕ) (ttl_for : String → ℕ) where
  -- A limit of 0 is off.
  abbrev pub is_oversized : List ℕ → Bool
  is_oversized body = ltb 0 limit && ltb limit (length body)

  abbrev pub meta_of : CacheRequest → ℕ → Answer → CacheMeta
  meta_of q now a = record {
    method = q.method;
    status = a.status_code;
    header = a.header;
    fetched_at = unix (pos now);
    expires_at = compute_expiry a.header now (ttl_for q.host);
    body_len = length a.body;
  }

  -- The entry after a 304.
  abbrev pub refreshed : CacheRequest → ℕ → Answer → CacheMeta → CacheMeta
  refreshed q now a meta = record {
    method = meta.method;
    status = meta.status;
    header = meta.header;
    fetched_at = unix (pos now);
    expires_at = compute_expiry a.header now (ttl_for q.host);
    body_len = meta.body_len;
  }

  -- persist: the answer, and the disk after it.
  unfoldable pub persist : Faults → CacheRequest → ℕ → Answer → Disk → Result Fetched × Disk
  unfolding is_kept compute_expiry write_entry
  persist faults q now a d =
      if is_oversized a.body
      then (err (leaf (Node.text "exceeds MaxResponseBytes")), d)
      else elim a.read_error [
        | some e ↦ (err e, d)
        | none ↦ (
          ok record {
            status_code = a.status_code;
            header = a.header;
            body = a.body;
            from_cache = false;
          },
          if is_kept a then write_entry faults q.hash (meta_of q now a) a.body d else d,
        )
      ]

  -- An answer of the upstream to a request without validators.
  abbrev pub unconditional : Faults → CacheRequest → ℕ → Disk → Result Answer → Trip
  unconditional faults q now d (err e) = trip_of (plain q ∷ []) (err e, d)
  unconditional faults q now d (ok a) = trip_of (plain q ∷ []) (persist faults q now a d)

  -- An answer to a request with the validators of an entry.
  abbrev pub conditional :
      Faults → CacheRequest → ℕ → Disk → CacheMeta → List ℕ → Result Answer → Trip
  conditional faults q now d meta body (err e) = trip_of (conditional_sent q meta ∷ []) (err e, d)
  conditional faults q now d meta body (ok a) =
      if a.status_code == 304
      then trip_of (conditional_sent q meta ∷ []) (
        ok (from_entry meta body),
        write_meta faults.meta_fails q.hash (refreshed q now a meta) d,
      )
      else trip_of (conditional_sent q meta ∷ []) (persist faults q now a d)

  module _ (next : Sent → Result Answer) where
    abbrev pub forward_with : Faults → CacheRequest → ℕ → Disk → Option (CacheMeta × List ℕ) → Trip
    forward_with faults q now d none = unconditional faults q now d (next (plain q))
    forward_with faults q now d (some e) =
        if has_validator e.0
        then conditional faults q now d e.0 e.1 (next (conditional_sent q e.0))
        else unconditional faults q now d (next (plain q))

    unfoldable pub forward : Faults → CacheRequest → ℕ → Disk → Trip
    unfolding read_entry persist
    forward faults q now d = forward_with faults q now d (read_entry q.hash d)

    -- The method RoundTrip at a time.
    unfoldable pub round_trip : Faults → CacheRequest → ℕ → Disk → Trip
    unfolding forward passes_by
    round_trip faults q now d =
        if passes_by q
        then trip_of (plain q ∷ []) (handed_through (next (plain q)), d)
        else elim (fresh_hit now (read_entry q.hash d)) [
          | some f ↦ trip_of [] (ok f, d)
          | none ↦ forward faults q now d
        ]
