-- ===== src/Tests/CacheTests.antt =====
-- The disk cache of HTTP answers at concrete requests.
use gazetteer.Prelude.{
  ℕ, ◌*◌, String, Bool, true, Option, none, some, List, [], ◌∷◌, ◌≡◌, refl, length,
}
use gazetteer.Prelude.Int.{ℤ, pos, negsuc}
use gazetteer.Prelude.Dict.{lookup}
use gazetteer.Errors.{Result, ok}
use gazetteer.Httpx.Cache.{
  Answer, CacheMeta, CacheRequest, Disk, Header, Sent, passes_by, read_entry, round_trip, second,
  compute_expiry, forward, persist, is_kept, carries_credentials, is_storable, is_status_cacheable,
  directive,
}
use gazetteer.Httpx.Cache.Clean.{Visit, after, after-clean, are_clean}
use gazetteer.Httpx.Cache.Expiry.{compute_expiry-exact}
use gazetteer.Httpx.Cache.Others.{after-others, files}
use gazetteer.Httpx.Cache.Reuse.{no_faults, round_trip-reuse}
use gazetteer.Httpx.Cache.Revalidate.{round_trip-asks, round_trip-not_banked}

abbrev header_for : Option ℤ → Header
header_for age = record {
  directives = ("public", none) ∷ ("max-age", age) ∷ [];
  vary = "Accept" ∷ [];
  expires = none;
  etag = "v1";
  last_modified = "";
}

abbrev asking : String → Bool → CacheRequest
asking hash secret = record {
  method = "GET";
  host = "h";
  hash = hash;
  bypass = Bool.false;
  has_userinfo = Bool.false;
  has_credential_header = secret;
}

abbrev answer : ℕ → Answer
answer code = record {
  status_code = code;
  header = header_for (some (pos 600));
  body = 1 ∷ 2 ∷ [];
  read_error = none;
}

abbrev replies : ℕ → Sent → Result Answer
replies code s = ok (answer code)

abbrev no_ttl : String → ℕ
no_ttl host = 0

abbrev empty_disk : Disk
empty_disk = record { metas = []; bodies = [] }

abbrev visit_of : String → Bool → ℕ → Visit
visit_of hash secret code = record {
  request = asking hash secret;
  now = 5 * second;
  next = replies code;
  faults = no_faults;
}

abbrev old_meta : CacheMeta
old_meta = record {
  method = "GET";
  status = 200;
  header = header_for none;
  fetched_at = pos 1;
  expires_at = pos 2;
  body_len = 1;
}

abbrev old_disk : Disk
old_disk = record { metas = ("k", some old_meta) ∷ []; bodies = ("k", 7 ∷ []) ∷ [] }

abbrev some_visits : List Visit
some_visits = visit_of "a" Bool.false 200 ∷ visit_of "k" true 200 ∷ visit_of "b" Bool.false 500 ∷ []

expiry : compute_expiry (header_for (some (pos 600))) (5 * second) 0 ≡ pos 605
unfolding compute_expiry directive
expiry = refl

-- One second more than a time.Duration can hold wraps to a lifetime that ended 292 years ago.
expiry_wraps :
    compute_expiry (header_for (some (pos 9223372037))) (5 * second) 0 ≡ negsuc 9223372031
unfolding compute_expiry directive
expiry_wraps = refl

compute_expiry-exact_test : compute_expiry (header_for (some (pos 600))) (5 * second) 7 ≡ pos 605
unfolding directive
compute_expiry-exact_test =
    compute_expiry-exact (header_for (some (pos 600))) (5 * second) 600 7 refl refl refl refl

after-clean_example : are_clean (after 100 no_ttl some_visits old_disk).metas ≡ true
unfolding is_status_cacheable is_storable directive
after-clean_example = after-clean 100 no_ttl some_visits old_disk refl

after-others_example :
    files "k" (after 100 no_ttl some_visits old_disk) ≡ (some (some old_meta), some (7 ∷ []))
unfolding lookup passes_by carries_credentials
after-others_example = after-others 100 no_ttl some_visits old_disk "k" refl

round_trip-reuse_example :
    round_trip 100 no_ttl (replies 500) no_faults (asking "k" Bool.false) (600 * second) (
      after 100 no_ttl some_visits
        (round_trip 100 no_ttl
          (replies 200)
          no_faults
          (asking "k" Bool.false)
          (5 * second)
          empty_disk).disk)
    ≡ record {
      outcome = ok record {
        status_code = 200;
        header = header_for (some (pos 600));
        body = 1 ∷ 2 ∷ [];
        from_cache = true;
      };
      disk =
          after 100 no_ttl some_visits
            (round_trip 100 no_ttl
              (replies 200)
              no_faults
              (asking "k" Bool.false)
              (5 * second)
              empty_disk).disk;
      sent = [];
    }
unfolding passes_by carries_credentials read_entry lookup is_kept is_storable is_status_cacheable
    directive compute_expiry
round_trip-reuse_example =
    round_trip-reuse 100 no_ttl (asking "k" Bool.false) (asking "k" Bool.false) (5 * second)
      (600 * second) (answer 200) empty_disk (replies 200) (replies 500) no_faults some_visits refl
      refl refl refl refl refl refl refl

round_trip-asks_example :
    length
      (round_trip 100 no_ttl
        (replies 200)
        no_faults
        (asking "k" Bool.false)
        (5 * second)
        old_disk).sent
    ≡ 1
unfolding passes_by carries_credentials lookup
round_trip-asks_example =
    round_trip-asks 100 no_ttl (replies 200) no_faults (asking "k" Bool.false) (5 * second) old_disk

round_trip-not_banked_example :
    (round_trip 100 no_ttl
      (replies 500)
      no_faults
      (asking "k" Bool.false)
      (5 * second)
      old_disk).disk
    ≡ old_disk
unfolding is_status_cacheable is_storable directive round_trip forward persist passes_by
    carries_credentials read_entry lookup is_kept
round_trip-not_banked_example =
    round_trip-not_banked 100 no_ttl (replies 500) no_faults (asking "k" Bool.false) (5 * second)
      old_disk refl refl
