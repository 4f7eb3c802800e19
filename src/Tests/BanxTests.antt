-- ===== src/Tests/BanxTests.antt =====
-- The cached geocoder over the memcache, and the postal codes, at concrete queries. The encoding
-- of a result puts the length before each string.
use gazetteer.Prelude.{
  ℕ, zero, suc, String, true, Option, none, some, List, [], ◌∷◌, ◌++◌, ◌≡◌, refl, length, and_then,
  ap, subst, AllSome,
}
use gazetteer.Prelude.Bytes.{bytes_eq, trim_space, trim_front, reverse_onto}
use gazetteer.Errors.{Result, ok}
use gazetteer.Communes.{CpStore, resolve_insee, fold_arrondissement, zip_matches_insee}
use gazetteer.Communes.Arrondissements.{is_well_formed, resolve_insee-folds}
use gazetteer.Memcache.{new, get}
use gazetteer.Kvcache.Memory.{memory, memory-IsLawful, new-AllRows}
use gazetteer.Banx.{Clock, GeocodeQuery, GeocodeResult, geocode, is_coherent, zips_share_department}
use gazetteer.Banx.Guard.{geocode-eq-uncached, geocode-is_in_department, is_in_department, uncached}
use gazetteer.Banx.Trace.{
  Visit, after, after-AllRows, backward, forward, geocode-asks_once, is_coherent_row,
}
use gazetteer.Banx.Zips.{department, zips_share_department-eq-departments}

abbrev put : List ℕ → List ℕ → List ℕ
put xs rest = length xs ∷ (xs ++ rest)

abbrev split : ℕ → List ℕ → Option (List ℕ × List ℕ)
split zero s = some ([], s)
split (suc n) [] = none
split (suc n) (x ∷ s) = and_then (split n s) (λ p. some (x ∷ p.0, p.1))

abbrev take_text : List ℕ → Option (List ℕ × List ℕ)
take_text [] = none
take_text (n ∷ s) = split n s

split-append : (xs rest : List ℕ) → split (length xs) (xs ++ rest) ≡ some (xs, rest)
split-append [] rest = refl
split-append (x ∷ xs) rest =
    ap (λ o. and_then o (λ (p : List ℕ × List ℕ). some (x ∷ p.0, p.1))) (split-append xs rest)

abbrev stamp : Option ℕ → ℕ
stamp none = 0
stamp (some t) = suc t

abbrev of_stamp : ℕ → Option ℕ
of_stamp zero = none
of_stamp (suc t) = some t

of_stamp-stamp : (o : Option ℕ) → of_stamp (stamp o) ≡ o
of_stamp-stamp none = refl
of_stamp-stamp (some t) = refl

abbrev texts : GeocodeResult ℕ → List ℕ
texts r = put r.label (put r.precision (put r.city_code (put r.post_code (put r.source []))))

abbrev marshal : GeocodeResult ℕ → Option (List ℕ)
marshal r = some (r.lat ∷ r.lon ∷ r.score ∷ stamp r.fetched_at ∷ texts r)

abbrev read_texts : ℕ → ℕ → ℕ → ℕ → List ℕ → Option (GeocodeResult ℕ)
read_texts lat lon score t s = and_then (take_text s) (λ a. and_then (take_text a.1) (λ b.
    and_then (take_text b.1) (λ c. and_then (take_text c.1) (λ d. and_then (take_text d.1) (λ e.
      some record {
        lat = lat;
        lon = lon;
        label = a.0;
        score = score;
        precision = b.0;
        city_code = c.0;
        post_code = d.0;
        source = e.0;
        fetched_at = of_stamp t;
      })))))

abbrev unmarshal : List ℕ → Option (GeocodeResult ℕ)
unmarshal (lat ∷ lon ∷ score ∷ t ∷ s) = read_texts lat lon score t s
unmarshal _ = none

unmarshal-marshal :
    (r : GeocodeResult ℕ)
    → unmarshal (r.lat ∷ r.lon ∷ r.score ∷ stamp r.fetched_at ∷ texts r) ≡ some r
unmarshal-marshal r =
    rw (of_stamp-stamp, split-append, split-append, split-append, split-append, split-append) refl

faithful : (r : GeocodeResult ℕ) (v : List ℕ) → marshal r ≡ some v → unmarshal v ≡ some r
faithful r v h =
    subst (λ (o : Option (List ℕ)). AllSome (λ v. unmarshal v ≡ some r) o) h (unmarshal-marshal r)

-- "75011", "75111" and "97133"
abbrev zip_paris : List ℕ
zip_paris = b'7' ∷ b'5' ∷ b'0' ∷ b'1' ∷ b'1' ∷ []

abbrev insee_paris : List ℕ
insee_paris = b'7' ∷ b'5' ∷ b'1' ∷ b'1' ∷ b'1' ∷ []

abbrev zip_island : List ℕ
zip_island = b'9' ∷ b'7' ∷ b'1' ∷ b'3' ∷ b'3' ∷ []

abbrev result : List ℕ → GeocodeResult ℕ
result post = record {
  lat = 48;
  lon = 2;
  label = b'L' ∷ [];
  score = 1;
  precision = [];
  city_code = insee_paris;
  post_code = post;
  source = [];
  fetched_at = none;
}

abbrev query : List ℕ → GeocodeQuery
query zip = record { address = b'A' ∷ []; city = []; zip = zip }

abbrev key : GeocodeQuery → String
key q = "k"

abbrev reverse_key : ℕ → ℕ → String
reverse_key lat lon = "r"

abbrev clock : ℕ → Clock
clock t = record { at_read = t; at_answer = t; at_expiry = t; at_store = t }

abbrev some_table : Option CpStore
some_table = some record { primary = λ i. some zip_paris; alts = λ i. [] }

abbrev answers : List ℕ → GeocodeQuery → Result (GeocodeResult ℕ)
answers post q = ok (result post)

-- A malformed postal code, "1300:", is an arrondissement that is no code, "1320:".
malformed_zip :
    resolve_insee none [] (b'1' ∷ b'3' ∷ b'0' ∷ b'0' ∷ b':' ∷ [])
    ≡ some (b'1' ∷ b'3' ∷ b'2' ∷ b'0' ∷ b':' ∷ [])
unfolding resolve_insee trim_space trim_front reverse_onto
malformed_zip = refl

resolve_insee-folds_test :
    (fold_arrondissement insee_paris ≡ b'7' ∷ b'5' ∷ b'0' ∷ b'5' ∷ b'6' ∷ [])
    × (is_well_formed (trim_space zip_paris) insee_paris ≡ true)
unfolding resolve_insee trim_space trim_front reverse_onto
resolve_insee-folds_test = resolve_insee-folds [] zip_paris insee_paris refl

zips_share_department-eq-departments_example :
    zips_share_department zip_island (b'9' ∷ b'7' ∷ b'1' ∷ b'1' ∷ b'0' ∷ [])
    ≡ bytes_eq (department zip_island) (department (b'9' ∷ b'7' ∷ b'1' ∷ b'1' ∷ b'0' ∷ []))
zips_share_department-eq-departments_example =
    zips_share_department-eq-departments zip_island (b'9' ∷ b'7' ∷ b'1' ∷ b'1' ∷ b'0' ∷ []) refl
      refl

geocode-is_in_department_example :
    is_in_department zip_paris
      (geocode ℕ unmarshal marshal some_table memory 9 key
        (answers zip_island)
        (clock 5)
        none
        (query zip_paris)
        (new none)).0
    ≡ true
geocode-is_in_department_example =
    geocode-is_in_department ℕ unmarshal marshal some_table memory 9 key (answers zip_island)
      (clock 5) none (query zip_paris) (new none)

geocode-eq-uncached_example :
    (geocode ℕ unmarshal marshal some_table memory 9 key
      (answers zip_island)
      (clock 5)
      none
      (query zip_paris)
      (new none)).0
    ≡ uncached 5 zip_paris (ok (result zip_island))
unfolding new get
geocode-eq-uncached_example =
    geocode-eq-uncached ℕ unmarshal marshal some_table memory 9 key (answers zip_island) (clock 5)
      none (query zip_paris) (new none) refl

abbrev visits : List (Visit ℕ)
visits =
    record {
      call = forward (query zip_paris);
      clock = clock 1;
      ctx_err = none;
      reply = ok (result zip_paris);
    }
    ∷ record {
      call = backward 48 2;
      clock = clock 2;
      ctx_err = none;
      reply = ok (result zip_island);
    }
    ∷ []

after-AllRows_example :
    memory-IsLawful.AllRows
      (is_coherent_row ℕ unmarshal marshal some_table memory 9 key reverse_key)
      (after ℕ unmarshal marshal some_table memory 9 key reverse_key visits (new none))
unfolding new
after-AllRows_example =
    after-AllRows ℕ unmarshal marshal some_table memory 9 key reverse_key memory-IsLawful faithful
      visits (new none)
      (new-AllRows (is_coherent_row ℕ unmarshal marshal some_table memory 9 key reverse_key) none)

abbrev stamped_result : GeocodeResult ℕ
stamped_result = record (result zip_paris) { fetched_at = some 5 }

geocode-asks_once_example :
    (geocode ℕ unmarshal marshal some_table memory 9 key
      (answers zip_island)
      (clock 13)
      none
      (query zip_paris)
      (geocode ℕ unmarshal marshal some_table memory 9 key
        (answers zip_paris)
        (clock 5)
        none
        (query zip_paris)
        (new none)).1).0
    ≡ ok stamped_result
unfolding new get zips_share_department is_coherent zip_matches_insee fold_arrondissement trim_space
    trim_front reverse_onto bytes_eq
geocode-asks_once_example =
    geocode-asks_once ℕ unmarshal marshal some_table memory 9 key reverse_key memory-IsLawful
      (query zip_paris) (query zip_paris) (answers zip_paris) (answers zip_island) (clock 5)
      (clock 13) none none (result zip_paris) (48 ∷ 2 ∷ 1 ∷ 6 ∷ texts (result zip_paris)) (new none)
      refl refl refl refl refl refl refl refl refl refl
