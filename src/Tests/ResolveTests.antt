-- ===== src/Tests/ResolveTests.antt =====
-- The resolution of a commune and of a position, at concrete geocoders. A float is a number.
use gazetteer.Prelude.{ℕ, none, some, List, [], ◌∷◌, ◌==◌, leb, ltb, ◌≡◌, refl}
use gazetteer.Prelude.Bytes.{bytes_eq, trim_space, trim_front, reverse_onto}
use gazetteer.Errors.{ok}
use gazetteer.Banx.{GeocodeResult}
use gazetteer.Banx.Resolve.{Floating, Geocoder, InseeQuery, InseeSource, resolve_insee}
use gazetteer.Banx.Resolve.Offers.{answer_of, resolve_insee-offer}
use gazetteer.Banx.Position.{house_number, rank, resolve_lat_lon_at, street}
use gazetteer.Banx.Position.Floors.{resolve_lat_lon_at-accepted}

abbrev numbers : Floating ℕ
numbers = record {
  is_zero = λ x. x == 0;
  is_positive = λ x. ltb 0 x;
  le = leb;
  lt = ltb;
  zero = 0;
  default_score = 7;
}

abbrev answer : ℕ → List ℕ → GeocodeResult ℕ
answer score code = record {
  lat = 48;
  lon = 2;
  label = [];
  score = score;
  precision = street;
  city_code = code;
  post_code = [];
  source = [];
  fetched_at = none;
}

abbrev query : InseeQuery ℕ
query = record { address = b'A' ∷ []; city = []; zip = []; lat = 48; lon = 2 }

abbrev vague : Geocoder ℕ
vague = record {
  forward_by = λ q. ok (answer 3 (b'1' ∷ []));
  reverse_by = some (λ lat lon. ok (answer 0 (b'2' ∷ [])));
}

resolve_insee-offer_example :
    answer_of (resolve_insee numbers (some vague) query) ≡ some (b'2' ∷ [], InseeSource.ban_reverse)
unfolding trim_space trim_front reverse_onto
resolve_insee-offer_example = resolve_insee-offer numbers refl vague query

resolve_lat_lon_at-accepted_example :
    answer_of
      (resolve_lat_lon_at numbers
        (some (λ q. ok (answer 3 [])))
        (record { address = []; city = []; zip = [] })
        street
        2).1
    ≡ some (48, 2)
unfolding bytes_eq
resolve_lat_lon_at-accepted_example =
    resolve_lat_lon_at-accepted numbers (λ q. ok (answer 3 []))
      (record { address = []; city = []; zip = [] }) street 2

-- A street is no house.
coarse_test :
    answer_of
      (resolve_lat_lon_at numbers
        (some (λ q. ok (answer 3 [])))
        (record { address = []; city = []; zip = [] })
        house_number
        0).1
    ≡ none
unfolding resolve_lat_lon_at rank bytes_eq
coarse_test = refl
