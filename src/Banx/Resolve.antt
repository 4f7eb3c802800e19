-- ===== src/Banx/Resolve.antt =====
-- helpers/banx: the resolution of a commune from an address or a position (insee_resolver.go, and
-- ResolveINSEE of resolve.go). A context is not modelled: the geocoder's answer is its own.
pub mod Offers
use gazetteer.Prelude.{
  ℕ, Bool, true, false, ◌&&◌, ◌||◌, not, Option, none, some, List, [], ◌∷◌, str_eq, if◌then◌else◌,
}
use gazetteer.Prelude.Bytes.{is_blank, trim_space}
use gazetteer.Errors.{Err, Node, leaf, wrap, any_node, Result, ok, err}
use gazetteer.Banx.{GeocodeQuery, GeocodeResult}

-- Where an INSEE code comes from.
pub data InseeSource : Type 0 where
  ban_forward ban_reverse : InseeSource

pub record InseeQuery (Float : Type 0) : Type 0 where
  pub address : List ℕ
  pub city : List ℕ
  pub zip : List ℕ
  pub lat : Float
  pub lon : Float

pub record InseeResolution (Float : Type 0) : Type 0 where
  pub insee : List ℕ
  pub lat : Float
  pub lon : Float
  pub precision : List ℕ
  pub source : InseeSource

-- The operations of float64 that the code uses: is a float 0, a <= b, a < b, is a float above 0.
pub record Floating (Float : Type 0) : Type 0 where
  pub is_zero : Float → Bool
  pub is_positive : Float → Bool
  pub le : Float → Float → Bool
  pub lt : Float → Float → Bool
  pub zero : Float
  pub default_score : Float

-- A Geocoder; one that is a ReverseGeocoder too has the second function.
pub record Geocoder (Float : Type 0) : Type 0 where
  pub forward_by : GeocodeQuery → Result (GeocodeResult Float)
  pub reverse_by : Option (Float → Float → Result (GeocodeResult Float))

abbrev pub not_found : Err
not_found = leaf (Node.text "banx: not found")

abbrev is_not_found_node : Node → Bool
is_not_found_node (Node.text s) = str_eq s "banx: not found"
is_not_found_node _ = false

-- errors.Is(err, ErrNotFound)
unfoldable pub is_not_found : Err → Bool
unfolding any_node
is_not_found e = any_node is_not_found_node e

module _ {Float : Type 0} (n : Floating Float) where
  abbrev pub Reverse : Type 0
  Reverse = Option (Float → Float → Result (GeocodeResult Float))

  abbrev pub has_coords : Float → Float → Bool
  has_coords lat lon = not (n.is_zero lat) && not (n.is_zero lon)

  abbrev pub is_trusted : Float → GeocodeResult Float → Bool
  is_trusted min_score r =
      not (is_blank r.city_code)
      && (n.is_zero r.score
          || n.le (if n.is_zero min_score then n.default_score else min_score) r.score)

  abbrev pub of_forward : GeocodeResult Float → InseeResolution Float
  of_forward r = record {
    insee = r.city_code;
    lat = r.lat;
    lon = r.lon;
    precision = r.precision;
    source = InseeSource.ban_forward;
  }

  -- After the reverse geocoder's answer.
  abbrev pub reversed :
      InseeQuery Float → Result (GeocodeResult Float) → Result (InseeResolution Float)
  reversed q (ok r) =
      if is_blank r.city_code
      then err not_found
      else ok record {
        insee = r.city_code;
        lat = q.lat;
        lon = q.lon;
        precision = [];
        source = InseeSource.ban_reverse;
      }
  reversed q (err e) =
      if is_not_found e
      then err not_found
      else err (wrap (Node.context "INSEEResolver: reverse: ") e)

  -- The second step: the position.
  unfoldable pub by_position : Reverse → InseeQuery Float → Result (InseeResolution Float)
  unfolding is_not_found
  by_position none q = err not_found
  by_position (some reverse) q =
      if has_coords q.lat q.lon then reversed q (reverse q.lat q.lon) else err not_found

  abbrev pub can_reverse : Reverse → InseeQuery Float → Bool
  can_reverse none q = false
  can_reverse (some reverse) q = has_coords q.lat q.lon

  -- The first step, after the forward geocoder's answer, and what follows it.
  abbrev pub forwarded :
      Reverse
      → Float
      → InseeQuery Float
      → Result (GeocodeResult Float)
      → Result (InseeResolution Float)
  forwarded reverse min_score q (ok r) =
      if is_trusted min_score r then ok (of_forward r) else by_position reverse q
  forwarded reverse min_score q (err e) =
      if is_not_found e || can_reverse reverse q
      then by_position reverse q
      else err (wrap (Node.context "INSEEResolver: forward: ") e)

  -- Is there an address, a city or a postal code, past blanks?
  abbrev pub has_text : InseeQuery Float → Bool
  has_text q =
      not (is_blank (trim_space q.address))
      || (not (is_blank (trim_space q.city)) || not (is_blank (trim_space q.zip)))

  -- The method Resolve of a resolver: its fields, then the query.
  unfoldable pub resolve :
      Option (GeocodeQuery → Result (GeocodeResult Float))
      → Reverse
      → Float
      → InseeQuery Float
      → Result (InseeResolution Float)
  unfolding by_position is_not_found trim_space
  resolve none reverse min_score q = err (leaf (Node.text "INSEEResolver: nil Forward geocoder"))
  resolve (some forward) reverse min_score q =
      if has_text q
      then forwarded reverse min_score q
          (forward (record { address = q.address; city = q.city; zip = q.zip }))
      else by_position reverse q

  abbrev pub named_source : Result (InseeResolution Float) → Result (List ℕ × InseeSource)
  named_source (err e) = err e
  named_source (ok r) =
      if is_blank r.insee
      then err (leaf (Node.text "no INSEE resolved"))
      else ok (r.insee, r.source)

  -- ResolveINSEE
  unfoldable pub resolve_insee :
      Option (Geocoder Float) → InseeQuery Float → Result (List ℕ × InseeSource)
  unfolding resolve
  resolve_insee none q = err (leaf (Node.text "no geocoder configured"))
  resolve_insee (some g) q =
      if (not (is_blank q.address) || (not (is_blank q.city) || not (is_blank q.zip)))
        || has_coords q.lat q.lon
      then named_source (resolve (some g.forward_by) g.reverse_by n.zero q)
      else err (leaf (Node.text "no address/city/zip + no coords"))
