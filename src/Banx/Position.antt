-- ===== src/Banx/Position.antt =====
-- helpers/banx: the position of an address (ResolveLatLonAt and ResolveLatLon of resolve.go) and the
-- granularity that a geocoder matched at (precision.go). A context is not modelled.
pub mod Floors
use gazetteer.Prelude.{
  ℕ, Bool, true, false, ◌&&◌, Option, none, some, List, [], ◌∷◌, ltb, if◌then◌else◌,
}
use gazetteer.Prelude.Bytes.{bytes_eq}
use gazetteer.Errors.{Err, Node, leaf, wrap, Result, ok, err}
use gazetteer.Banx.{GeocodeQuery, GeocodeResult}
use gazetteer.Banx.Resolve.{Floating}

abbrev pub unknown : List ℕ
unknown = []

abbrev pub municipality : List ℕ
municipality =
    b'm' ∷ b'u' ∷ b'n' ∷ b'i' ∷ b'c' ∷ b'i' ∷ b'p' ∷ b'a' ∷ b'l' ∷ b'i' ∷ b't' ∷ b'y' ∷ []

abbrev pub locality : List ℕ
locality = b'l' ∷ b'o' ∷ b'c' ∷ b'a' ∷ b'l' ∷ b'i' ∷ b't' ∷ b'y' ∷ []

abbrev pub street : List ℕ
street = b's' ∷ b't' ∷ b'r' ∷ b'e' ∷ b'e' ∷ b't' ∷ []

abbrev pub house_number : List ℕ
house_number = b'h' ∷ b'o' ∷ b'u' ∷ b's' ∷ b'e' ∷ b'n' ∷ b'u' ∷ b'm' ∷ b'b' ∷ b'e' ∷ b'r' ∷ []

unfoldable pub rank : List ℕ → ℕ
unfolding bytes_eq
rank p =
    if bytes_eq p municipality
    then 1
    else if bytes_eq p locality
    then 2
    else if bytes_eq p street
    then 3
    else if bytes_eq p house_number
    then 4
    else 0

-- CoarserThan
abbrev pub is_coarser : List ℕ → List ℕ → Bool
is_coarser p min = ltb 0 (rank p) && (ltb 0 (rank min) && ltb (rank p) (rank min))

-- The text of ErrCoarseMatch.
abbrev pub coarse_match : Err
coarse_match = leaf (Node.text "banx: geocoder match is coarser than the caller requires")

module _ {Float : Type 0} (n : Floating Float) where
  -- A position that the geocoder found, against the floors. The precision is returned beside it;
  -- what a refusal's message says after ErrCoarseMatch is left out.
  abbrev pub judged :
      List ℕ → Float → Result (GeocodeResult Float) → List ℕ × Result (Float × Float)
  judged min min_score (err e) = (unknown, err e)
  judged min min_score (ok r) =
      if n.is_zero r.lat && n.is_zero r.lon
      then (unknown, err (leaf (Node.text "geocoder returned zero coords")))
      else if is_coarser r.precision min
      then (r.precision, err (wrap (Node.context "") coarse_match))
      else if n.is_positive min_score && (n.is_positive r.score && n.lt r.score min_score)
      then (r.precision, err (wrap (Node.context "") coarse_match))
      else (r.precision, ok (r.lat, r.lon))

  -- ResolveLatLonAt
  unfoldable pub resolve_lat_lon_at :
      Option (GeocodeQuery → Result (GeocodeResult Float))
      → GeocodeQuery
      → List ℕ
      → Float
      → List ℕ × Result (Float × Float)
  unfolding rank
  resolve_lat_lon_at none q min min_score =
      (unknown, err (leaf (Node.text "lat/lon not resolvable (no geocoder configured)")))
  resolve_lat_lon_at (some geocode) q min min_score = judged min min_score (geocode q)

  -- ResolveLatLon
  unfoldable pub resolve_lat_lon :
      Option (GeocodeQuery → Result (GeocodeResult Float)) → GeocodeQuery → Result (Float × Float)
  unfolding resolve_lat_lon_at
  resolve_lat_lon g q = (resolve_lat_lon_at g q unknown n.zero).1
