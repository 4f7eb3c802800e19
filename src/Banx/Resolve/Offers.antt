-- ===== src/Banx/Resolve/Offers.antt =====
-- helpers/banx/insee_resolver.go and resolve.go: the cascade as a preference among offers.
use gazetteer.Prelude.{
  ℕ, true, false, ◌&&◌, ◌||◌, not, Option, none, some, List, [], ◌∷◌, if◌then◌else◌, ◌≡◌, refl,
  arith,
}
use gazetteer.Prelude.Bytes.{is_blank, trim_space}
use gazetteer.Errors.{Result, ok, err}
use gazetteer.Banx.{GeocodeResult}
use gazetteer.Banx.Resolve.{
  Floating, Geocoder, InseeQuery, InseeSource, Reverse, by_position, forwarded, named_source,
  resolve, resolve_insee, reversed,
}

abbrev pub answer_of : {A : Type 0} → Result A → Option A
answer_of (ok a) = some a
answer_of (err e) = none

abbrev pub first_of : {A : Type 0} → Option A → Option A → Option A
first_of none o = o
first_of (some a) o = some a

-- A commune: its code, and the source that names it.
abbrev pub Commune : Type 0
Commune = List ℕ × InseeSource

trim_space-blank : (s : List ℕ) → is_blank s ≡ true → is_blank (trim_space s) ≡ true
unfolding trim_space
trim_space-blank [] h = refl
trim_space-blank (x ∷ s) h = ground (arith, h)

module _ {Float : Type 0} (n : Floating Float) where
  -- What the address offers: a code that is there, with no score or one that is high enough.
  abbrev pub forward_offer : Result (GeocodeResult Float) → Option Commune
  forward_offer (err e) = none
  forward_offer (ok r) =
      if is_blank r.city_code || (not (n.is_zero r.score) && not (n.le n.default_score r.score))
      then none
      else some (r.city_code, InseeSource.ban_forward)

  -- What the position offers: a code that is there.
  abbrev pub reverse_offer : Result (GeocodeResult Float) → Option Commune
  reverse_offer (err e) = none
  reverse_offer (ok r) =
      if is_blank r.city_code then none else some (r.city_code, InseeSource.ban_reverse)

  abbrev pub position_offer : Reverse n → Float → Float → Option Commune
  position_offer none lat lon = none
  position_offer (some reverse) lat lon =
      if n.is_zero lat || n.is_zero lon then none else reverse_offer (reverse lat lon)

  -- The address is asked when it has more than blanks.
  abbrev pub address_offer : Geocoder Float → InseeQuery Float → Option Commune
  address_offer g q =
      if is_blank (trim_space q.address)
        && (is_blank (trim_space q.city) && is_blank (trim_space q.zip))
      then none
      else forward_offer (g.forward_by record { address = q.address; city = q.city; zip = q.zip })

  reversed-offer :
      (q : InseeQuery Float) (r : Result (GeocodeResult Float))
      → answer_of (named_source n (reversed n q r)) ≡ reverse_offer r
  reversed-offer q (ok r) = ground arith
  reversed-offer q (err e) = ground arith

  by_position-offer :
      (reverse : Reverse n) (q : InseeQuery Float)
      → answer_of (named_source n (by_position n reverse q)) ≡ position_offer reverse q.lat q.lon
  unfolding by_position
  by_position-offer none q = refl
  by_position-offer (some reverse) q = ground (arith, reversed-offer q (reverse q.lat q.lon))

  -- The threshold that an unset field stands for.
  forwarded-offer :
      n.is_zero n.zero ≡ true
      → (reverse : Reverse n) (q : InseeQuery Float) → (r : Result (GeocodeResult Float))
      → answer_of (named_source n (forwarded n reverse n.zero q r))
        ≡ first_of (forward_offer r) (position_offer reverse q.lat q.lon)
  forwarded-offer unset reverse q (ok r) = ground (arith, unset, by_position-offer reverse q)
  forwarded-offer unset none q (err e) = ground (arith, by_position-offer none q)
  forwarded-offer unset (some reverse) q (err e) =
      ground (arith, by_position-offer (some reverse) q)

  resolve-offer :
      n.is_zero n.zero ≡ true
      → (g : Geocoder Float) (q : InseeQuery Float)
      → answer_of (named_source n (resolve n (some g.forward_by) g.reverse_by n.zero q))
        ≡ first_of (address_offer g q) (position_offer g.reverse_by q.lat q.lon)
  unfolding resolve
  resolve-offer unset g q = ground (
    arith,
    by_position-offer g.reverse_by q,
    forwarded-offer unset g.reverse_by q
        (g.forward_by record { address = q.address; city = q.city; zip = q.zip }),
  )

  position_offer-needs_coords :
      (reverse : Reverse n) (lat lon : Float)
      → (not (n.is_zero lat) && not (n.is_zero lon)) ≡ false
      → position_offer reverse lat lon ≡ none
  position_offer-needs_coords none lat lon h = refl
  position_offer-needs_coords (some reverse) lat lon h = ground arith

  address_offer-blank :
      (g : Geocoder Float) (q : InseeQuery Float)
      → (is_blank q.address && (is_blank q.city && is_blank q.zip)) ≡ true
      → address_offer g q ≡ none
  address_offer-blank g q h =
      ground (arith, h, trim_space-blank q.address, trim_space-blank q.city, trim_space-blank q.zip)

  -- ResolveINSEE over any geocoder g, when the zero of float64 is a zero: it answers the commune
  -- that the address offers (a code that is not empty, of a result with no score or a score of at
  -- least the default threshold) or, failing that, the one that the position offers (when both of
  -- its coordinates are not 0 and g can reverse), with the source named, and it errs when neither
  -- offers one. An error of the forward geocoder never hides what the position offers.
  pub resolve_insee-offer :
      n.is_zero n.zero ≡ true
      → (g : Geocoder Float) (q : InseeQuery Float)
      → answer_of (resolve_insee n (some g) q)
        ≡ first_of (address_offer g q) (position_offer g.reverse_by q.lat q.lon)
  unfolding resolve_insee
  resolve_insee-offer unset g q = ground (
    arith,
    resolve-offer unset g q,
    address_offer-blank g q,
    position_offer-needs_coords g.reverse_by q.lat q.lon,
  )
