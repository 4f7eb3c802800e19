-- ===== src/Banx/Position/Floors.antt =====
-- helpers/banx/resolve.go: what the two floors of ResolveLatLonAt refuse.
use gazetteer.Prelude.{
  ℕ, Bool, true, false, ◌&&◌, ◌||◌, Option, none, some, List, [], ◌∷◌, if◌then◌else◌, ltb, ◌≡◌,
  refl, arith, subst, sym,
}
use gazetteer.Prelude.Bytes.{bytes_eq, bytes_eq→≡}
use gazetteer.Errors.{Result, ok, err}
use gazetteer.Banx.{GeocodeQuery, GeocodeResult}
use gazetteer.Banx.Resolve.{Floating}
use gazetteer.Banx.Resolve.Offers.{answer_of}
use gazetteer.Banx.Position.{
  house_number, is_coarser, judged, locality, municipality, rank, resolve_lat_lon_at, street,
}

-- The granularities that are known, the coarsest first.
abbrev pub known : List (List ℕ)
known = municipality ∷ locality ∷ street ∷ house_number ∷ []

abbrev pub is_one_of : List (List ℕ) → List ℕ → Bool
is_one_of [] q = false
is_one_of (w ∷ ws) q = bytes_eq q w || is_one_of ws q

-- Is the second word in a list somewhere behind the first?
abbrev pub comes_after : List (List ℕ) → List ℕ → List ℕ → Bool
comes_after [] p q = false
comes_after (w ∷ ws) p q = if bytes_eq p w then is_one_of ws q else comes_after ws p q

-- A word is one granularity at most.
bytes_eq-apart :
    (p a b : List ℕ) → bytes_eq a b ≡ false → bytes_eq p a ≡ true → bytes_eq p b ≡ false
bytes_eq-apart p a b h k = subst (λ x. bytes_eq x b ≡ false) (sym (bytes_eq→≡ p a k)) h

apart : (p : List ℕ) → (a b : List ℕ) → bytes_eq a b ≡ false → bytes_eq p a && bytes_eq p b ≡ false
apart p a b h = ground (arith, bytes_eq-apart p a b h)

abbrev rank_by : Bool → Bool → Bool → Bool → ℕ
rank_by m l s h = if m then 1 else if l then 2 else if s then 3 else if h then 4 else 0

abbrev after_by : Bool → Bool → Bool → Bool → Bool → Bool → Bool → Bool
after_by m l s h ql qs qh =
    if m
    then ql || (qs || (qh || false))
    else if l
    then qs || (qh || false)
    else if s
    then qh || false
    else if h
    then false
    else false

by_cases :
    (m l s h qm ql qs qh : Bool)
    → qm && ql ≡ false
    → qm && qs ≡ false
    → qm && qh ≡ false
    → ql && qs ≡ false
    → ql && qh ≡ false
    → qs && qh ≡ false
    → ltb 0 (rank_by m l s h)
        && (ltb 0 (rank_by qm ql qs qh) && ltb (rank_by m l s h) (rank_by qm ql qs qh))
      ≡ after_by m l s h ql qs qh
by_cases m l s h qm ql qs qh a b c d e f = ground (arith, a, b, c, d, e, f)

is_coarser-eq-comes_after : (p q : List ℕ) → is_coarser p q ≡ comes_after known p q
unfolding rank bytes_eq
is_coarser-eq-comes_after p q =
    by_cases (bytes_eq p municipality) (bytes_eq p locality) (bytes_eq p street)
      (bytes_eq p house_number) (bytes_eq q municipality) (bytes_eq q locality) (bytes_eq q street)
      (bytes_eq q house_number) (apart q municipality locality refl)
      (apart q municipality street refl) (apart q municipality house_number refl)
      (apart q locality street refl) (apart q locality house_number refl)
      (apart q street house_number refl)

module _ {Float : Type 0} (n : Floating Float) where
  -- What a caller is given of an answer of the geocoder.
  abbrev pub accepted : List ℕ → Float → Result (GeocodeResult Float) → Option (Float × Float)
  accepted min min_score (err e) = none
  accepted min min_score (ok r) =
      if (n.is_zero r.lat && n.is_zero r.lon)
        || (comes_after known r.precision min
            || (n.is_positive min_score && (n.is_positive r.score && n.lt r.score min_score)))
      then none
      else some (r.lat, r.lon)

  judged-accepted :
      (min : List ℕ) (min_score : Float) (r : Result (GeocodeResult Float))
      → answer_of (judged n min min_score r).1 ≡ accepted min min_score r
  judged-accepted min min_score (err e) = refl
  judged-accepted min min_score (ok r) = ground (arith, is_coarser-eq-comes_after r.precision min)

  -- ResolveLatLonAt with a geocoder answers exactly when the geocoder does and none of three things
  -- holds: both coordinates are 0; the floor stands behind the precision of the answer in the order
  -- municipality, locality, street, housenumber (so an unknown precision or floor refuses nothing);
  -- the floor on the score and the score are above 0, and the score is below the floor. The answer
  -- is the geocoder's own position.
  pub resolve_lat_lon_at-accepted :
      (geocode : GeocodeQuery → Result (GeocodeResult Float)) (q : GeocodeQuery)
      → (min : List ℕ) (min_score : Float)
      → answer_of (resolve_lat_lon_at n (some geocode) q min min_score).1
        ≡ accepted min min_score (geocode q)
  unfolding resolve_lat_lon_at
  resolve_lat_lon_at-accepted geocode q min min_score = judged-accepted min min_score (geocode q)
