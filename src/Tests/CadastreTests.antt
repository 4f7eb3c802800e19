-- ===== src/Tests/CadastreTests.antt =====
-- The cache of building footprints, at concrete calls. A footprint is a number.
use gazetteer.Prelude.{
  ℕ, String, true, false, none, some, List, [], ◌∷◌, ◌≡◌, refl, str_eq, if◌then◌else◌,
}
use gazetteer.Prelude.Int.{pos}
use gazetteer.Prelude.Names.{drop}
use gazetteer.Errors.{Node, leaf, Result, ok, err}
use gazetteer.Cadastre.{BatiDump, Call, put, resolve_bati_polygons, unused}
use gazetteer.Cadastre.Names.{take}
use gazetteer.Cadastre.Served.{Event, after, asked, landing, resolve_bati_polygons-after}

abbrev dump : String → Result (BatiDump ℕ)
dump k =
    if str_eq k "99999"
    then err (leaf (Node.text "cadastre: bati"))
    else ok record { polygons = 4 ∷ 2 ∷ []; raw_count = 3 }

abbrev asks : String → Call
asks k = record { insee = k; ctx_err = none }

-- With room for two communes: flights of A and B land, A is asked again, a flight is cut by its
-- deadline, one fails, and C lands, which evicts B.
abbrev events : List Event
events =
    asked (asks "01001")
    ∷ landing "01001" none
    ∷ landing "01002" none
    ∷ asked (asks "01001")
    ∷ landing "01004" (some (leaf Node.deadline_exceeded))
    ∷ landing "99999" none
    ∷ landing "01003" none
    ∷ []

resolve_bati_polygons-after_example :
    (resolve_bati_polygons (asks "01001") (dump "01001") (after dump events (unused (pos 2)))).0
    ≡ ok record { polys = 4 ∷ 2 ∷ []; raw_count = 2; cached = true }
unfolding drop take
resolve_bati_polygons-after_example =
    resolve_bati_polygons-after dump (pos 2) events (asks "01001") (dump "01001")

evicted_test :
    (resolve_bati_polygons (asks "01002") (dump "01002") (after dump events (unused (pos 2)))).0
    ≡ ok record { polys = 4 ∷ 2 ∷ []; raw_count = 3; cached = false }
unfolding resolve_bati_polygons put
evicted_test = refl

-- A flight that has not landed serves nobody else.
in_flight_test :
    (resolve_bati_polygons
      (asks "01001")
      (dump "01001")
      (after dump (asked (asks "01001") ∷ []) (unused (pos 2)))).0
    ≡ ok record { polys = 4 ∷ 2 ∷ []; raw_count = 3; cached = false }
unfolding resolve_bati_polygons
in_flight_test = refl
