-- ===== src/Cadastre.antt =====
-- sources/cadastre: the cache of building footprints (DefaultBatiCache of cache.go) and its use by
-- resolveBatiPolygons (bati.go). The mutex makes each method one step. A call looks at the cache
-- and, on a miss, joins or starts the flight of its commune, which stores what it fetched when it
-- lands: at any later time, and after a caller has gone too. A
-- *list.Element is addressed by the commune of its row: the map is the list of its keys, none when
-- it is nil, and the recency list holds the rows, the most recent first. Parameters: the footprint
-- of a building, and the fetch of a commune's dump with the parse of its body.

pub mod Calls
pub mod Lru
pub mod Names
pub mod Recency
pub mod Served
use gazetteer.Prelude.{
  ℕ, zero, suc, String, Bool, true, false, Option, none, some, List, [], ◌∷◌, length, leb, str_eq,
  if◌then◌else◌,
}
use gazetteer.Prelude.Names.{holds, drop}
use gazetteer.Prelude.Int.{ℤ, pos, negsuc}
use gazetteer.Errors.{Err, Result, ok, err}

-- What a fetch yields: the buildings, and the features before the malformed ones were left out.
pub record BatiDump (Polygon : Type 0) : Type 0 where
  pub polygons : List Polygon
  pub raw_count : ℕ

pub record BatiEntry (Polygon : Type 0) : Type 0 where
  pub insee : String
  pub polygons : List Polygon

pub record BatiCache (Polygon : Type 0) : Type 0 where
  pub max_communes : ℤ
  pub by_ins : Option (List String)
  pub lru : List (BatiEntry Polygon)
  pub max : ℤ

-- What resolveBatiPolygons returns with no error.
pub record Footprints (Polygon : Type 0) : Type 0 where
  pub polys : List Polygon
  pub raw_count : ℕ
  pub cached : Bool

-- A call: its commune, and the error of its context when that ends before its flight lands.
pub record Call : Type 0 where
  pub insee : String
  pub ctx_err : Option Err

abbrev pub default_bati_cache_max_communes : ℤ
default_bati_cache_max_communes = pos 16

-- The ceiling that init resolves.
abbrev pub ceiling : ℤ → ℤ
ceiling (pos zero) = default_bati_cache_max_communes
ceiling (pos (suc n)) = pos (suc n)
ceiling (negsuc n) = negsuc n

-- c.max >= 0 && len(c.byIns) >= c.max
abbrev pub is_full : ℤ → ℕ → Bool
is_full (pos max) n = leb max n
is_full (negsuc k) n = false

module _ {Polygon : Type 0} where
  -- The zero value with the field MaxCommunes set.
  abbrev pub unused : ℤ → BatiCache Polygon
  unused max_communes = record { max_communes = max_communes; by_ins = none; lru = []; max = pos 0 }

  unfoldable pub find_row : String → List (BatiEntry Polygon) → Option (BatiEntry Polygon)
  find_row k [] = none
  find_row k (e ∷ es) = if str_eq k e.insee then some e else find_row k es

  unfoldable pub remove_row : String → List (BatiEntry Polygon) → List (BatiEntry Polygon)
  remove_row k [] = []
  remove_row k (e ∷ es) = let rest = remove_row k es in if str_eq k e.insee then rest else e ∷ rest

  -- lru.MoveToFront of the element of a commune that the map holds.
  unfoldable pub move_to_front : String → List (BatiEntry Polygon) → List (BatiEntry Polygon)
  unfolding find_row remove_row
  move_to_front k es = elim (find_row k es) [ none ↦ es | some e ↦ e ∷ remove_row k es ]

  -- lru.Back()
  unfoldable pub oldest_row : List (BatiEntry Polygon) → Option (BatiEntry Polygon)
  oldest_row [] = none
  oldest_row (e ∷ []) = some e
  oldest_row (e ∷ f ∷ es) = oldest_row (f ∷ es)

  -- The method Get.
  unfoldable pub get : String → BatiCache Polygon → Option (List Polygon) × BatiCache Polygon
  unfolding find_row move_to_front
  get k c = elim c.by_ins [
    | none ↦ (none, c)
    | some keys ↦
        if holds k keys
        then elim (find_row k c.lru) [
          | none ↦ (none, c)
          | some e ↦ (some e.polygons, record c { lru = move_to_front k c.lru })
        ]
        else (none, c)
  ]

  -- The loop of Put, on fuel: the map and the recency list.
  unfoldable pub evict_down :
      ℕ → ℤ → List String → List (BatiEntry Polygon) → List String × List (BatiEntry Polygon)
  unfolding drop remove_row oldest_row
  evict_down zero max keys es = (keys, es)
  evict_down (suc fuel) max keys es = elim (oldest_row es) [
    | none ↦ (keys, es)
    | some oldest ↦
        let rest = evict_down fuel max (drop oldest.insee keys) (remove_row oldest.insee es) in
        if is_full max (length keys) then rest else (keys, es)
  ]

  -- The method init.
  abbrev pub init : BatiCache Polygon → BatiCache Polygon
  init c = elim c.by_ins [
    | some keys ↦ c
    | none ↦ record {
      max_communes = c.max_communes;
      by_ins = some [];
      lru = [];
      max = ceiling c.max_communes;
    }
  ]

  abbrev pub overwritten :
      String → List Polygon → List (BatiEntry Polygon) → List (BatiEntry Polygon)
  overwritten k polygons [] = []
  overwritten k polygons (e ∷ es) =
      (if str_eq k e.insee then record e { polygons = polygons } else e) ∷ overwritten k polygons es

  -- The method Put once the cache is initialised.
  unfoldable pub insert_row :
      String → List Polygon → List String → BatiCache Polygon → BatiCache Polygon
  unfolding evict_down move_to_front
  insert_row k polygons keys c =
      if holds k keys
      then record c { lru = move_to_front k (overwritten k polygons c.lru) }
      else let room = evict_down (length c.lru) c.max keys c.lru in
        record c {
          by_ins = some (k ∷ room.0);
          lru = record { insee = k; polygons = polygons } ∷ room.1;
        }

  -- The method Put.
  unfoldable pub put : String → List Polygon → BatiCache Polygon → BatiCache Polygon
  unfolding insert_row
  put k polygons c =
      let ready = init c in
      elim ready.by_ins [ none ↦ ready | some keys ↦ insert_row k polygons keys ready ]

  -- What a caller gets of the flight of its fetch.
  abbrev pub awaited : Option Err → Result (BatiDump Polygon) → Result (Footprints Polygon)
  awaited (some e) r = err e
  awaited none (err e) = err e
  awaited none (ok dump) =
      ok record { polys = dump.polygons; raw_count = dump.raw_count; cached = false }

  -- What a flight comes back with: what the upstream answers, unless its own deadline cuts it. It
  -- has the deadline of the caller that started it, and not that caller's cancellation.
  abbrev pub flown : Option Err → Result (BatiDump Polygon) → Result (BatiDump Polygon)
  flown (some e) r = err e
  flown none r = r

  -- The end of a flight: what it fetched is stored, and a failure is not.
  abbrev pub landed : String → Result (BatiDump Polygon) → BatiCache Polygon → BatiCache Polygon
  landed k (err e) c = c
  landed k (ok dump) c = put k dump.polygons c

  -- resolveBatiPolygons: its answer, with what its flight comes back with if it needs one, and the
  -- cache after its look at it.
  unfoldable pub resolve_bati_polygons :
      Call
      → Result (BatiDump Polygon)
      → BatiCache Polygon
      → Result (Footprints Polygon) × BatiCache Polygon
  unfolding get
  resolve_bati_polygons call flight c = (
    elim (get call.insee c).0 [
      | some hit ↦ ok record { polys = hit; raw_count = length hit; cached = true }
      | none ↦ awaited call.ctx_err flight
    ],
    (get call.insee c).1,
  )
