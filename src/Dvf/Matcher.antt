-- ===== src/Dvf/Matcher.antt =====
-- sources/dvf/matcher.go: FilterMutations. Strings are lists of bytes. Parameters: the arithmetic of
-- floats, what fmt.Sprintf makes of a number, strings.ToLower and EqualFold, and time.Parse. The ids of sales hold no bar, so a key
-- is the pair of an id and a local.
pub mod Cap
pub mod Cohort
pub mod Keys
pub mod OnePrice
use gazetteer.Prelude.{
  ℕ, zero, suc, ◌+◌, Bool, true, false, ◌&&◌, ◌||◌, not, Option, none, some, List, [], ◌∷◌, ◌++◌,
  length, ltb, leb, ◌==◌, if◌then◌else◌,
}
use gazetteer.Prelude.Bytes.{bytes_eq, has_prefix, is_blank, trim_space}
use gazetteer.Prelude.Int.{ℤ, pos, negsuc}
use gazetteer.Floats.{Floats}

-- The fields that the filter reads.
pub record Mutation (Float : Type 0) : Type 0 where
  pub id_mutation : List ℕ
  pub date_mutation : List ℕ
  pub nature_mutation : List ℕ
  pub valeur_fonciere : Option Float
  pub id_parcelle : List ℕ
  pub type_local : List ℕ
  pub surface_reelle_bati : Option Float
  pub nombre_pieces_princ : Option ℤ
  pub lot1_numero : List ℕ

-- Dates are seconds; no `to` is no upper bound.
pub record Window : Type 0 where
  pub from : ℕ
  pub to : Option ℕ

-- The method contains.
abbrev pub contains : Window → ℕ → Bool
contains w d = if ltb d w.from then false else elim w.to [ none ↦ true | some t ↦ leb d t ]

abbrev pub vente : List ℕ
vente = b'V' ∷ b'e' ∷ b'n' ∷ b't' ∷ b'e' ∷ []

abbrev pub appartement : List ℕ
appartement = b'A' ∷ b'p' ∷ b'p' ∷ b'a' ∷ b'r' ∷ b't' ∷ b'e' ∷ b'm' ∷ b'e' ∷ b'n' ∷ b't' ∷ []

abbrev pub maison : List ℕ
maison = b'M' ∷ b'a' ∷ b'i' ∷ b's' ∷ b'o' ∷ b'n' ∷ []

-- A sale and a local of it.
abbrev pub Key : Type 0
Key = List ℕ × List ℕ

abbrev pub key_eq : Key → Key → Bool
key_eq k l = bytes_eq k.0 l.0 && bytes_eq k.1 l.1

unfoldable pub has_key : Key → List Key → Bool
unfolding bytes_eq
has_key k [] = false
has_key k (l ∷ ls) = key_eq k l || has_key k ls

-- How many keys are of a sale.
unfoldable pub count_sale : List ℕ → List Key → ℕ
unfolding bytes_eq
count_sale id [] = 0
count_sale id (k ∷ ks) = let rest = count_sale id ks in if bytes_eq k.0 id then suc rest else rest

unfoldable pub count_parcel : List ℕ → List (List ℕ) → ℕ
unfolding bytes_eq
count_parcel p [] = 0
count_parcel p (q ∷ qs) = let rest = count_parcel p qs in if bytes_eq q p then suc rest else rest

abbrev pub max_mutations_per_parcelle : ℕ
max_mutations_per_parcelle = 4

module _ {Float : Type 0} where
  -- The loop of capPerParcelle, with the parcels of the rows that are kept.
  unfoldable pub cap_from : ℕ → List (List ℕ) → List (Mutation Float) → List (Mutation Float)
  unfolding count_parcel
  cap_from max seen [] = []
  cap_from max seen (m ∷ ms) = elim (is_blank m.id_parcelle) [
    | true ↦ m ∷ cap_from max seen ms
    | false ↦ elim (leb max (count_parcel m.id_parcelle seen)) [
      | true ↦ cap_from max seen ms
      | false ↦ m ∷ cap_from max (m.id_parcelle ∷ seen) ms
    ]
  ]

  -- A cap of 0 is none.
  unfoldable pub cap_per_parcelle : ℕ → List (Mutation Float) → List (Mutation Float)
  unfolding cap_from
  cap_per_parcelle zero ms = ms
  cap_per_parcelle (suc max) ms = cap_from (suc max) [] ms

-- What is compared and formatted: strings.EqualFold and ToLower, the verbs %g and %d of fmt.Sprintf,
-- time.Parse, and the limits of the surface and of the price per square metre.
pub record Texts (Float : Type 0) : Type 0 where
  pub fold_eq : List ℕ → List ℕ → Bool
  pub to_lower : List ℕ → List ℕ
  pub float_text : Float → List ℕ
  pub int_text : ℤ → List ℕ
  pub parse_date : List ℕ → Option ℕ
  pub surface_min : Float
  pub surface_max : Float
  pub price_min : Float
  pub price_max : Float

module _ (F : Floats) (t : Texts F.Float) where
  unfoldable pub is_built_local : List ℕ → Bool
  unfolding trim_space has_prefix
  is_built_local type_local =
      let s = trim_space type_local in
      t.fold_eq s appartement
      || (t.fold_eq s maison || has_prefix (b'L' ∷ b'o' ∷ b'c' ∷ b'a' ∷ b'l' ∷ []) s)

  abbrev pub surface_of : Mutation F.Float → F.Float
  surface_of m = elim m.surface_reelle_bati [ none ↦ F.zero_float | some s ↦ s ]

  -- A missing number of rooms is -1.
  abbrev pub pieces_of : Mutation F.Float → ℤ
  pieces_of m = elim m.nombre_pieces_princ [ none ↦ negsuc 0 | some n ↦ n ]

  unfoldable pub local_key : Mutation F.Float → ℕ → List ℕ
  unfolding trim_space
  local_key m row =
      if is_blank m.id_parcelle
      then (b'r' ∷ b'o' ∷ b'w' ∷ b'#' ∷ []) ++ t.int_text (pos row)
      else m.id_parcelle
        ++ (b'|' ∷ t.to_lower (trim_space m.type_local))
        ++ (b'|' ∷ t.float_text (surface_of m))
        ++ (b'|' ∷ t.int_text (pieces_of m))
        ++ (b'|' ∷ m.lot1_numero)

  abbrev pub key_of : Mutation F.Float → ℕ → Key
  key_of m row = (m.id_mutation, local_key m row)

  -- Does a row count for builtLocalsPerMutation?
  abbrev pub is_counted : Mutation F.Float → Bool
  is_counted m = not (is_blank m.id_mutation) && is_built_local m.type_local

  -- The loop of builtLocalsPerMutation from a row on: the set `seen`. The map `n` counts its keys
  -- by sale.
  unfoldable pub built_from : ℕ → List (Mutation F.Float) → List Key → List Key
  unfolding has_key is_built_local local_key
  built_from row [] seen = seen
  built_from row (m ∷ ms) seen =
      built_from (suc row) ms
        (if is_counted m && not (has_key (key_of m row) seen) then key_of m row ∷ seen else seen)

  abbrev pub valeur_of : Mutation F.Float → F.Float
  valeur_of m = elim m.valeur_fonciere [ none ↦ F.zero_float | some v ↦ v ]

  abbrev pub is_priced : Mutation F.Float → Bool
  is_priced m =
      let s = surface_of m in
      let v = valeur_of m in
      let price = F.div v s in
      not (F.lt s t.surface_min || F.lt t.surface_max s)
      && (not (F.le v F.zero_float) && not (F.lt price t.price_min || F.lt t.price_max price))

  abbrev pub is_dated : Window → Mutation F.Float → Bool
  is_dated w m = elim (t.parse_date m.date_mutation) [ none ↦ false | some d ↦ contains w d ]

  -- The loop of FilterMutations, with the set `kept`.
  unfoldable pub filter_from :
      List Key → List ℕ → Window → ℕ → List (Mutation F.Float) → List Key → List (Mutation F.Float)
  unfolding has_key count_sale local_key bytes_eq
  filter_from built target w row [] kept = []
  filter_from built target w row (m ∷ ms) kept =
      elim (bytes_eq m.nature_mutation vente
        && (t.fold_eq m.type_local target && leb (count_sale m.id_mutation built) 1)) [
          | false ↦ filter_from built target w (suc row) ms kept
          | true ↦ elim (is_blank m.id_mutation) [
            | true ↦
                let rest = filter_from built target w (suc row) ms kept in
                if is_dated w m && is_priced m then m ∷ rest else rest
            | false ↦ elim (has_key (key_of m row) kept) [
              | true ↦ filter_from built target w (suc row) ms kept
              | false ↦
                  let rest = filter_from built target w (suc row) ms (key_of m row ∷ kept) in
                  if is_dated w m && is_priced m then m ∷ rest else rest
            ]
          ]
        ]

  -- The function FilterMutations.
  unfoldable pub filter_mutations :
      List (Mutation F.Float) → List ℕ → Window → List (Mutation F.Float)
  unfolding built_from filter_from cap_per_parcelle
  filter_mutations rows target w =
      cap_per_parcelle max_mutations_per_parcelle
        (filter_from (built_from 0 rows []) target w 0 rows [])
