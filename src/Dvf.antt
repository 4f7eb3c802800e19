-- ===== src/Dvf.antt =====
-- sources/dvf: the memo of one query (memo.go) and the fan-out that fills it (source.go).
pub mod Ledger
pub mod Matcher
pub mod Agreement
pub mod Coverage
pub mod Sections
use mathlib.Core.List.{Perm}
use gazetteer.Prelude.{
  ℕ, zero, suc, ◌+◌, String, str_append, str_eq, Bool, true, false, ◌&&◌, ◌||◌, not, Option, none,
  some, List, [], ◌∷◌, ◌++◌, length, if◌then◌else◌, ltb,
}
use gazetteer.Prelude.Dict.{Dict, lookup, insert, delete}
use gazetteer.Errors.{Err, Node, Result, ok, err, any_node}
use Prim.Native.String.{compare}
use Prim.Native.Nat.{Ordering}

-- Mutations and section geometries are of unknown types.
pub record QueryMemo (M G : Type 0) : Type 0 where
  pub mutations : Dict (List M)
  pub sections : Dict (List String)
  pub geos : Dict (List G)
  pub failed : Dict Err

-- s < t
abbrev pub lt_string : String → String → Bool
lt_string s t = elim (compare s t) [ Ordering.lt ↦ true | _ ↦ false ]

abbrev pub section_key : String → String → String
section_key insee section = str_append insee (str_append "/" section)

abbrev pub listing_key : String → String
listing_key insee = str_append insee "/*"

-- The loop of failures over the keys, in any order of the map.
unfoldable pub first_key : String → Dict Err → String
first_key first [] = first
first_key first (e ∷ es) =
    first_key (if str_eq first "" || lt_string e.0 first then e.0 else first) es

-- What the calls of one tier meet: whether the context has ended or the breaker has opened
-- when a section is launched and when its goroutine starts, and what the API answers.
-- Sections are named by their keys.
pub record Weather (M : Type 0) : Type 0 where
  pub is_stopped : String → Bool
  pub is_abandoned : String → Bool
  pub fetch : String → Result (List M)

module _ {M G : Type 0} where
  abbrev pub new_query_memo : QueryMemo M G
  new_query_memo = record { mutations = []; sections = []; geos = []; failed = [] }

  -- The methods of the memo, of which `none` is the nil one.
  abbrev pub mutations_for : String → Option (QueryMemo M G) → Option (List M)
  mutations_for key none = none
  mutations_for key (some m) = lookup key m.mutations

  abbrev pub sections_for : String → Option (QueryMemo M G) → Option (List String)
  sections_for insee none = none
  sections_for insee (some m) = lookup insee m.sections

  abbrev pub geos_for : String → Option (QueryMemo M G) → Option (List G)
  geos_for insee none = none
  geos_for insee (some m) = lookup insee m.geos

  unfoldable pub store_mutations : String → List M → Option (QueryMemo M G) → Option (QueryMemo M G)
  store_mutations key muts none = none
  store_mutations key muts (some m) = some record {
    mutations = insert key muts m.mutations;
    sections = m.sections;
    geos = m.geos;
    failed = delete key m.failed;
  }

  unfoldable pub store_sections :
      String → List String → Option (QueryMemo M G) → Option (QueryMemo M G)
  store_sections insee secs none = none
  store_sections insee secs (some m) = some record {
    mutations = m.mutations;
    sections = insert insee secs m.sections;
    geos = m.geos;
    failed = delete (listing_key insee) m.failed;
  }

  unfoldable pub store_geos : String → List G → Option (QueryMemo M G) → Option (QueryMemo M G)
  store_geos insee geos none = none
  store_geos insee geos (some m) = some record {
    mutations = m.mutations;
    sections = m.sections;
    geos = insert insee geos m.geos;
    failed = m.failed;
  }

  unfoldable pub record_failure : String → Err → Option (QueryMemo M G) → Option (QueryMemo M G)
  record_failure key e none = none
  record_failure key e (some m) = some record {
    mutations = m.mutations;
    sections = m.sections;
    geos = m.geos;
    failed = insert key e m.failed;
  }

  unfoldable pub failures : Option (QueryMemo M G) → ℕ × Option Err
  unfolding first_key
  failures none = (0, none)
  failures (some m) =
      let first = first_key "" m.failed in
      if str_eq first "" then (0, none) else (length m.failed, lookup first m.failed)

abbrev pub is_section_not_found_node : Node → Bool
is_section_not_found_node (Node.text s) = str_eq s "dvf: section not found"
is_section_not_found_node _ = false

-- errors.Is(err, ErrSectionNotFound)
unfoldable pub is_section_not_found : Err → Bool
unfolding any_node
is_section_not_found e = any_node is_section_not_found_node e

abbrev pub is_commune_not_found_node : Node → Bool
is_commune_not_found_node (Node.text s) = str_eq s "dvf: cadastre commune not found"
is_commune_not_found_node _ = false

-- errors.Is(err, ErrCadastreCommuneNotFound)
unfoldable pub is_commune_not_found : Err → Bool
unfolding any_node
is_commune_not_found e = any_node is_commune_not_found_node e

module _ {M G : Type 0} where
  abbrev pub fetched_of :
      String → Option (QueryMemo M G) → Result (List M) → List M × Option (QueryMemo M G)
  fetched_of key memo (ok muts) = (muts, store_mutations key muts memo)
  fetched_of key memo (err e) =
      if is_section_not_found e
      then ([], store_mutations key [] memo)
      else ([], record_failure key e memo)

  -- The goroutine of a section that the memo does not have: what it adds to the pool, and the memo.
  unfoldable pub fetch_section :
      Weather M → String → Option (QueryMemo M G) → List M × Option (QueryMemo M G)
  unfolding store_mutations record_failure is_section_not_found
  fetch_section w key memo =
      if w.is_abandoned key then ([], memo) else fetched_of key memo (w.fetch key)

  -- The method fetchSections over the keys of the sections, one after the other: the pool in the
  -- order of the sections, and the memo.
  unfoldable pub fetch_sections :
      Weather M → List String → Option (QueryMemo M G) → List M × Option (QueryMemo M G)
  unfolding fetch_section
  fetch_sections w [] memo = ([], memo)
  fetch_sections w (key ∷ keys) memo = elim (w.is_stopped key) [
    | true ↦ ([], memo)
    | false ↦ elim (mutations_for key memo) [
      | some cached ↦ let rest = fetch_sections w keys memo in (cached ++ rest.0, rest.1)
      | none ↦
          let fetched = fetch_section w key memo in
          let rest = fetch_sections w keys fetched.1 in (fetched.0 ++ rest.0, rest.1)
    ]
  ]

  -- A pool that fetchSections may return: its goroutines append as they end, in any order.
  abbrev pub IsPooled : Weather M → List String → Option (QueryMemo M G) → List M → Type 0
  IsPooled w keys memo got = Perm got (fetch_sections w keys memo).0

-- The keys of the sections of a commune.
abbrev pub section_keys : String → List String → List String
section_keys insee [] = []
section_keys insee (sec ∷ secs) = section_key insee sec ∷ section_keys insee secs
