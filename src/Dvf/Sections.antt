-- ===== src/Dvf/Sections.antt =====
-- sources/dvf: the section codes of a commune (sections.go and resolveSections of source.go), over a
-- kvcache.Cache, and the fan-out over communes. JSON, the clock and the cadastre are parameters.
use gazetteer.Prelude.{
  ℕ, ◌+◌, String, str_append, Bool, true, false, Option, none, some, List, [], ◌∷◌, ◌++◌, length,
  if◌then◌else◌, ltb,
}
use gazetteer.Errors.{Result, ok, err}
use gazetteer.Memcache.{Entry}
use gazetteer.Kvcache.{KvCache, found, missing, failed}
use gazetteer.Dvf.{
  QueryMemo, Weather, fetch_sections, is_commune_not_found, listing_key, record_failure,
  section_keys, sections_for, store_sections,
}

-- The cadastre's answers and the clock: `ttl` is SectionTTL, `prefix` is CacheKeyPrefix.
pub record Cadastre : Type 0 where
  pub sections : String → Result (List String)
  pub now : ℕ
  pub ttl : ℕ
  pub prefix : String

abbrev pub is_nonempty : List String → Bool
is_nonempty [] = false
is_nonempty (s ∷ ss) = true

abbrev pub sections_of_row : (List ℕ → Option (List String)) → Cadastre → Entry → List String
sections_of_row unmarshal c row =
    let decoded : List String = elim (unmarshal row.value) [ none ↦ [] | some out ↦ out ] in
    elim row.expires_at [ none ↦ decoded | some t ↦ if ltb c.now t then decoded else [] ]

module _ (K : KvCache) (unmarshal : List ℕ → Option (List String))
    (marshal : List String → List ℕ) where
  -- SectionsForCommune: nothing is a miss, and so is a failure to its one caller.
  unfoldable pub sections_for_commune : Cadastre → String → K.State → List String × K.State
  sections_for_commune c insee s =
      let r = K.get (str_append c.prefix insee) s in
      (elim r.0 [ found row ↦ sections_of_row unmarshal c row | missing ↦ [] | failed e ↦ [] ], r.1)

  -- PrimeFromList: a failure is only logged by its callers.
  unfoldable pub prime_from_list : Cadastre → String → List String → K.State → K.State
  prime_from_list c insee secs s =
      (K.set c.now
        (record {
          key = str_append c.prefix insee;
          value = marshal secs;
          fetched_at = some c.now;
          expires_at = some (c.now + c.ttl);
        })
        s).1

  module _ {M G : Type 0} where
    -- The answers of the cadastre.
    abbrev pub from_cadastre :
        Cadastre
        → String
        → Result (List String)
        → Option (QueryMemo M G)
        → K.State
        → List String × (Option (QueryMemo M G) × K.State)
    from_cadastre c insee (ok secs) memo s =
        if is_nonempty secs
        then (secs, (store_sections insee secs memo, prime_from_list c insee secs s))
        else ([], (memo, s))
    from_cadastre c insee (err e) memo s =
        if is_commune_not_found e
        then ([], (memo, s))
        else ([], (record_failure (listing_key insee) e memo, s))

    abbrev pub from_row :
        Cadastre
        → String
        → List String
        → Option (QueryMemo M G)
        → K.State
        → List String × (Option (QueryMemo M G) × K.State)
    from_row c insee cached memo s =
        if is_nonempty cached
        then (cached, (store_sections insee cached memo, s))
        else from_cadastre c insee (c.sections insee) memo s

    -- The method resolveSections.
    unfoldable pub resolve_sections :
        Cadastre
        → String
        → Option (QueryMemo M G)
        → K.State
        → List String × (Option (QueryMemo M G) × K.State)
    unfolding store_sections record_failure is_commune_not_found sections_for_commune
        prime_from_list
    resolve_sections c insee memo s = elim (sections_for insee memo) [
      | some secs ↦ (secs, (memo, s))
      | none ↦ let row = sections_for_commune c insee s in from_row c insee row.0 memo row.1
    ]

    -- The method fetchMutationsForCommunes: the pool, the number of sections, the memo and the
    -- cache. `is_ended` is whether the context has ended or the breaker is open before a commune.
    unfoldable pub fetch_mutations_for_communes :
        Cadastre
        → Weather M
        → (String → Bool)
        → List String
        → Option (QueryMemo M G)
        → K.State
        → (List M × ℕ) × (Option (QueryMemo M G) × K.State)
    unfolding resolve_sections fetch_sections
    fetch_mutations_for_communes c w is_ended [] memo s = (([], 0), (memo, s))
    fetch_mutations_for_communes c w is_ended (insee ∷ rest) memo s =
        let secs = resolve_sections c insee memo s in
        let fetched = fetch_sections w (section_keys insee secs.0) secs.1.0 in
        let others = fetch_mutations_for_communes c w is_ended rest fetched.1 secs.1.1 in
        if is_ended insee
        then (([], 0), (memo, s))
        else ((fetched.0 ++ others.0.0, length secs.0 + others.0.1), others.1)
