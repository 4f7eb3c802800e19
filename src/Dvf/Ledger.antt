-- ===== src/Dvf/Ledger.antt =====
-- sources/dvf/memo.go: the record of failed fetches.
use gazetteer.Prelude.{
  String, str_eq, Option, none, some, List, [], ◌∷◌, if◌then◌else◌, ◌≡◌, refl, arith,
}
use gazetteer.Prelude.Dict.{lookup, lookup-insert, lookup-delete}
use gazetteer.Errors.{Err}
use gazetteer.Dvf.{
  QueryMemo, listing_key, new_query_memo, record_failure, store_geos, store_mutations,
  store_sections,
}

-- What happens to a memo.
pub data Event (M G : Type 0) : Type 0 where
  fetched : String → List M → Event M G
  listed : String → List String → Event M G
  located : String → List G → Event M G
  broken : String → Err → Event M G

module _ {M G : Type 0} where
  abbrev pub happen : Event M G → Option (QueryMemo M G) → Option (QueryMemo M G)
  happen (fetched key muts) m = store_mutations key muts m
  happen (listed insee secs) m = store_sections insee secs m
  happen (located insee geos) m = store_geos insee geos m
  happen (broken key e) m = record_failure key e m

  abbrev memo_or : QueryMemo M G → Option (QueryMemo M G) → QueryMemo M G
  memo_or m none = m
  memo_or m (some n) = n

  -- The memo after events, the last first.
  abbrev pub history : List (Event M G) → QueryMemo M G
  history [] = new_query_memo
  history (e ∷ es) = memo_or (history es) (happen e (some (history es)))

  -- What the last event about a key says of it.
  abbrev pub last_failure : String → List (Event M G) → Option Err
  last_failure key [] = none
  last_failure key (fetched k muts ∷ es) = if str_eq k key then none else last_failure key es
  last_failure key (listed insee secs ∷ es) =
      if str_eq (listing_key insee) key then none else last_failure key es
  last_failure key (located insee geos ∷ es) = last_failure key es
  last_failure key (broken k e ∷ es) = if str_eq k key then some e else last_failure key es

  -- The record of failures is exactly this: a key has an error when the last thing that happened
  -- to it is a failed fetch, and that one's error. A later fetch or section listing for the same
  -- key clears it, and nothing else does.
  pub history-failed :
      (key : String) (es : List (Event M G)) → lookup key (history es).failed ≡ last_failure key es
  unfolding store_mutations store_sections store_geos record_failure lookup
  history-failed key [] = refl
  history-failed key (fetched k muts ∷ es) =
      ground (arith, history-failed key es, lookup-delete (history es).failed k key)
  history-failed key (listed insee secs ∷ es) =
      ground
        (arith, history-failed key es, lookup-delete (history es).failed (listing_key insee) key)
  history-failed key (located insee geos ∷ es) = history-failed key es
  history-failed key (broken k e ∷ es) =
      ground (arith, history-failed key es, lookup-insert (history es).failed k key e)
