-- ===== src/Tests/SourceTests.antt =====
-- FetchUpstream, the memo of the DVF queries and the median at concrete inputs.
use mathlib.Core.List.{Perm}
use mathlib.Core.List.Perm
use gazetteer.Prelude.{
  ℕ, String, str_eq, Bool, true, none, some, List, [], ◌∷◌, ◌≡◌, refl, if◌then◌else◌,
}
use gazetteer.Prelude.Dict.{lookup, insert, delete}
use gazetteer.Prelude.Int.{pos, negsuc}
use gazetteer.Errors.{Err, Node, leaf, any_node, Result, ok, err}
use gazetteer.Status.{Status}
use gazetteer.Fetch.{FetchSpec, HttpClient, fetch_upstream}
use gazetteer.Fetch.Taxonomy.{fetch_upstream-verdict, verdict_of}
use gazetteer.Dvf.{
  QueryMemo, Weather, failures, fetch_section, fetch_sections, first_key, is_section_not_found,
  new_query_memo, record_failure, store_mutations,
}
use gazetteer.Dvf.Ledger.{Event, broken, fetched, history, history-failed}
use gazetteer.Dvf.Coverage.{fetch_sections_complete, knows_all}
use gazetteer.Dvf.Agreement.{Agrees, fetch_sections-Agrees, pool}
use gazetteer.Stats.Order.{chain, exchange, keep, median_int-centre, one}
use gazetteer.Stats.{insert_int, median_int, sort_ints}

abbrev timeout : Err
timeout = leaf Node.net_timeout

abbrev busy : HttpClient
busy r = ok record { status_code = 503; body = []; read_error = none }

abbrev spec : FetchSpec
spec = record { prefix = "dvf"; accept = ""; not_found_body = none }

fetch_upstream-verdict_example :
    verdict_of (fetch_upstream busy none none "u" spec) ≡ (Status.failed_transient, none)
fetch_upstream-verdict_example = fetch_upstream-verdict busy none "u" spec

-- An API that knows one section, has no other, and times out for a third.
abbrev answer_for : String → Result (List ℕ)
answer_for key =
    if str_eq key "75056/AA"
    then ok (7 ∷ [])
    else if str_eq key "75056/AB"
    then err (leaf (Node.text "dvf: section not found"))
    else err timeout

abbrev clear : Weather ℕ
clear = record { is_stopped = λ k. Bool.false; is_abandoned = λ k. Bool.false; fetch = answer_for }

abbrev ended : Weather ℕ
ended = record { is_stopped = λ k. true; is_abandoned = λ k. Bool.false; fetch = answer_for }

abbrev fresh : QueryMemo ℕ ℕ
fresh = new_query_memo

abbrev keys : List String
keys = "75056/AA" ∷ "75056/AB" ∷ []

pool_test : (fetch_sections clear keys (some fresh)).0 ≡ 7 ∷ []
unfolding fetch_sections fetch_section store_mutations is_section_not_found any_node lookup insert
    delete
pool_test = refl

outage_test : (failures (fetch_sections clear ("75056/AC" ∷ []) (some fresh)).1) ≡ (1, some timeout)
unfolding fetch_sections fetch_section record_failure is_section_not_found any_node lookup insert
    failures first_key
outage_test = refl

-- A context that has ended stops the calls and leaves no failure: an empty cohort looks known.
silent_stop : (failures (fetch_sections ended keys (some fresh)).1) ≡ (0, none)
unfolding fetch_sections failures first_key
silent_stop = refl

abbrev events : List (Event ℕ ℕ)
events = broken "75056/AC" timeout ∷ fetched "75056/AA" (7 ∷ []) ∷ broken "75056/AA" timeout ∷ []

history-failed_example : lookup "75056/AA" (history events).failed ≡ none
history-failed_example = history-failed "75056/AA" events

fetch_sections_complete_example : knows_all keys (fetch_sections clear keys (some fresh)).1 ≡ true
unfolding fetch_sections fetch_section store_mutations is_section_not_found any_node lookup insert
    delete failures first_key
fetch_sections_complete_example = fetch_sections_complete clear keys fresh refl refl refl

fetch_sections-Agrees_example :
    Perm (7 ∷ []) (pool clear keys) × Agrees clear (fetch_sections clear keys (some fresh)).1
unfolding lookup fetch_sections fetch_section store_mutations is_section_not_found any_node insert
    delete
fetch_sections-Agrees_example =
    fetch_sections-Agrees clear keys (some fresh) (7 ∷ []) refl (λ k. tt) Perm.rfl

median_test : median_int (pos 9 ∷ negsuc 4 ∷ pos 2 ∷ pos 4 ∷ []) ≡ pos 3
unfolding median_int sort_ints insert_int
median_test = refl

negative_median_test : median_int (negsuc 3 ∷ pos 1 ∷ []) ≡ negsuc 0
unfolding median_int sort_ints insert_int
negative_median_test = refl

median_int-centre_example : median_int (pos 9 ∷ negsuc 4 ∷ pos 2 ∷ []) ≡ pos 2
median_int-centre_example =
    median_int-centre (pos 9 ∷ negsuc 4 ∷ pos 2 ∷ []) (negsuc 4 ∷ []) (pos 9 ∷ []) (one (pos 2))
      refl
      (chain (exchange (pos 9) (negsuc 4) (pos 2 ∷ []))
        (keep (negsuc 4) (exchange (pos 9) (pos 2) [])))
      refl
