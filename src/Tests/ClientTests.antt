-- ===== src/Tests/ClientTests.antt =====
-- Runs of the models of Status, Dossier and Client, and the theorems at concrete inputs.
use gazetteer.Prelude.{
  ℕ, String, Bool, true, false, none, some, [], ◌∷◌, ◌≡◌, refl, ◌⊎◌, zero, suc, arith,
}
use gazetteer.Prelude.Names.{holds}
use gazetteer.Prelude.Int.{pos}
use gazetteer.Prelude.Dict.{lookup}
use gazetteer.Errors.{Err, Node, leaf, wrap, join, any_node}
use gazetteer.Status.{Status, classify_err, is_success}
use gazetteer.Status.Classify.{classify_err-eq-strongest, of_rank, rank_of_err}
use gazetteer.Dossier.{typed, Call, answers, panics, Methods, Result, Dossier, failed, get, ok}
use gazetteer.Dossier.Partition.{get-failed, get-failed_unset}
use gazetteer.Client.{Source, Config, build, without, names_of}
use gazetteer.Client.Roster.{is_built, build-distinct, without-removes}
use gazetteer.Client.Run.{run_one}
use gazetteer.Client.Envelope.{
  IsEnvelope, IsStamped, run_one-IsEnvelope, run_one-late, run_one-success, is_none,
}

abbrev blocked_then_missing : Err
blocked_then_missing =
    wrap (Node.context "dvf: ")
      (join (Node.text "both") (leaf Node.anti_bot) (leaf Node.insufficient_inputs))

test_classify_err : classify_err blocked_then_missing ≡ Status.skipped_prereq
unfolding classify_err any_node
test_classify_err = refl

classify_err_example :
    classify_err blocked_then_missing ≡ of_rank (rank_of_err blocked_then_missing)
classify_err_example = classify_err-eq-strongest blocked_then_missing

-- Payloads are numbers: 0 reports that it is empty, and 1 panics when it is asked.
abbrev pub is_empty_number : ℕ → Call Bool
is_empty_number zero = answers true
is_empty_number (suc zero) = panics "nil map"
is_empty_number _ = answers false

abbrev pub numbers : Methods ℕ
numbers = record {
  is_empty = λ v. some (is_empty_number v);
  evidence = λ v. none;
  evidence_field = λ v. some v;
}

abbrev pub of_status : Status → Result ℕ
of_status status = record {
  name = "dvf";
  version = 1;
  status = status;
  fetched_at = 0;
  elapsed_ms = 3;
  err = none;
  payload = some 5;
  evidence = none;
}

abbrev pub dossier_of : Status → Dossier ℕ
dossier_of status = record {
  results = ("dvf", of_status status) ∷ [];
  started_at = 0;
  finished_at = 9;
}

lookup_dossier :
    (status : Status) → lookup "dvf" (dossier_of status).results ≡ some (of_status status)
unfolding lookup
lookup_dossier status = refl

no_other : lookup {V = Result ℕ} "dvf" [] ≡ none
unfolding lookup
no_other = refl

get-failed_test :
    (false ≡ false)
      × (lookup "dvf" (failed (dossier_of Status.failed_antibot))
          ≡ some (of_status Status.failed_antibot))
      × (get some (dossier_of Status.failed_antibot) "dvf" ≡ none)
    ⊎ (false ≡ true)
      × (lookup "dvf" (failed (dossier_of Status.failed_antibot)) ≡ none)
      × (get some (dossier_of Status.failed_antibot) "dvf" ≡ some 5)
get-failed_test =
    get-failed some (dossier_of Status.failed_antibot) "dvf" (of_status Status.failed_antibot) 5 5
      (no_other, tt) (lookup_dossier Status.failed_antibot) refl refl refl

get-failed_unset_test :
    (lookup "dvf" (failed (dossier_of Status.unset)) ≡ some (of_status Status.unset))
    × (get some (dossier_of Status.unset) "dvf" ≡ some 5)
    × (ok (dossier_of Status.unset) "dvf" ≡ false)
get-failed_unset_test =
    get-failed_unset some (dossier_of Status.unset) "dvf" (of_status Status.unset) 5 5
      (no_other, tt) (lookup_dossier Status.unset) refl refl refl

-- A Source that answers a number after a time.
abbrev pub slow : String → ℕ → ℕ → Source ℕ ℕ
slow name took v = record {
  name = name;
  version = 1;
  query = λ ctx now l. record { took = took; returned = answers (some v, none) };
}

abbrev pub two : Config ℕ ℕ
two = record {
  sources = slow "dvf" 10 5 ∷ slow "osm" 20 0 ∷ [];
  max_concur = pos 1;
  per_src_timeout = pos 0;
}

build-distinct_test : is_built (build two) ≡ true
build-distinct_test = build-distinct two

without-removes_test :
    (holds "osm" (names_of (without two ("osm" ∷ [])).0.sources) ≡ false)
    × (is_built (build (without two ("osm" ∷ [])).0) ≡ true)
without-removes_test = without-removes two ("osm" ∷ []) "osm" (build-distinct two)

run_one-success_test :
    ((run_one numbers none (slow "osm" 20 0) 1 (pos 50) 100).0.status ≡ Status.ok_empty)
    × ((run_one numbers none (slow "osm" 20 0) 1 (pos 50) 100).0.payload ≡ some 0)
    × ((run_one numbers none (slow "osm" 20 0) 1 (pos 50) 100).0.evidence ≡ some (typed 0))
run_one-success_test =
    run_one-success numbers none (slow "osm" 20 0) 1 (pos 50) 100 0 true (some 0) refl refl refl
      refl

-- The payload 1 panics in IsEmpty.
run_one-IsEnvelope_example :
    IsEnvelope numbers (run_one numbers none (slow "dvf" 20 1) 1 (pos 50) 100).0
    × IsStamped (slow "dvf" 20 1) (run_one numbers none (slow "dvf" 20 1) 1 (pos 50) 100).0
run_one-IsEnvelope_example = run_one-IsEnvelope numbers none (slow "dvf" 20 1) 1 (pos 50) 100

test_run_one_panics :
    (run_one numbers none (slow "dvf" 20 1) 1 (pos 50) 100).0.status ≡ Status.failed_permanent
unfolding run_one
test_run_one_panics = refl

run_one-late_test :
    (is_success (run_one numbers none (slow "dvf" 80 5) 1 (pos 50) 100).0.status ≡ false)
    × (is_none (run_one numbers none (slow "dvf" 80 5) 1 (pos 50) 100).0.payload ≡ true)
run_one-late_test = run_one-late numbers none (slow "dvf" 80 5) 1 49 100 (omega arith)
