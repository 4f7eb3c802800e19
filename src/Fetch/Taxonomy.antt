-- ===== src/Fetch/Taxonomy.antt =====
-- gazetteer/fetch.go: how the outcomes of FetchUpstream are classified, by classifyErr of
-- gazetteer/gazetteer.go.
use gazetteer.Prelude.{
  ℕ, String, Bool, true, ◌||◌, Option, none, some, List, length, ltb, leb, ◌==◌, if◌then◌else◌, ◌≡◌,
  refl, arith, ap, ◌∙◌,
}
use gazetteer.Errors.{any_node, Err, Result, ok, err}
use gazetteer.Status.{Status, classify_err}
use gazetteer.Status.Classify.{classify_err-eq-strongest, of_rank, rank_of_err}
use gazetteer.Fetch.{
  FetchSpec, HttpClient, Response, answered, client_or, failed_status, fetch_upstream, read_body,
  unavailable,
}

-- What a Source makes of an outcome: the status, and the body where there is one.
abbrev pub Verdict : Type 0
Verdict = Status × Option (List ℕ)

abbrev pub verdict_of : Result (List ℕ) → Verdict
verdict_of (ok body) = (Status.ok, some body)
verdict_of (err e) = (classify_err e, none)

-- A failed transport or read is transient, but for a stronger sentinel in its error.
abbrev pub transient_or : Err → Verdict
transient_or e = (of_rank (rank_of_err e), none)

abbrev pub expected_body : Response → Verdict
expected_body r =
    if leb (length r.body) 52428800
    then elim r.read_error [ none ↦ (Status.ok, some r.body) | some e ↦ transient_or e ]
    else (Status.failed_permanent, none)

-- The verdict by the code of the answer.
abbrev pub expected_code : ℕ → Verdict → Verdict
expected_code code body =
    if ltb code 400
    then body
    else if (code == 429) || ltb 499 code
    then (Status.failed_transient, none)
    else (Status.failed_permanent, none)

abbrev pub expected : Option (List ℕ) → Result Response → Verdict
expected empty (err e) = transient_or e
expected none (ok r) = expected_code r.status_code (expected_body r)
expected (some empty) (ok r) =
    if r.status_code == 404
    then (Status.ok, some empty)
    else expected_code r.status_code (expected_body r)

rank-unavailable : (prefix : String) (e : Err) → rank_of_err (unavailable prefix e) ≡ rank_of_err e
rank-unavailable prefix e = ground arith

verdict-unavailable :
    (prefix : String) (e : Err) → verdict_of (err (unavailable prefix e)) ≡ transient_or e
verdict-unavailable prefix e =
    ap (λ s. (s, none))
      (classify_err-eq-strongest (unavailable prefix e) ∙ ap of_rank (rank-unavailable prefix e))

verdict-body :
    (prefix : String) (body : List ℕ) (o : Option Err)
    → verdict_of (elim o [ some e ↦ err (unavailable prefix e) | none ↦ ok body ])
      ≡ elim o [ none ↦ (Status.ok, some body) | some e ↦ transient_or e ]
verdict-body prefix body none = refl
verdict-body prefix body (some e) = verdict-unavailable prefix e

read_body-verdict :
    (spec : FetchSpec) (r : Response) → verdict_of (read_body spec r) ≡ expected_body r
unfolding classify_err any_node
read_body-verdict spec r = ground (arith, verdict-body spec.prefix r.body r.read_error)

failed_status-verdict :
    (spec : FetchSpec) (r : Response)
    → verdict_of (failed_status spec r) ≡ expected_code r.status_code (expected_body r)
unfolding classify_err any_node
failed_status-verdict spec r = ground (arith, read_body-verdict spec r)

verdict-if :
    (b : Bool) (x : List ℕ) (y : Result (List ℕ)) (v : Verdict)
    → verdict_of y ≡ v
    → verdict_of (if b then ok x else y) ≡ (if b then (Status.ok, some x) else v)
verdict-if true x y v h = refl
verdict-if Bool.false x y v h = h

response-verdict :
    (spec : FetchSpec) (r : Response) (empty : Option (List ℕ))
    → verdict_of (elim empty [
      | none ↦ failed_status spec r
      | some body ↦ if r.status_code == 404 then ok body else failed_status spec r
    ])
      ≡ expected empty (ok r)
response-verdict spec r none = failed_status-verdict spec r
response-verdict spec r (some body) =
    verdict-if (r.status_code == 404) body _ _ (failed_status-verdict spec r)

answered-verdict :
    (spec : FetchSpec) (reply : Result Response)
    → verdict_of (answered spec reply) ≡ expected spec.not_found_body reply
answered-verdict spec (err e) = verdict-unavailable spec.prefix e
answered-verdict spec (ok r) = response-verdict spec r spec.not_found_body

-- What FetchUpstream makes of an answer, in the taxonomy of Statuses: below 400 the body, but a
-- permanent failure past 50 MiB and a transient one when the read breaks off; a 404 the given
-- empty payload, if there is one; a 429 and every code from 500 on a transient failure; any other
-- code a permanent one. A transport error is transient, as long as it does not hold a sentinel
-- of the taxonomy that is stronger. A nil client stands for the context's.
pub fetch_upstream-verdict :
    (context_client : HttpClient) (client : Option HttpClient) (url : String) (spec : FetchSpec)
    → verdict_of (fetch_upstream context_client client none url spec)
      ≡ expected spec.not_found_body
          (client_or client context_client (record { url = url; accept = spec.accept }))
unfolding fetch_upstream
fetch_upstream-verdict context_client none url spec = answered-verdict spec _
fetch_upstream-verdict context_client (some c) url spec = answered-verdict spec _
