-- ===== src/Fetch.antt =====
-- gazetteer/fetch.go: FetchUpstream. Clients are functions from a request to what Do returns; the
-- context's client is a parameter.
pub mod Taxonomy
use gazetteer.Prelude.{
  ℕ, String, str_append, Bool, true, false, ◌&&◌, ◌||◌, Option, none, some, List, length, ltb, leb,
  ◌==◌, if◌then◌else◌,
}
use gazetteer.Errors.{Err, Node, leaf, wrap, join, Result, ok, err}

pub record FetchSpec : Type 0 where
  pub prefix : String
  pub accept : String
  pub not_found_body : Option (List ℕ)

-- A GET request: an Accept header is set when it is not empty.
pub record GetRequest : Type 0 where
  pub url : String
  pub accept : String

-- `body` is what arrives before the end or the read error.
pub record Response : Type 0 where
  pub status_code : ℕ
  pub body : List ℕ
  pub read_error : Option Err

abbrev pub HttpClient : Type 0
HttpClient = GetRequest → Result Response

-- httpx.DefaultMaxResponseBytes
abbrev pub max_response_bytes : ℕ
max_response_bytes = 52428800

-- The messages are shortened.
abbrev pub unavailable : String → Err → Err
unavailable prefix e = join (Node.context prefix) (leaf Node.upstream_unavailable) e

abbrev pub unavailable_status : String → Err
unavailable_status prefix = wrap (Node.context prefix) (leaf Node.upstream_unavailable)

abbrev pub permanent : String → Err
permanent prefix = wrap (Node.context prefix) (leaf Node.upstream_permanent)

-- The body of an answer that is no failure.
abbrev pub read_body : FetchSpec → Response → Result (List ℕ)
read_body spec r =
    if ltb max_response_bytes (length r.body)
    then err (permanent spec.prefix)
    else elim r.read_error [ some e ↦ err (unavailable spec.prefix e) | none ↦ ok r.body ]

abbrev pub failed_status : FetchSpec → Response → Result (List ℕ)
failed_status spec r =
    if leb 500 r.status_code || (r.status_code == 429)
    then err (unavailable_status spec.prefix)
    else if leb 400 r.status_code
    then err (permanent spec.prefix)
    else read_body spec r

abbrev pub read_response : FetchSpec → Response → Result (List ℕ)
read_response spec r = elim spec.not_found_body [
  | none ↦ failed_status spec r
  | some body ↦ if r.status_code == 404 then ok body else failed_status spec r
]

abbrev pub answered : FetchSpec → Result Response → Result (List ℕ)
answered spec (err e) = err (unavailable spec.prefix e)
answered spec (ok r) = read_response spec r

-- The client that is used: a nil one is the context's.
abbrev pub client_or : Option HttpClient → HttpClient → HttpClient
client_or none context_client = context_client
client_or (some client) context_client = client

-- The function FetchUpstream. `build_error` is what http.NewRequestWithContext makes of the URL.
unfoldable pub fetch_upstream :
    HttpClient → Option HttpClient → Option Err → String → FetchSpec → Result (List ℕ)
fetch_upstream context_client client build_error url spec = elim build_error [
  | some e ↦ err (wrap (Node.context spec.prefix) e)
  | none ↦
      answered spec (client_or client context_client (record { url = url; accept = spec.accept }))
]
