-- ===== src/Dossier/Wire.antt =====
-- The JSON of a Dossier: MarshalJSON of Result (gazetteer/result.go) and UnmarshalJSON of Dossier
-- (gazetteer/dossier.go), up to the structs that encoding/json writes and reads field by field.
-- What json.Marshal makes of a value and of raw JSON, the message of an error and the registered factories with
-- json.Unmarshal are parameters.
use gazetteer.Prelude.{
  ℕ, String, Option, none, some, List, [], ◌∷◌, and_then, str_eq, if◌then◌else◌,
}
use gazetteer.Prelude.Dict.{Dict}
use gazetteer.Errors.{Err, Node, leaf}
use gazetteer.Status.{Status}
use gazetteer.Dossier.{Dossier, Result, Evidence, typed, raw}

abbrev pub Bytes : Type 0
Bytes = List ℕ

-- The fields `omitempty` are empty where they are left out.
pub record WireResult : Type 0 where
  pub name : String
  pub version : ℕ
  pub status : Status
  pub fetched_at : ℕ
  pub elapsed_ms : ℕ
  pub err : String
  pub payload : Bytes
  pub evidence : Bytes

pub record WireDossier : Type 0 where
  pub results : Dict WireResult
  pub started_at : ℕ
  pub finished_at : ℕ

-- `marshal` answers none where json.Marshal fails, `decoder_of` where no factory is registered,
-- and a decoder where json.Unmarshal fails. `compact` is json.Marshal of a json.RawMessage that is
-- not nil: the bytes without their white space, and none where they are no JSON, as the empty ones;
-- a nil json.RawMessage is a value like others, that `marshal` writes as null.
pub record Codec (V : Type 0) : Type 0 where
  pub marshal : V → Option Bytes
  pub compact : Bytes → Option Bytes
  pub message : Err → String
  pub decoder_of : String → Option (Bytes → Option V)

module _ {V : Type 0} (codec : Codec V) where
  open codec use {marshal, compact, message, decoder_of}

  abbrev pub payload_bytes : Option V → Option Bytes
  payload_bytes none = some []
  payload_bytes (some v) = marshal v

  abbrev pub evidence_bytes : Option (Evidence V) → Option Bytes
  evidence_bytes none = some []
  evidence_bytes (some (typed v)) = marshal v
  evidence_bytes (some (raw bytes)) = compact bytes

  abbrev pub err_message : Option Err → String
  err_message none = ""
  err_message (some e) = message e

  abbrev pub wire_of : Result V → Bytes → Bytes → WireResult
  wire_of r payload evidence = record {
    name = r.name;
    version = r.version;
    status = r.status;
    fetched_at = r.fetched_at;
    elapsed_ms = r.elapsed_ms;
    err = err_message r.err;
    payload = payload;
    evidence = evidence;
  }

  -- Result.MarshalJSON.
  unfoldable pub to_wire : Result V → Option WireResult
  to_wire r = and_then (payload_bytes r.payload) (λ payload.
      and_then (evidence_bytes r.evidence) (λ evidence. some (wire_of r payload evidence)))

  abbrev pub err_of_message : String → Option Err
  err_of_message text = if str_eq text "" then none else some (leaf (Node.text text))

  abbrev pub evidence_of_bytes : Bytes → Option (Evidence V)
  evidence_of_bytes [] = none
  evidence_of_bytes (b ∷ bs) = some (raw (b ∷ bs))

  -- The payload of a Source without a factory is dropped; one that does not parse is an error.
  abbrev pub payload_of_bytes : Option (Bytes → Option V) → Bytes → Option (Option V)
  payload_of_bytes decoder [] = some none
  payload_of_bytes none (b ∷ bs) = some none
  payload_of_bytes (some decode) (b ∷ bs) = elim (decode (b ∷ bs)) [
    | none ↦ none
    | some v ↦ some (some v)
  ]

  abbrev pub result_of_wire : WireResult → Option V → Result V
  result_of_wire w payload = record {
    name = w.name;
    version = w.version;
    status = w.status;
    fetched_at = w.fetched_at;
    elapsed_ms = w.elapsed_ms;
    err = err_of_message w.err;
    payload = payload;
    evidence = evidence_of_bytes w.evidence;
  }

  -- The body of the loop of UnmarshalJSON; none is its error.
  unfoldable pub of_wire : WireResult → Option (Result V)
  of_wire w =
      and_then (payload_of_bytes (decoder_of w.name) w.payload)
        (λ payload. some (result_of_wire w payload))

  unfoldable pub wire_results : Dict (Result V) → Option (Dict WireResult)
  unfolding to_wire
  wire_results [] = some []
  wire_results (entry ∷ rest) =
      and_then (to_wire entry.1)
        (λ w. and_then (wire_results rest) (λ ws. some ((entry.0, w) ∷ ws)))

  unfoldable pub results_of_wire : Dict WireResult → Option (Dict (Result V))
  unfolding of_wire
  results_of_wire [] = some []
  results_of_wire (entry ∷ rest) =
      and_then (of_wire entry.1)
        (λ r. and_then (results_of_wire rest) (λ rs. some ((entry.0, r) ∷ rs)))

  unfoldable pub marshal_json : Dossier V → Option WireDossier
  unfolding wire_results
  marshal_json d =
      and_then (wire_results d.results)
        (λ ws. some record { results = ws; started_at = d.started_at; finished_at = d.finished_at })

  -- Dossier.UnmarshalJSON.
  unfoldable pub unmarshal_json : WireDossier → Option (Dossier V)
  unfolding results_of_wire
  unmarshal_json w =
      and_then (results_of_wire w.results)
        (λ rs. some record { results = rs; started_at = w.started_at; finished_at = w.finished_at })
