-- ===== src/Dossier/RoundTrip.antt =====
-- What survives when a Dossier is written as JSON and read again (gazetteer/result.go,
-- gazetteer/dossier.go).
use gazetteer.Prelude.{
  str_eq, if◌then◌else◌, Bool, true, false, Option, none, some, [], ◌∷◌, ◌≡◌, refl, ◌∙◌, ap, ap₂,
  arith, and_then, AllSome, AllSome-and_then, and_then-cases, subst,
}
use gazetteer.Prelude.Dict.{Dict}
use gazetteer.Errors.{Err, Node, leaf}
use gazetteer.Dossier.{typed, raw, Dossier, Result, Evidence}
use gazetteer.Dossier.Wire.{
  Bytes, WireResult, WireDossier, Codec, payload_bytes, evidence_bytes, err_message, err_of_message,
  evidence_of_bytes, payload_of_bytes, wire_of, to_wire, of_wire, wire_results, results_of_wire,
  marshal_json, unmarshal_json, result_of_wire,
}

abbrev pub is_nil : Bytes → Bool
is_nil [] = true
is_nil (b ∷ bs) = false

-- A payload without what its JSON leaves out (the fields tagged "-") is `strip` of it.
module _ {V : Type 0} (codec : Codec V) (strip : V → V) where
  open codec use {marshal, compact, message, decoder_of}

  -- The JSON of the payload parses back into what it does not leave out, if its Source has a factory.
  abbrev pub Decodes : Option (Bytes → Option V) → Option V → Type 0
  Decodes none payload = Unit {0}
  Decodes (some decode) none = Unit {0}
  Decodes (some decode) (some v) = and_then (marshal v) decode ≡ some (strip v)

  abbrev pub IsDecodable : Result V → Type 0
  IsDecodable r = Decodes (decoder_of r.name) r.payload

  abbrev pub AreDecodable : Dict (Result V) → Type 0
  AreDecodable [] = Unit {0}
  AreDecodable (entry ∷ rest) = IsDecodable entry.1 × AreDecodable rest

  abbrev pub kept_payload : Option (Bytes → Option V) → Option V → Option V
  kept_payload none payload = none
  kept_payload (some decode) none = none
  kept_payload (some decode) (some v) = some (strip v)

  -- Evidence is the bytes that are written of it.
  abbrev pub evidence_read : Option (Evidence V) → Option (Evidence V)
  evidence_read none = none
  evidence_read (some (typed v)) = elim (marshal v) [ none ↦ none | some bytes ↦ some (raw bytes) ]
  evidence_read (some (raw old)) = elim (compact old) [
    | none ↦ none
    | some bytes ↦ some (raw bytes)
  ]

  -- An error is its message; none where that is empty.
  abbrev pub err_read : Option Err → Option Err
  err_read none = none
  err_read (some e) = if str_eq (message e) "" then none else some (leaf (Node.text (message e)))

  -- A Result after the round trip: the error is its message, the evidence its bytes, the payload
  -- stripped, and gone where its Source has no factory.
  abbrev pub read_back : Result V → Result V
  read_back r = record {
    name = r.name;
    version = r.version;
    status = r.status;
    fetched_at = r.fetched_at;
    elapsed_ms = r.elapsed_ms;
    err = err_read r.err;
    payload = kept_payload (decoder_of r.name) r.payload;
    evidence = evidence_read r.evidence;
  }

  payload-round_trip :
      (decoder : Option (Bytes → Option V)) (payload : Option V) (bytes : Bytes)
      → ((v : V) (bs : Bytes) → marshal v ≡ some bs → is_nil bs ≡ false)
      → Decodes decoder payload
      → payload_bytes codec payload ≡ some bytes
      → payload_of_bytes codec decoder bytes ≡ some (kept_payload decoder payload)
  payload-round_trip none none [] full decodable written = refl
  payload-round_trip none none (b ∷ bs) full decodable written = refl
  payload-round_trip (some decode) none [] full decodable written = refl
  payload-round_trip (some decode) none (b ∷ bs) full decodable written = ground (arith, written)
  payload-round_trip none (some v) [] full decodable written = refl
  payload-round_trip none (some v) (b ∷ bs) full decodable written = refl
  payload-round_trip (some decode) (some v) [] full decodable written =
      ground (arith, full v [] written)
  payload-round_trip (some decode) (some v) (b ∷ bs) full decodable written =
      ground (arith, written, decodable)

  -- json.Marshal never writes nothing.
  abbrev pub WritesBytes : Type 0
  WritesBytes =
      ((v : V) (bs : Bytes) → marshal v ≡ some bs → is_nil bs ≡ false)
      × ((old bs : Bytes) → compact old ≡ some bs → is_nil bs ≡ false)

  evidence-round_trip :
      (evidence : Option (Evidence V)) (bytes : Bytes)
      → WritesBytes
      → evidence_bytes codec evidence ≡ some bytes
      → evidence_of_bytes codec bytes ≡ evidence_read evidence
  evidence-round_trip none bytes full written = ground (arith, written)
  evidence-round_trip (some (raw old)) [] full written = ground (arith, full.1 old [] written)
  evidence-round_trip (some (raw old)) (b ∷ bs) full written = ground (arith, written)
  evidence-round_trip (some (typed v)) [] full written = ground (arith, full.0 v [] written)
  evidence-round_trip (some (typed v)) (b ∷ bs) full written = ground (arith, written)

  err-round_trip : (e : Option Err) → err_of_message codec (err_message codec e) ≡ err_read e
  err-round_trip none = refl
  err-round_trip (some e) = refl

  of_wire-wire_of :
      (r : Result V) (payload evidence : Bytes)
      → WritesBytes
      → IsDecodable r
      → payload_bytes codec r.payload ≡ some payload
      → evidence_bytes codec r.evidence ≡ some evidence
      → of_wire codec (wire_of codec r payload evidence) ≡ some (read_back r)
  unfolding of_wire
  of_wire-wire_of r payload evidence full decodable wrote_payload wrote_evidence =
      ap (λ o. and_then o (λ p. some (result_of_wire codec (wire_of codec r payload evidence) p)))
        (payload-round_trip (decoder_of r.name) r.payload payload full.0 decodable wrote_payload)
      ∙ ap₂
          (λ e evidence. some record {
            name = r.name;
            version = r.version;
            status = r.status;
            fetched_at = r.fetched_at;
            elapsed_ms = r.elapsed_ms;
            err = e;
            payload = kept_payload (decoder_of r.name) r.payload;
            evidence = evidence;
          })
          (err-round_trip r.err) (evidence-round_trip r.evidence evidence full wrote_evidence)

  result-round_trip :
      (r : Result V)
      → WritesBytes
      → IsDecodable r
      → AllSome (λ w. of_wire codec w ≡ some (read_back r)) (to_wire codec r)
  unfolding to_wire
  result-round_trip r full decodable =
      and_then-cases (λ w. of_wire codec w ≡ some (read_back r)) (payload_bytes codec r.payload)
        (λ payload.
          and_then (evidence_bytes codec r.evidence)
            (λ evidence. some (wire_of codec r payload evidence)))
        (λ payload wrote_payload.
          and_then-cases (λ w. of_wire codec w ≡ some (read_back r))
            (evidence_bytes codec r.evidence) (λ evidence. some (wire_of codec r payload evidence))
            (λ evidence wrote_evidence.
              of_wire-wire_of r payload evidence full decodable wrote_payload wrote_evidence))

  abbrev pub read_results : Dict (Result V) → Dict (Result V)
  read_results [] = []
  read_results (entry ∷ rest) = (entry.0, read_back entry.1) ∷ read_results rest

  results-round_trip :
      (results : Dict (Result V))
      → WritesBytes
      → AreDecodable results
      → AllSome
          (λ ws. results_of_wire codec ws ≡ some (read_results results))
          (wire_results codec results)
  unfolding wire_results results_of_wire
  results-round_trip [] full decodable = refl
  results-round_trip (entry ∷ rest) full decodable =
      let P : Dict WireResult → Type 0 =
        λ ws. results_of_wire codec ws ≡ some (read_results (entry ∷ rest)) in
      AllSome-and_then (λ w. of_wire codec w ≡ some (read_back entry.1)) P (to_wire codec entry.1)
        (λ w. and_then (wire_results codec rest) (λ ws. some ((entry.0, w) ∷ ws)))
        (result-round_trip entry.1 full decodable.0)
        (λ w read.
          AllSome-and_then (λ ws. results_of_wire codec ws ≡ some (read_results rest)) P
            (wire_results codec rest) (λ ws. some ((entry.0, w) ∷ ws))
            (results-round_trip rest full decodable.1)
            (λ ws read_rest. ground (arith, read, read_rest)))

  abbrev pub read_dossier : Dossier V → Dossier V
  read_dossier d = record {
    results = read_results d.results;
    started_at = d.started_at;
    finished_at = d.finished_at;
  }

  dossier-round_trip :
      (d : Dossier V)
      → WritesBytes
      → AreDecodable d.results
      → AllSome (λ w. unmarshal_json codec w ≡ some (read_dossier d)) (marshal_json codec d)
  unfolding marshal_json unmarshal_json
  dossier-round_trip d full decodable =
      AllSome-and_then (λ ws. results_of_wire codec ws ≡ some (read_results d.results))
        (λ w. unmarshal_json codec w ≡ some (read_dossier d)) (wire_results codec d.results)
        (λ ws. some record { results = ws; started_at = d.started_at; finished_at = d.finished_at })
        (results-round_trip d.results full decodable)
        (λ ws read.
          ap
            (λ o. and_then o (λ rs.
              some record { results = rs; started_at = d.started_at; finished_at = d.finished_at }))
            read)

  -- A Dossier that could be written as JSON is read back with the same names, versions, statuses
  -- and times. Every payload of a Source with a factory is the one that was written, without what
  -- its JSON leaves out (`strip`); that of a Source without one is gone; an error is down to its
  -- message; typed evidence is down to its JSON, and raw evidence is compacted. Of the codec it is
  -- asked that json.Marshal never writes nothing, and that a registered factory parses the JSON of
  -- the payloads of this Dossier into what `strip` keeps of them.
  pub unmarshal_json-marshal_json :
      (d : Dossier V) (w : WireDossier)
      → WritesBytes
      → AreDecodable d.results
      → marshal_json codec d ≡ some w
      → unmarshal_json codec w ≡ some (read_dossier d)
  unmarshal_json-marshal_json d w full decodable written =
      subst (AllSome (λ v. unmarshal_json codec v ≡ some (read_dossier d))) written
        (dossier-round_trip d full decodable)
