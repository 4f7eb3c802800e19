-- ===== src/Tests/WireTests.antt =====
-- A Dossier written as JSON and read again at a concrete input.
use gazetteer.Prelude.{
  ℕ, String, false, Option, none, some, [], ◌∷◌, ◌≡◌, refl, arith, str_eq, ◌/◌, ◌*◌, ◌==◌,
  if◌then◌else◌,
}
use gazetteer.Errors.{Node, leaf}
use gazetteer.Status.{Status}
use gazetteer.Dossier.{Dossier, Result, typed, raw}
use gazetteer.Dossier.Wire.{Bytes, Codec, WireDossier, marshal_json, unmarshal_json}
use gazetteer.Dossier.RoundTrip.{is_nil, read_dossier, unmarshal_json-marshal_json}

-- The JSON of a number leaves out its last digit, and only the Source dvf has a factory.
abbrev decode : Bytes → Option ℕ
decode [] = none
decode (b ∷ bs) = some (b * 10)

abbrev strip : ℕ → ℕ
strip v = v / 10 * 10

-- Without the spaces in front.
abbrev compact : Bytes → Option Bytes
compact [] = none
compact (b ∷ bs) = let rest = compact bs in if b == 32 then rest else some (b ∷ bs)

abbrev plain : Codec ℕ
plain = record {
  marshal = λ v. some (v / 10 ∷ []);
  compact = compact;
  message = λ e. "blocked";
  decoder_of = λ name. if str_eq name "dvf" then some decode else none;
}

abbrev of_source : String → Result ℕ
of_source name = record {
  name = name;
  version = 1;
  status = Status.ok;
  fetched_at = 4;
  elapsed_ms = 3;
  err = none;
  payload = some 57;
  evidence = some (typed 60);
}

abbrev blocked : Result ℕ
blocked = record {
  name = "osm";
  version = 1;
  status = Status.failed_antibot;
  fetched_at = 4;
  elapsed_ms = 3;
  err = some (leaf Node.anti_bot);
  payload = none;
  evidence = some (raw (32 ∷ 9 ∷ []));
}

abbrev written : Dossier ℕ
written = record {
  results = ("dvf", of_source "dvf") ∷ ("bpe", of_source "bpe") ∷ ("osm", blocked) ∷ [];
  started_at = 1;
  finished_at = 9;
}

abbrev wire : WireDossier
wire = record {
  results =
      (
        "dvf",
        record {
          name = "dvf";
          version = 1;
          status = Status.ok;
          fetched_at = 4;
          elapsed_ms = 3;
          err = "";
          payload = 5 ∷ [];
          evidence = 6 ∷ [];
        },
      )
      ∷ (
        "bpe",
        record {
          name = "bpe";
          version = 1;
          status = Status.ok;
          fetched_at = 4;
          elapsed_ms = 3;
          err = "";
          payload = 5 ∷ [];
          evidence = 6 ∷ [];
        },
      )
      ∷ (
        "osm",
        record {
          name = "osm";
          version = 1;
          status = Status.failed_antibot;
          fetched_at = 4;
          elapsed_ms = 3;
          err = "blocked";
          payload = [];
          evidence = 9 ∷ [];
        },
      )
      ∷ [];
  started_at = 1;
  finished_at = 9;
}

writes_wire : marshal_json plain written ≡ some wire
unfolding marshal_json
writes_wire = refl

test_unmarshal : unmarshal_json plain wire ≡ some (read_dossier plain strip written)
unfolding unmarshal_json
test_unmarshal = refl

never_nothing : (v : ℕ) (bs : Bytes) → some (v / 10 ∷ []) ≡ some bs → is_nil bs ≡ false
never_nothing v [] h = ground (arith, h)
never_nothing v (b ∷ bs) h = refl

never_nothing_raw : (old bs : Bytes) → compact old ≡ some bs → is_nil bs ≡ false
never_nothing_raw [] bs h = ground (arith, h)
never_nothing_raw (b ∷ old) [] h = ground (arith, h, never_nothing_raw old [])
never_nothing_raw (b ∷ old) (c ∷ bs) h = refl

unmarshal_json-marshal_json_example :
    unmarshal_json plain wire ≡ some (read_dossier plain strip written)
unmarshal_json-marshal_json_example =
    unmarshal_json-marshal_json plain strip written wire (never_nothing, never_nothing_raw)
      (refl, (tt, (tt, tt))) writes_wire
