-- ===== src/Client/Run.antt =====
-- gazetteer/gazetteer.go: runOne and notRunResult, with the log line of a recovered panic.
use gazetteer.Prelude.{
  ℕ, String, str_append, Bool, false, Option, none, some, ◌+◌, ◌/◌, suc, zero, if◌then◌else◌,
}
use gazetteer.Prelude.Int.{ℤ, pos, negsuc}
use gazetteer.Errors.{Err, Node, leaf, wrap}
use gazetteer.Status.{Status, classify_err}
use gazetteer.Dossier.{Call, answers, panics, Methods, Evidence, typed, Result}
use gazetteer.Client.{Ctx, ctx_err, with_timeout, Source}

abbrev pub panic_text : String → String → Node
panic_text name v = Node.text (str_append "source " (str_append name (str_append " panicked: " v)))

abbrev pub late_text : String → Node
late_text name =
    Node.context (str_append "source " (str_append name " returned after its context ended: "))

abbrev pub not_run_text : String → Node
not_run_text name = Node.context (str_append "source " (str_append name " not run: "))

-- The context of one Source: bounded if the timeout is positive.
abbrev pub bounded : Ctx → ℕ → ℤ → Ctx
bounded ctx start (pos zero) = ctx
bounded ctx start (pos (suc n)) = with_timeout ctx start (suc n)
bounded ctx start (negsuc n) = ctx

-- An answer without an error that comes after the context ended becomes a failure.
abbrev pub judge : Ctx → ℕ → String → Option Err → Option Err
judge ctx done name (some e) = some e
judge none done name none = none
judge (some ending) done name none = elim (ctx_err (some ending) done) [
  | none ↦ none
  | some reason ↦ some (wrap (late_text name) ending.cause)
]

abbrev pub milliseconds : ℕ → ℕ
milliseconds ns = ns / 1000000

module _ {V : Type 0} where
  -- A value of type `any` in the slot Evidence: nil stays nil.
  abbrev pub as_evidence : Option V → Option (Evidence V)
  as_evidence none = none
  as_evidence (some v) = some (typed v)

  -- The slot Evidence: by the method, or else by the field.
  abbrev pub evidence_of : Methods V → V → Call (Option V)
  evidence_of ms v = elim (ms.evidence v) [ none ↦ answers (ms.evidence_field v) | some c ↦ c ]

  abbrev pub emptiness_of : Methods V → V → Call Bool
  emptiness_of ms v = elim (ms.is_empty v) [ none ↦ answers false | some c ↦ c ]

module _ {L V : Type 0} where
  -- The Result with what every run sets.
  abbrev pub stamped :
      Source L V → ℕ → ℕ → Status → Option Err → Option V → Option (Evidence V) → Result V
  stamped s start took status e payload evidence = record {
    name = s.name;
    version = s.version;
    status = status;
    fetched_at = start;
    elapsed_ms = milliseconds took;
    err = e;
    payload = payload;
    evidence = evidence;
  }

  -- The panic `text` is recovered.
  abbrev pub recovered : Source L V → ℕ → ℕ → String → Result V
  recovered s start took text =
      stamped s start took Status.failed_permanent (some (leaf (panic_text s.name text))) none none

  -- A success: Data, then Status, then Evidence.
  unfoldable pub succeed : Methods V → Source L V → ℕ → ℕ → Option V → Result V × Option String
  succeed ms s start took none = (stamped s start took Status.ok none none none, none)
  succeed ms s start took (some v) = elim (emptiness_of ms v) [
    | panics text ↦ (recovered s start took text, some text)
    | answers empty ↦ elim (evidence_of ms v) [
      | panics text ↦ (recovered s start took text, some text)
      | answers evidence ↦ (
        stamped s start took (if empty then Status.ok_empty else Status.ok) none (some v)
            (as_evidence evidence),
        none,
      )
    ]
  ]

  -- After the error of Query is judged.
  unfoldable pub settle :
      Methods V → Source L V → ℕ → ℕ → Option V → Option Err → Result V × Option String
  unfolding succeed classify_err
  settle ms s start took payload (some e) =
      (stamped s start took (classify_err e) (some e) none none, none)
  settle ms s start took payload none = succeed ms s start took payload

  -- From the answer of Query on.
  unfoldable pub conclude :
      Methods V → Ctx → Source L V → ℕ → ℕ → Call (Option V × Option Err) → Result V × Option String
  unfolding settle
  conclude ms ctx s start took (panics text) = (recovered s start took text, some text)
  conclude ms ctx s start took (answers o) =
      settle ms s start took o.0 (judge ctx (start + took) s.name o.1)

  -- The Result, and the panic that is logged.
  unfoldable pub run_one : Methods V → Ctx → Source L V → L → ℤ → ℕ → Result V × Option String
  unfolding conclude
  run_one ms ctx s l timeout start =
      let inner = bounded ctx start timeout in
      let a = s.query inner start l in conclude ms inner s start a.took a.returned

  unfoldable pub not_run_result : Source L V → Err → ℕ → Result V
  unfolding classify_err
  not_run_result s e now = record {
    name = s.name;
    version = s.version;
    status = classify_err e;
    fetched_at = now;
    elapsed_ms = 0;
    err = some (wrap (not_run_text s.name) e);
    payload = none;
    evidence = none;
  }
