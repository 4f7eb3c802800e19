-- ===== src/Client/Envelope.antt =====
-- What the Result of runOne (gazetteer/gazetteer.go) promises whatever the Source does.
use gazetteer.Prelude.{
  ℕ, String, Bool, true, false, Option, none, some, ◌+◌, ◌≡◌, ◌≤◌, refl, suc, arith, if◌then◌else◌,
  ◌||◌, ◌&&◌,
}
use gazetteer.Prelude.Int.{ℤ, pos}
use gazetteer.Errors.{Err}
use gazetteer.Status.{Status, classify_err, is_success}
use gazetteer.Status.Classify.{not-is_success-classify_err}
use gazetteer.Dossier.{Call, answers, panics, Methods, Result, is_empty}
use gazetteer.Client.{Ctx, ctx_err, Answer, Source, with_timeout}
use gazetteer.Client.Run.{
  settle, evidence_of, emptiness_of, as_evidence, succeed, conclude, run_one, bounded, judge,
}

abbrev pub is_none {ℓ} : {A : Type ℓ} → Option A → Bool
is_none none = true
is_none (some a) = false

abbrev pub is_ok_empty : Status → Bool
is_ok_empty Status.ok_empty = true
is_ok_empty _ = false

abbrev pub says_yes : Call Bool → Bool
says_yes (answers b) = b
says_yes (panics text) = false

pub is_ok_empty-classify_err : (e : Err) → is_ok_empty (classify_err e) ≡ false
unfolding classify_err
is_ok_empty-classify_err e = ground arith

judge-late :
    (ctx : Ctx) (start n took : ℕ) (name : String) (e : Option Err)
    → suc n ≤ took
    → is_none (judge (with_timeout ctx start (suc n)) (start + took) name e) ≡ false
judge-late none start n took name none h = ground arith
judge-late (some ending) start n took name none h = ground arith
judge-late ctx start n took name (some e) h = refl

judge-in_time :
    (ctx : Ctx) (now : ℕ) (name : String) → ctx_err ctx now ≡ none → judge ctx now name none ≡ none
judge-in_time none now name h = refl
judge-in_time (some ending) now name h = ground (arith, h)

module _ {V : Type 0} where
  -- Err is nil exactly if the Status is a success; a failure carries no payload and no evidence;
  -- and the Status is StatusOKEmpty exactly if the Result's own IsEmpty answers true.
  abbrev pub IsEnvelope : Methods V → Result V → Type 0
  IsEnvelope ms r =
      (is_success r.status ≡ is_none r.err)
      × (is_none r.err || is_none r.payload && is_none r.evidence ≡ true)
      × (is_ok_empty r.status ≡ says_yes (is_empty ms r))

module _ {L V : Type 0} where
  succeed-IsEnvelope :
      (ms : Methods V) (s : Source L V) (start took : ℕ) (payload : Option V)
      → IsEnvelope ms (succeed ms s start took payload).0
  unfolding succeed is_empty
  succeed-IsEnvelope ms s start took none = ground arith
  succeed-IsEnvelope ms s start took (some v) = ground arith

  abbrev pub IsStamped : Source L V → Result V → Type 0
  IsStamped s r = (r.name ≡ s.name) × (r.version ≡ s.version)

  succeed-stamp :
      (ms : Methods V) (s : Source L V) (start took : ℕ) (payload : Option V)
      → IsStamped s (succeed ms s start took payload).0
  unfolding succeed
  succeed-stamp ms s start took none = (refl, refl)
  succeed-stamp ms s start took (some v) = ground arith

  settle-IsEnvelope :
      (ms : Methods V) (s : Source L V) (start took : ℕ) (payload : Option V) (judged : Option Err)
      → IsEnvelope ms (settle ms s start took payload judged).0
        × IsStamped s (settle ms s start took payload judged).0
  unfolding settle is_empty
  settle-IsEnvelope ms s start took payload none =
      (succeed-IsEnvelope ms s start took payload, succeed-stamp ms s start took payload)
  settle-IsEnvelope ms s start took payload (some e) =
      ((not-is_success-classify_err e, refl, is_ok_empty-classify_err e), (refl, refl))

  conclude-IsEnvelope :
      (ms : Methods V) (ctx : Ctx) (s : Source L V) (start took : ℕ)
      (c : Call (Option V × Option Err))
      → IsEnvelope ms (conclude ms ctx s start took c).0
        × IsStamped s (conclude ms ctx s start took c).0
  unfolding conclude is_empty
  conclude-IsEnvelope ms ctx s start took (panics text) = ((refl, refl, refl), (refl, refl))
  conclude-IsEnvelope ms ctx s start took (answers o) =
      settle-IsEnvelope ms s start took o.0 (judge ctx (start + took) s.name o.1)

  -- Whatever a Source does, panics included, the Result of runOne carries its name and version;
  -- its Err is nil exactly if its Status is a success; a failure carries no payload and no
  -- evidence; and its Status is StatusOKEmpty exactly if the method IsEmpty of the Result
  -- answers true.
  pub run_one-IsEnvelope :
      (ms : Methods V) (ctx : Ctx) (s : Source L V) (l : L) (timeout : ℤ) (start : ℕ)
      → IsEnvelope ms (run_one ms ctx s l timeout start).0
        × IsStamped s (run_one ms ctx s l timeout start).0
  unfolding run_one
  run_one-IsEnvelope ms ctx s l timeout start =
      let inner = bounded ctx start timeout in
      let a = s.query inner start l in conclude-IsEnvelope ms inner s start a.took a.returned

  -- The context that a Source runs in.
  abbrev query_of : Source L V → Ctx → ℕ → ℤ → L → Answer V
  query_of s ctx start timeout l = s.query (bounded ctx start timeout) start l

  settle-failure :
      (ms : Methods V) (s : Source L V) (start took : ℕ) (payload : Option V) (judged : Option Err)
      → is_none judged ≡ false
      → (is_success (settle ms s start took payload judged).0.status ≡ false)
        × (is_none (settle ms s start took payload judged).0.payload ≡ true)
  unfolding settle
  settle-failure ms s start took payload none h = ground arith
  settle-failure ms s start took payload (some e) h = (not-is_success-classify_err e, refl)

  conclude-late :
      (ms : Methods V) (ctx : Ctx) (s : Source L V) (start n took : ℕ)
      (c : Call (Option V × Option Err))
      → suc n ≤ took
      → (is_success (conclude ms (with_timeout ctx start (suc n)) s start took c).0.status ≡ false)
        × (is_none (conclude ms (with_timeout ctx start (suc n)) s start took c).0.payload ≡ true)
  unfolding conclude
  conclude-late ms ctx s start n took (panics text) h = (refl, refl)
  conclude-late ms ctx s start n took (answers o) h =
      settle-failure ms s start took o.0
        (judge (with_timeout ctx start (suc n)) (start + took) s.name o.1)
        (judge-late ctx start n took s.name o.1 h)

  -- With a positive timeout, a Source that takes the timeout or longer is no success whatever it
  -- returns: the Status is a failure and the payload is dropped.
  pub run_one-late :
      (ms : Methods V) (ctx : Ctx) (s : Source L V) (l : L) (n start : ℕ)
      → suc n ≤ (query_of s ctx start (pos (suc n)) l).took
      → (is_success (run_one ms ctx s l (pos (suc n)) start).0.status ≡ false)
        × (is_none (run_one ms ctx s l (pos (suc n)) start).0.payload ≡ true)
  unfolding run_one
  run_one-late ms ctx s l n start late =
      let a = query_of s ctx start (pos (suc n)) l in
      conclude-late ms ctx s start n a.took a.returned late

  -- A Source that returns before its context ended, with no error and a payload whose methods do
  -- not panic, is a success with that payload and its evidence.
  pub run_one-success :
      (ms : Methods V) (ctx : Ctx) (s : Source L V) (l : L) (timeout : ℤ) (start : ℕ) (v : V)
      (empty : Bool) (evidence : Option V)
      → ctx_err (bounded ctx start timeout) (start + (query_of s ctx start timeout l).took) ≡ none
      → (query_of s ctx start timeout l).returned ≡ answers (some v, none)
      → emptiness_of ms v ≡ answers empty
      → evidence_of ms v ≡ answers evidence
      → ((run_one ms ctx s l timeout start).0.status
          ≡ (if empty then Status.ok_empty else Status.ok))
        × ((run_one ms ctx s l timeout start).0.payload ≡ some v)
        × ((run_one ms ctx s l timeout start).0.evidence ≡ as_evidence evidence)
  unfolding run_one conclude settle succeed
  run_one-success ms ctx s l timeout start v empty evidence in_time returned emptiness evident =
      let a = query_of s ctx start timeout l in
      let inner = bounded ctx start timeout in
      let timely : judge inner (start + a.took) s.name none ≡ none =
        judge-in_time inner (start + a.took) s.name in_time in
      ground (arith, returned, emptiness, evident, timely)
