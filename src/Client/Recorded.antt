-- ===== src/Client/Recorded.antt =====
-- What each goroutine of collect (gazetteer/gazetteer.go) leaves in the results.
use gazetteer.Prelude.{
  ℕ, ◌+◌, leb, ltb, String, Bool, true, false, ◌||◌, not, none, some, ◌≡◌, refl, ◌∙◌, arith,
  AllSome, AllSome-if, AllSome-elim, if◌then◌else◌, str_eq, ◌⊎◌, inl, inr,
}
use gazetteer.Prelude.Int.{is_positive}
use gazetteer.Prelude.Dict.{Dict, lookup, lookup-insert, lookup-insert_self}
use gazetteer.Errors.{Err}
use gazetteer.Dossier.{Methods, Result}
use gazetteer.Client.{Ctx, ctx_err, Source, Config}
use gazetteer.Client.Envelope.{is_none}
use gazetteer.Client.Run.{not_run_result}
use gazetteer.Client.Collect.{
  Phase, Action, Shared, advance, capacity, took_of, result_of, put, used_more, used_less,
}

module _ {L V : Type 0} (c : Config L V) (ms : Methods V) (ctx : Ctx) (l : L) where
  -- Under a cap no Source starts once the context has ended.
  abbrev pub MayStart : ℕ → Type 0
  MayStart start = not (is_positive c.max_concur) || is_none (ctx_err ctx start) ≡ true

  abbrev pub IsReason : Err → Type 0
  IsReason e = (now : ℕ) × (ctx_err ctx now ≡ some e)

  abbrev pub IsRun : Source L V → Result V → Type 0
  IsRun s r = (start : ℕ) × MayStart start × (r ≡ result_of c ms ctx l s start)

  abbrev pub IsNotRun : Source L V → Result V → Type 0
  IsNotRun s r = (e : Err) × (now : ℕ) × IsReason e × (r ≡ not_run_result s e now)

  -- The Source has its Result: that of a run, or that of a run that never was since the context
  -- ended.
  abbrev pub IsRecorded : Source L V → Dict (Result V) → Type 0
  IsRecorded s results =
      (r : Result V) × (lookup s.name results ≡ some r) × (IsRun s r ⊎ IsNotRun s r)

  abbrev pub IsFine : Source L V → Phase → Dict (Result V) → Type 0
  IsFine s (Phase.running start) results = MayStart start
  IsFine s (Phase.abandoning e) results = IsReason e
  IsFine s Phase.recorded results = IsRecorded s results
  IsFine s Phase.finished results = IsRecorded s results
  IsFine s _ results = Unit {0}

  put-IsRecorded :
      (s : Source L V) (r : Result V) (sh : Shared V)
      → IsRun s r ⊎ IsNotRun s r
      → IsRecorded s (put s r sh).results
  put-IsRecorded s r sh h = (r, lookup-insert_self s.name r sh.results, h)

  done-IsFine :
      (s : Source L V) (b : Bool) (results : Dict (Result V))
      → IsRecorded s results
      → IsFine s (if b then Phase.recorded else Phase.finished) results
  done-IsFine s true results h = h
  done-IsFine s false results h = h

  pub advance-IsFine :
      (s : Source L V) (now : ℕ) (action : Action) (phase : Phase) (sh : Shared V)
      → IsFine s phase sh.results
      → AllSome (λ m. IsFine s m.0 m.1.results) (advance c ms ctx l s now action phase sh)
  unfolding advance
  advance-IsFine s now Action.look Phase.queued sh h =
      AllSome-if P (is_positive c.max_concur)
        (elim (ctx_err ctx now) [
          | none ↦ some (Phase.selecting, sh)
          | some e ↦ some (Phase.abandoning e, sh)
        ])
        (some (Phase.running now, sh))
        (λ _.
          AllSome-elim P (ctx_err ctx now) (some (Phase.selecting, sh))
            (λ e. some (Phase.abandoning e, sh)) (λ _. tt) (λ e found. (now, found)))
        (λ unlimited. ground (arith, unlimited))
    where
      P : Phase × Shared V → Type 0
      P m = IsFine s m.0 m.1.results
  advance-IsFine s now Action.look _ sh h = tt
  advance-IsFine s now Action.take Phase.selecting sh h =
      AllSome-if (λ m. IsFine s m.0 m.1.results) (ltb sh.used (capacity c.max_concur))
        (some (Phase.holding, used_more sh)) none (λ _. tt) (λ _. tt)
  advance-IsFine s now Action.take _ sh h = tt
  advance-IsFine s now Action.give_up Phase.selecting sh h =
      AllSome-elim (λ m. IsFine s m.0 m.1.results) (ctx_err ctx now) none
        (λ e. some (Phase.abandoning e, sh)) (λ _. tt) (λ e found. (now, found))
  advance-IsFine s now Action.give_up _ sh h = tt
  advance-IsFine s now Action.recheck Phase.holding sh h =
      AllSome-elim (λ m. IsFine s m.0 m.1.results) (ctx_err ctx now) (some (Phase.running now, sh))
        (λ e. some (Phase.abandoning e, used_less sh)) (λ going. ground (arith, going))
        (λ e found. (now, found))
  advance-IsFine s now Action.recheck _ sh h = tt
  advance-IsFine s now Action.write (Phase.running start) sh h =
      AllSome-if (λ m. IsFine s m.0 m.1.results) (leb (start + took_of c ms ctx l s start) now)
        (some (
          if is_positive c.max_concur then Phase.recorded else Phase.finished,
          put s (result_of c ms ctx l s start) sh,
        ))
        none
        (λ _.
          done-IsFine s (is_positive c.max_concur) (put s (result_of c ms ctx l s start) sh).results
            (put-IsRecorded s (result_of c ms ctx l s start) sh (inl (start, h, refl))))
        (λ _. tt)
  advance-IsFine s now Action.write (Phase.abandoning e) sh h =
      put-IsRecorded s (not_run_result s e now) sh (inr (e, now, h, refl))
  advance-IsFine s now Action.write _ sh h = tt
  advance-IsFine s now Action.release Phase.recorded sh h = h
  advance-IsFine s now Action.release _ sh h = tt

  pub advance-others :
      (s : Source L V) (now : ℕ) (action : Action) (phase : Phase) (sh : Shared V) (n : String)
      → str_eq s.name n ≡ false
      → AllSome
          (λ m. lookup n m.1.results ≡ lookup n sh.results)
          (advance c ms ctx l s now action phase sh)
  unfolding advance
  advance-others s now action phase sh n other = grind (arith, lookup-insert, other)

  pub IsFine-frame :
      (s : Source L V) (phase : Phase) (results after : Dict (Result V))
      → lookup s.name after ≡ lookup s.name results
      → IsFine s phase results
      → IsFine s phase after
  IsFine-frame s (Phase.running start) results after same h = h
  IsFine-frame s (Phase.abandoning e) results after same h = h
  IsFine-frame s Phase.recorded results after same h = (h.0, same ∙ h.1, h.2)
  IsFine-frame s Phase.finished results after same h = (h.0, same ∙ h.1, h.2)
  IsFine-frame s _ results after same h = tt
