-- ===== src/Client/Delivery.antt =====
-- The Results that a Collect (gazetteer/gazetteer.go) delivers, from the goroutines to the
-- envelope.
use gazetteer.Prelude.{ℕ, true, some, List, ◌≡◌, refl, sym, subst, All, All-map, ◌⊎◌, inl, inr}
use gazetteer.Prelude.Names.{are_distinct}
use gazetteer.Prelude.Dict.{Dict, lookup}
use gazetteer.Errors.{Err}
use gazetteer.Status.Classify.{not-is_success-classify_err}
use gazetteer.Dossier.{Methods, Result, is_empty}
use gazetteer.Client.{Ctx, Source, Config, names_of}
use gazetteer.Client.Run.{not_run_result}
use gazetteer.Client.Envelope.{IsEnvelope, IsStamped, run_one-IsEnvelope, is_ok_empty-classify_err}
use gazetteer.Client.Collect.{Event, Task, Shared, collect}
use gazetteer.Client.Recorded.{IsRun, IsNotRun}
use gazetteer.Client.Complete.{collect_complete, are_finished}

module _ {L V : Type 0} (c : Config L V) (ms : Methods V) (ctx : Ctx) (l : L) where
  not_run_result-IsEnvelope :
      (s : Source L V) (e : Err) (now : ℕ)
      → IsEnvelope ms (not_run_result s e now) × IsStamped s (not_run_result s e now)
  unfolding not_run_result is_empty
  not_run_result-IsEnvelope s e now =
      ((not-is_success-classify_err e, refl, is_ok_empty-classify_err e), (refl, refl))

  outcome-IsEnvelope :
      (s : Source L V) (r : Result V)
      → IsRun c ms ctx l s r ⊎ IsNotRun c ms ctx l s r
      → IsEnvelope ms r × IsStamped s r
  outcome-IsEnvelope s r (inl h) =
      subst (λ q. IsEnvelope ms q × IsStamped s q) (sym h.2)
        (run_one-IsEnvelope ms ctx s l c.per_src_timeout h.0)
  outcome-IsEnvelope s r (inr h) =
      subst (λ q. IsEnvelope ms q × IsStamped s q) (sym h.3) (not_run_result-IsEnvelope s h.0 h.1)

  -- Under the name of the Source there is a Result of it that is a well-formed envelope.
  abbrev pub IsDelivered : Dict (Result V) → Source L V → Type 0
  IsDelivered results s =
      (r : Result V) × (lookup s.name results ≡ some r) × (IsEnvelope ms r × IsStamped s r)

  -- A Collect over Sources with distinct names, whatever they do, in whatever order they ran and
  -- whenever the context ended, delivers for every Source a Result with its name and version: one
  -- without an error exactly if the Status is a success, with no payload next to an error, and
  -- with StatusOKEmpty exactly if its IsEmpty answers true.
  pub collect-IsDelivered :
      (es : List Event) (ss : List (Source L V)) (tasks : List (Task L V)) (sh : Shared V)
      → are_distinct (names_of ss) ≡ true
      → collect c ms ctx l es ss ≡ some (tasks, sh)
      → are_finished tasks ≡ true
      → All (IsDelivered sh.results) ss
  collect-IsDelivered es ss tasks sh distinct ran done =
      All-map (λ s h. (h.0, h.1, outcome-IsEnvelope s h.0 h.2)) ss
        (collect_complete c ms ctx l es ss tasks sh "" distinct ran done).0
