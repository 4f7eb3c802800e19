-- ===== src/Client/Collect.antt =====
-- gazetteer/gazetteer.go: collect and acquire, one goroutine per Source, as events in an order
-- that the scheduler chooses. The clock is in the events, and the Collect's context ends at the
-- time that it says.
use gazetteer.Prelude.{
  ℕ, zero, suc, ◌+◌, ◌-◌, Option, none, some, List, [], ◌∷◌, ltb, leb, if◌then◌else◌, and_then,
  AllSome, AllSome-and_then,
}
use gazetteer.Prelude.Int.{ℤ, pos, negsuc, is_positive}
use gazetteer.Prelude.Dict.{Dict, insert}
use gazetteer.Errors.{Err}
use gazetteer.Dossier.{Methods, Result}
use gazetteer.Client.{Ctx, ctx_err, Source, Config}
use gazetteer.Client.Run.{run_one, not_run_result, bounded}

-- Where a goroutine stands: before acquire, at its select, with a slot before the second look at
-- the context, in runOne since a time, with its Result written and the slot to hand back, with
-- the error of acquire, and at its end.
pub data Phase : Type 0 where
  queued selecting holding : Phase
  running : ℕ → Phase
  recorded : Phase
  abandoning : Err → Phase
  finished : Phase

-- What a goroutine does next. `give_up` is the arm `<-ctx.Done()` of the select.
pub data Action : Type 0 where
  look take give_up recheck write release : Action

pub record Event : Type 0 where
  pub now : ℕ
  pub task : ℕ
  pub action : Action

pub record Task (L V : Type 0) : Type 0 where
  pub source : Source L V
  pub phase : Phase

-- `used` counts the values in the channel of the semaphore.
pub record Shared (V : Type 0) : Type 0 where
  pub used : ℕ
  pub results : Dict (Result V)

abbrev pub capacity : ℤ → ℕ
capacity (pos n) = n
capacity (negsuc n) = 0

module _ {V : Type 0} where
  abbrev pub used_more : Shared V → Shared V
  used_more sh = record { used = sh.used + 1; results = sh.results }

  abbrev pub used_less : Shared V → Shared V
  used_less sh = record { used = sh.used - 1; results = sh.results }

  abbrev pub no_results : Shared V
  no_results = record { used = 0; results = [] }

module _ {L V : Type 0} where
  abbrev pub moved_task :
      Source L V → List (Task L V) → Option (Phase × Shared V) → Option (List (Task L V) × Shared V)
  moved_task s rest none = none
  moved_task s rest (some m) = some (record { source = s; phase = m.0 } ∷ rest, m.1)

  abbrev pub kept_task :
      Task L V → Option (List (Task L V) × Shared V) → Option (List (Task L V) × Shared V)
  kept_task t none = none
  kept_task t (some m) = some (t ∷ m.0, m.1)

  abbrev pub put : Source L V → Result V → Shared V → Shared V
  put s r sh = record { used = sh.used; results = insert s.name r sh.results }

  abbrev pub all_queued : List (Source L V) → List (Task L V)
  all_queued [] = []
  all_queued (s ∷ rest) = record { source = s; phase = Phase.queued } ∷ all_queued rest

-- Of a Client, in one Collect.
module _ {L V : Type 0} (c : Config L V) (ms : Methods V) (ctx : Ctx) (l : L) where
  abbrev pub result_of : Source L V → ℕ → Result V
  result_of s start = (run_one ms ctx s l c.per_src_timeout start).0

  -- How long Query takes.
  abbrev pub took_of : Source L V → ℕ → ℕ
  took_of s start = (s.query (bounded ctx start c.per_src_timeout) start l).took

  -- One action of a goroutine; `none` where it cannot happen now.
  unfoldable pub advance : Source L V → ℕ → Action → Phase → Shared V → Option (Phase × Shared V)
  advance s now Action.look Phase.queued sh =
      if is_positive c.max_concur
      then elim (ctx_err ctx now) [
        | none ↦ some (Phase.selecting, sh)
        | some e ↦ some (Phase.abandoning e, sh)
      ]
      else some (Phase.running now, sh)
  advance s now Action.take Phase.selecting sh =
      if ltb sh.used (capacity c.max_concur) then some (Phase.holding, used_more sh) else none
  advance s now Action.give_up Phase.selecting sh = elim (ctx_err ctx now) [
    | none ↦ none
    | some e ↦ some (Phase.abandoning e, sh)
  ]
  advance s now Action.recheck Phase.holding sh = elim (ctx_err ctx now) [
    | none ↦ some (Phase.running now, sh)
    | some e ↦ some (Phase.abandoning e, used_less sh)
  ]
  advance s now Action.write (Phase.running start) sh =
      if leb (start + took_of s start) now
      then some (
        if is_positive c.max_concur then Phase.recorded else Phase.finished,
        put s (result_of s start) sh,
      )
      else none
  advance s now Action.write (Phase.abandoning e) sh =
      some (Phase.finished, put s (not_run_result s e now) sh)
  advance s now Action.release Phase.recorded sh = some (Phase.finished, used_less sh)
  advance s now action phase sh = none

  unfoldable pub step_at :
      ℕ → ℕ → Action → List (Task L V) → Shared V → Option (List (Task L V) × Shared V)
  unfolding advance
  step_at i now action [] sh = none
  step_at zero now action (t ∷ rest) sh =
      moved_task t.source rest (advance t.source now action t.phase sh)
  step_at (suc i) now action (t ∷ rest) sh = kept_task t (step_at i now action rest sh)

  -- The events of a Collect in their order.
  unfoldable pub run_events :
      List Event → List (Task L V) → Shared V → Option (List (Task L V) × Shared V)
  unfolding step_at
  run_events [] tasks sh = some (tasks, sh)
  run_events (e ∷ es) tasks sh =
      and_then (step_at e.task e.now e.action tasks sh) (λ m. run_events es m.0 m.1)

  -- What every action of every goroutine keeps, a whole Collect keeps.
  pub run_events-keeps {ℓ} :
      (P : List (Task L V) × Shared V → Type ℓ)
      → ((i now : ℕ) (action : Action) (tasks : List (Task L V)) (sh : Shared V)
          → P (tasks, sh)
          → AllSome P (step_at i now action tasks sh))
      → (es : List Event) (tasks : List (Task L V)) (sh : Shared V) → P (tasks, sh)
      → AllSome P (run_events es tasks sh)
  unfolding run_events
  run_events-keeps P step [] tasks sh h = h
  run_events-keeps P step (e ∷ es) tasks sh h =
      AllSome-and_then P P (step_at e.task e.now e.action tasks sh) (λ m. run_events es m.0 m.1)
        (step e.task e.now e.action tasks sh h) (λ m kept. run_events-keeps P step es m.0 m.1 kept)

  -- Collect, or CollectSome on its selection: from the start of the goroutines to `wg.Wait`.
  unfoldable pub collect : List Event → List (Source L V) → Option (List (Task L V) × Shared V)
  unfolding run_events
  collect events sources = run_events events (all_queued sources) no_results
