-- ===== src/Client/Complete.antt =====
-- What is in the results of collect (gazetteer/gazetteer.go) at any point of any interleaving.
use gazetteer.Prelude.{
  ℕ, zero, suc, String, Bool, true, false, ◌&&◌, not, Option, none, some, List, [], ◌∷◌, ◌≡◌, refl,
  ◌∙◌, ap, subst, arith, AllSome, AllSome-map, All, str_eq, eq_iff,
}
use gazetteer.Prelude.Dict.{Dict, lookup, lookup-nil}
use gazetteer.Prelude.Names.{holds, are_distinct}
use gazetteer.Dossier.{Methods, Result}
use gazetteer.Client.{Ctx, Source, Config, names_of}
use gazetteer.Client.Collect.{
  Phase, Action, Event, Task, Shared, all_queued, advance, step_at, no_results, run_events-keeps,
  collect, moved_task, kept_task,
}
use gazetteer.Client.Envelope.{is_none}
use gazetteer.Client.Recorded.{IsRecorded, IsFine, advance-IsFine, advance-others, IsFine-frame}

abbrev pub is_finished : Phase → Bool
is_finished Phase.finished = true
is_finished _ = false

is_finished→eq : (phase : Phase) → is_finished phase ≡ true → phase ≡ Phase.finished
is_finished→eq phase h = ground (arith, h)

module _ {L V : Type 0} where
  abbrev pub sources_of : List (Task L V) → List (Source L V)
  sources_of [] = []
  sources_of (t ∷ rest) = t.source ∷ sources_of rest

  abbrev pub are_finished : List (Task L V) → Bool
  are_finished [] = true
  are_finished (t ∷ rest) = is_finished t.phase && are_finished rest

module _ {L V : Type 0} (c : Config L V) (ms : Methods V) (ctx : Ctx) (l : L) where
  abbrev AreFine : List (Task L V) → Dict (Result V) → Type 0
  AreFine [] results = Unit {0}
  AreFine (t ∷ rest) results = IsFine c ms ctx l t.source t.phase results × AreFine rest results

  abbrev task_names : List (Task L V) → List String
  task_names tasks = names_of (sources_of tasks)

  AreFine-frame :
      (tasks : List (Task L V)) (results after : Dict (Result V))
      → ((n : String) → holds n (task_names tasks) ≡ true → lookup n after ≡ lookup n results)
      → AreFine tasks results
      → AreFine tasks after
  AreFine-frame [] results after same h = tt
  AreFine-frame (t ∷ rest) results after same h = (
    IsFine-frame c ms ctx l t.source t.phase results after
        (same t.source.name (ground (arith, eq_iff t.source.name t.source.name))) h.0,
    AreFine-frame rest results after (λ n held. same n (ground (arith, held))) h.1,
  )

  -- What a step keeps, of the tasks and of the results that were there before it.
  abbrev Keeps : List (Task L V) → Dict (Result V) → List (Task L V) × Shared V → Type 0
  Keeps tasks before m =
      (sources_of m.0 ≡ sources_of tasks)
      × ((n : String) → holds n (task_names tasks) ≡ false → lookup n m.1.results ≡ lookup n before)
      × AreFine m.0 m.1.results

  moved_task-Keeps :
      (t : Task L V) (rest : List (Task L V)) (before : Dict (Result V))
      (o : Option (Phase × Shared V))
      → holds t.source.name (task_names rest) ≡ false
      → AreFine rest before
      → AllSome (λ m. IsFine c ms ctx l t.source m.0 m.1.results) o
      → ((n : String)
          → str_eq t.source.name n ≡ false
          → AllSome (λ m. lookup n m.1.results ≡ lookup n before) o)
      → AllSome (Keeps (t ∷ rest) before) (moved_task t.source rest o)
  moved_task-Keeps t rest before none fresh fine moved others = tt
  moved_task-Keeps t rest before (some m) fresh fine moved others = (
    refl,
    λ n apart. others n (ground (arith, apart, eq_iff t.source.name n, eq_iff n t.source.name)),
    (
      moved,
      AreFine-frame rest before m.1.results
          (λ n held. others n (ground (arith, held, fresh, eq_iff t.source.name n))) fine,
    ),
  )

  kept_task-Keeps :
      (t : Task L V) (rest : List (Task L V)) (before : Dict (Result V))
      (o : Option (List (Task L V) × Shared V))
      → holds t.source.name (task_names rest) ≡ false
      → IsFine c ms ctx l t.source t.phase before
      → AllSome (Keeps rest before) o
      → AllSome (Keeps (t ∷ rest) before) (kept_task t o)
  kept_task-Keeps t rest before none fresh fine kept = tt
  kept_task-Keeps t rest before (some m) fresh fine kept = (
    ap (λ rest. t.source ∷ rest) kept.0,
    λ n apart. kept.1 n (ground (arith, apart)),
    (
      IsFine-frame c ms ctx l t.source t.phase before m.1.results (kept.1 t.source.name fresh) fine,
      kept.2,
    ),
  )

  step_at-Keeps :
      (i now : ℕ) (action : Action) (tasks : List (Task L V)) (sh : Shared V)
      → are_distinct (task_names tasks) ≡ true
      → AreFine tasks sh.results
      → AllSome (Keeps tasks sh.results) (step_at c ms ctx l i now action tasks sh)
  unfolding step_at
  step_at-Keeps i now action [] sh distinct fine = tt
  step_at-Keeps zero now action (t ∷ rest) sh distinct fine =
      moved_task-Keeps t rest sh.results (advance c ms ctx l t.source now action t.phase sh)
        (ground (arith, distinct)) fine.1
        (advance-IsFine c ms ctx l t.source now action t.phase sh fine.0)
        (advance-others c ms ctx l t.source now action t.phase sh)
  step_at-Keeps (suc i) now action (t ∷ rest) sh distinct fine =
      kept_task-Keeps t rest sh.results (step_at c ms ctx l i now action rest sh)
        (ground (arith, distinct)) fine.0
        (step_at-Keeps i now action rest sh (ground (arith, distinct)) fine.1)

  abbrev Holds : List (Source L V) → List (Task L V) × Shared V → Type 0
  Holds ss m =
      (sources_of m.0 ≡ ss)
      × ((n : String) → holds n (names_of ss) ≡ false → lookup n m.1.results ≡ none)
      × AreFine m.0 m.1.results

  step_at-Holds :
      (ss : List (Source L V))
      → are_distinct (names_of ss) ≡ true
      → (i now : ℕ) (action : Action) (tasks : List (Task L V)) (sh : Shared V)
      → Holds ss (tasks, sh)
      → AllSome (Holds ss) (step_at c ms ctx l i now action tasks sh)
  step_at-Holds ss distinct i now action tasks sh h =
      AllSome-map (Keeps tasks sh.results) (Holds ss) (step_at c ms ctx l i now action tasks sh)
        (step_at-Keeps i now action tasks sh (ap (λ xs. are_distinct (names_of xs)) h.0 ∙ distinct)
          h.2)
        (λ m kept. (
          kept.0 ∙ h.0,
          λ n apart. kept.1 n (ap (λ xs. holds n (names_of xs)) h.0 ∙ apart) ∙ h.1 n apart,
          kept.2,
        ))

  sources_of-all_queued : (ss : List (Source L V)) → sources_of (all_queued ss) ≡ ss
  sources_of-all_queued [] = refl
  sources_of-all_queued (s ∷ ss) = ap (λ rest. s ∷ rest) (sources_of-all_queued ss)

  AreFine-all_queued :
      (ss : List (Source L V)) (results : Dict (Result V)) → AreFine (all_queued ss) results
  AreFine-all_queued [] results = tt
  AreFine-all_queued (s ∷ ss) results = (tt, AreFine-all_queued ss results)

  are_finished-IsRecorded :
      (tasks : List (Task L V)) (results : Dict (Result V))
      → are_finished tasks ≡ true
      → AreFine tasks results
      → All (λ s. IsRecorded c ms ctx l s results) (sources_of tasks)
  are_finished-IsRecorded [] results done fine = tt
  are_finished-IsRecorded (t ∷ rest) results done fine = (
    subst (λ phase. IsFine c ms ctx l t.source phase results)
        (is_finished→eq t.phase (ground (arith, done))) fine.0,
    are_finished-IsRecorded rest results (ground (arith, done)) fine.1,
  )

  lookup-recorded :
      (n : String) (ss : List (Source L V)) (results : Dict (Result V))
      → All (λ s. IsRecorded c ms ctx l s results) ss
      → holds n (names_of ss) ≡ true
      → is_none (lookup n results) ≡ false
  lookup-recorded n [] results all held = ground (arith, held)
  lookup-recorded n (s ∷ ss) results all held =
      ground (arith, held, eq_iff n s.name, all.0.1, lookup-recorded n ss results all.1)

  collect-Holds :
      (es : List Event) (ss : List (Source L V))
      → are_distinct (names_of ss) ≡ true
      → AllSome (Holds ss) (collect c ms ctx l es ss)
  unfolding collect
  collect-Holds es ss distinct =
      run_events-keeps c ms ctx l (Holds ss) (step_at-Holds ss distinct) es (all_queued ss)
        no_results (sources_of-all_queued ss, λ n apart. lookup-nil n, AreFine-all_queued ss [])

  -- When every goroutine of a Collect over Sources with distinct names has ended, in whatever
  -- order they ran, there is one Result under the name of every Source and none under another
  -- name. It is what runOne gives from some start, or, if the context ended first, that of a
  -- Source that was not run; and under a cap no Source starts once the context has ended.
  pub collect_complete :
      (es : List Event) (ss : List (Source L V)) (tasks : List (Task L V)) (sh : Shared V)
      (n : String)
      → are_distinct (names_of ss) ≡ true
      → collect c ms ctx l es ss ≡ some (tasks, sh)
      → are_finished tasks ≡ true
      → All (λ s. IsRecorded c ms ctx l s sh.results) ss
        × (is_none (lookup n sh.results) ≡ not (holds n (names_of ss)))
  collect_complete es ss tasks sh n distinct ran done =
      let h : Holds ss (tasks, sh) =
        subst (AllSome (Holds ss)) ran (collect-Holds es ss distinct) in
      let all : All (λ s. IsRecorded c ms ctx l s sh.results) ss =
        subst (All (λ s. IsRecorded c ms ctx l s sh.results)) h.0
          (are_finished-IsRecorded tasks sh.results done h.2) in
      (all, ground (arith, h.1 n, lookup-recorded n ss sh.results all))
