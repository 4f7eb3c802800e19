-- ===== src/Client/Slots.antt =====
-- The semaphore of collect (gazetteer/gazetteer.go).
use gazetteer.Prelude.{
  ℕ, zero, suc, ◌+◌, ◌≤◌, true, Option, none, some, List, [], ◌∷◌, ◌≡◌, refl, subst, arith, AllSome,
  AllSome-map,
}
use gazetteer.Prelude.Int.{is_positive}
use gazetteer.Dossier.{Methods}
use gazetteer.Client.{Ctx, Source, Config}
use gazetteer.Client.Collect.{
  Phase, Action, Event, Task, Shared, capacity, all_queued, advance, step_at, no_results,
  run_events-keeps, collect, moved_task, kept_task,
}

-- The goroutines that hold a slot of the semaphore.
abbrev pub slot_of : Phase → ℕ
slot_of Phase.holding = 1
slot_of (Phase.running start) = 1
slot_of Phase.recorded = 1
slot_of _ = 0

abbrev pub running_of : Phase → ℕ
running_of (Phase.running start) = 1
running_of _ = 0

module _ {L V : Type 0} where
  abbrev pub slots : List (Task L V) → ℕ
  slots [] = 0
  slots (t ∷ rest) = slot_of t.phase + slots rest

  abbrev pub running : List (Task L V) → ℕ
  running [] = 0
  running (t ∷ rest) = running_of t.phase + running rest

  running≤slots : (tasks : List (Task L V)) → running tasks ≤ slots tasks
  running≤slots [] = omega arith
  running≤slots (t ∷ rest) = ground (arith, running≤slots rest)

module _ {L V : Type 0} (c : Config L V) (ms : Methods V) (ctx : Ctx) (l : L) where
  advance-slots :
      (s : Source L V) (now : ℕ) (action : Action) (phase : Phase) (sh : Shared V)
      → is_positive c.max_concur ≡ true
      → slot_of phase ≤ sh.used
      → sh.used ≤ capacity c.max_concur
      → AllSome
          (λ m.
            (m.1.used + slot_of phase ≡ sh.used + slot_of m.0) × (m.1.used ≤ capacity c.max_concur))
          (advance c ms ctx l s now action phase sh)
  unfolding advance
  advance-slots s now action phase sh limited held bound = ground arith

  abbrev Balanced : List (Task L V) × Shared V → Type 0
  Balanced m = (m.1.used ≡ slots m.0) × (m.1.used ≤ capacity c.max_concur)

  abbrev MovesSlots : ℕ → ℕ → List (Task L V) × Shared V → Type 0
  MovesSlots before held m =
      (m.1.used + held ≡ before + slots m.0) × (m.1.used ≤ capacity c.max_concur)

  moved_task-slots :
      (s : Source L V) (rest : List (Task L V)) (before held : ℕ) (o : Option (Phase × Shared V))
      → AllSome
          (λ m. (m.1.used + held ≡ before + slot_of m.0) × (m.1.used ≤ capacity c.max_concur))
          o
      → AllSome (MovesSlots before (held + slots rest)) (moved_task s rest o)
  moved_task-slots s rest before held none h = tt
  moved_task-slots s rest before held (some m) h = (omega (arith, h.0), h.1)

  kept_task-slots :
      (t : Task L V) (before held : ℕ) (o : Option (List (Task L V) × Shared V))
      → AllSome (MovesSlots before held) o
      → AllSome (MovesSlots before (slot_of t.phase + held)) (kept_task t o)
  kept_task-slots t before held none h = tt
  kept_task-slots t before held (some m) h = (omega (arith, h.0), h.1)

  step_at-slots :
      (i now : ℕ) (action : Action) (tasks : List (Task L V)) (sh : Shared V)
      → is_positive c.max_concur ≡ true
      → slots tasks ≤ sh.used
      → sh.used ≤ capacity c.max_concur
      → AllSome (MovesSlots sh.used (slots tasks)) (step_at c ms ctx l i now action tasks sh)
  unfolding step_at
  step_at-slots i now action [] sh limited held bound = tt
  step_at-slots zero now action (t ∷ rest) sh limited held bound =
      moved_task-slots t.source rest sh.used (slot_of t.phase)
        (advance c ms ctx l t.source now action t.phase sh)
        (advance-slots t.source now action t.phase sh limited (omega (arith, held)) bound)
  step_at-slots (suc i) now action (t ∷ rest) sh limited held bound =
      kept_task-slots t sh.used (slots rest) (step_at c ms ctx l i now action rest sh)
        (step_at-slots i now action rest sh limited (omega (arith, held)) bound)

  slots-all_queued : (ss : List (Source L V)) → slots (all_queued ss) ≡ 0
  slots-all_queued [] = refl
  slots-all_queued (s ∷ ss) = omega (arith, slots-all_queued ss)

  step_at-Balanced :
      (i now : ℕ) (action : Action) (tasks : List (Task L V)) (sh : Shared V)
      → is_positive c.max_concur ≡ true
      → Balanced (tasks, sh)
      → AllSome Balanced (step_at c ms ctx l i now action tasks sh)
  step_at-Balanced i now action tasks sh limited h =
      AllSome-map (MovesSlots sh.used (slots tasks)) Balanced
        (step_at c ms ctx l i now action tasks sh)
        (step_at-slots i now action tasks sh limited (omega (arith, h.0)) h.1)
        (λ m moved. (omega (arith, moved.0, h.0), moved.1))

  collect-Balanced :
      (es : List Event) (ss : List (Source L V))
      → is_positive c.max_concur ≡ true
      → AllSome Balanced (collect c ms ctx l es ss)
  unfolding collect
  collect-Balanced es ss limited =
      run_events-keeps c ms ctx l Balanced
        (λ i now action tasks sh. step_at-Balanced i now action tasks sh limited) es (all_queued ss)
        no_results (omega (arith, slots-all_queued ss), omega arith)

  -- With a positive cap, however the goroutines are interleaved and whenever the context ends,
  -- no more Sources run at one time than the cap, and the semaphore holds exactly one value for
  -- every goroutine that has taken a slot and not handed it back.
  pub collect-bounded :
      (es : List Event) (ss : List (Source L V)) (tasks : List (Task L V)) (sh : Shared V)
      → is_positive c.max_concur ≡ true
      → collect c ms ctx l es ss ≡ some (tasks, sh)
      → (sh.used ≡ slots tasks) × (running tasks ≤ capacity c.max_concur)
  collect-bounded es ss tasks sh limited ran =
      let h : Balanced (tasks, sh) =
        subst (AllSome Balanced) ran (collect-Balanced es ss limited) in
      (h.0, omega (arith, h.0, h.1, running≤slots tasks))
