-- ===== src/Client/Progress.antt =====
-- That collect (gazetteer/gazetteer.go) comes to its end: every action brings its goroutine
-- nearer to it, and no order of actions gets stuck.
use gazetteer.Prelude.{
  ℕ, zero, suc, ◌+◌, ◌*◌, ◌≤◌, ltb, Bool, true, false, ◌||◌, ap, Option, none, some, List, [], ◌∷◌,
  ◌≡◌, refl, ◌∙◌, length, arith, AllSome, AllSome-map, AllSome-and_then, inl, inr, Bool-cases,
}
use gazetteer.Prelude.Int.{is_positive, ℤ}
use gazetteer.Dossier.{Methods}
use gazetteer.Client.{Ctx, Source, Config}
use gazetteer.Client.Complete.{are_finished}
use gazetteer.Client.Slots.{slots, collect-bounded}
use gazetteer.Client.Collect.{
  Phase, Action, Event, Task, Shared, all_queued, advance, step_at, run_events, no_results, collect,
  moved_task, kept_task, capacity, took_of,
}

-- The actions that a goroutine can still take, at most.
abbrev pub left_of : Phase → ℕ
left_of Phase.queued = 5
left_of Phase.selecting = 4
left_of Phase.holding = 3
left_of (Phase.running start) = 2
left_of Phase.recorded = 1
left_of (Phase.abandoning e) = 1
left_of Phase.finished = 0

abbrev pub is_some {ℓ} : {A : Type ℓ} → Option A → Bool
is_some none = false
is_some (some a) = true

-- Can the goroutine act, with or without a free slot?
abbrev is_ready : Bool → Phase → Bool
is_ready free Phase.selecting = free
is_ready free Phase.finished = false
is_ready free _ = true

slots_taken :
    (cap : ℤ) (used taken : ℕ)
    → is_positive cap ≡ true
    → ltb used (capacity cap) ≡ false
    → used ≡ taken
    → 1 ≤ taken
slots_taken cap used taken limited full same = ground (arith, limited, full, same)

module _ {L V : Type 0} where
  abbrev any_ready : Bool → List (Task L V) → Bool
  any_ready free [] = false
  any_ready free (t ∷ rest) = is_ready free t.phase || any_ready free rest

  any_ready-free :
      (tasks : List (Task L V)) → are_finished tasks ≡ false → any_ready true tasks ≡ true
  any_ready-free [] h = ground (arith, h)
  any_ready-free (t ∷ rest) h = ground (arith, h, any_ready-free rest)

  any_ready-full : (tasks : List (Task L V)) → 1 ≤ slots tasks → any_ready false tasks ≡ true
  any_ready-full [] h = ground (arith, h)
  any_ready-full (t ∷ rest) h = ground (arith, h, any_ready-full rest)

  abbrev pub left : List (Task L V) → ℕ
  left [] = 0
  left (t ∷ rest) = left_of t.phase + left rest

  left-all_queued : (ss : List (Source L V)) → left (all_queued ss) ≡ 5 * length ss
  left-all_queued [] = refl
  left-all_queued (s ∷ ss) = omega (arith, left-all_queued ss)

  moved_task-left :
      (t : Task L V) (rest : List (Task L V)) (o : Option (Phase × Shared V))
      → AllSome (λ m. suc (left_of m.0) ≤ left_of t.phase) o
      → AllSome (λ m. suc (left m.0) ≤ left_of t.phase + left rest) (moved_task t.source rest o)
  moved_task-left t rest none h = tt
  moved_task-left t rest (some m) h = omega (arith, h)

  kept_task-left :
      (t : Task L V) (rest : List (Task L V)) (o : Option (List (Task L V) × Shared V))
      → AllSome (λ m. suc (left m.0) ≤ left rest) o
      → AllSome (λ m. suc (left m.0) ≤ left_of t.phase + left rest) (kept_task t o)
  kept_task-left t rest none h = tt
  kept_task-left t rest (some m) h = omega (arith, h)

module _ {L V : Type 0} (c : Config L V) (ms : Methods V) (ctx : Ctx) (l : L) where
  advance-left :
      (s : Source L V) (now : ℕ) (action : Action) (phase : Phase) (sh : Shared V)
      → AllSome (λ m. suc (left_of m.0) ≤ left_of phase) (advance c ms ctx l s now action phase sh)
  unfolding advance
  advance-left s now action phase sh = ground arith

  pub step_at-left :
      (i now : ℕ) (action : Action) (tasks : List (Task L V)) (sh : Shared V)
      → AllSome (λ m. suc (left m.0) ≤ left tasks) (step_at c ms ctx l i now action tasks sh)
  unfolding step_at
  step_at-left i now action [] sh = tt
  step_at-left zero now action (t ∷ rest) sh =
      moved_task-left t rest (advance c ms ctx l t.source now action t.phase sh)
        (advance-left t.source now action t.phase sh)
  step_at-left (suc i) now action (t ∷ rest) sh =
      kept_task-left t rest (step_at c ms ctx l i now action rest sh)
        (step_at-left i now action rest sh)

  run_events-left :
      (es : List Event) (tasks : List (Task L V)) (sh : Shared V)
      → AllSome (λ m. length es + left m.0 ≤ left tasks) (run_events c ms ctx l es tasks sh)
  unfolding run_events
  run_events-left [] tasks sh = omega arith
  run_events-left (e ∷ es) tasks sh =
      AllSome-and_then (λ m. suc (left m.0) ≤ left tasks)
        (λ m. suc (length es) + left m.0 ≤ left tasks)
        (step_at c ms ctx l e.task e.now e.action tasks sh) (λ m. run_events c ms ctx l es m.0 m.1)
        (step_at-left e.task e.now e.action tasks sh)
        (λ m less.
          AllSome-map (λ n. length es + left n.0 ≤ left m.0)
            (λ n. suc (length es) + left n.0 ≤ left tasks) (run_events c ms ctx l es m.0 m.1)
            (run_events-left es m.0 m.1) (λ n h. omega (arith, less, h)))

  pub collect-left :
      (es : List Event) (ss : List (Source L V))
      → AllSome (λ m. length es ≤ 5 * length ss) (collect c ms ctx l es ss)
  unfolding collect
  collect-left es ss =
      AllSome-map (λ m. length es + left m.0 ≤ left (all_queued ss))
        (λ m. length es ≤ 5 * length ss) (run_events c ms ctx l es (all_queued ss) no_results)
        (run_events-left es (all_queued ss) no_results)
        (λ m h. omega (arith, h, left-all_queued ss))

  -- What a goroutine does next, at the earliest time.
  abbrev next_of : Source L V → Phase → ℕ × Action
  next_of s Phase.queued = (0, Action.look)
  next_of s Phase.selecting = (0, Action.take)
  next_of s Phase.holding = (0, Action.recheck)
  next_of s (Phase.running start) = (start + took_of c ms ctx l s start, Action.write)
  next_of s Phase.recorded = (0, Action.release)
  next_of s _ = (0, Action.write)

  advance-next_of :
      (s : Source L V) (phase : Phase) (sh : Shared V)
      → is_ready (ltb sh.used (capacity c.max_concur)) phase ≡ true
      → is_some (advance c ms ctx l s (next_of s phase).0 (next_of s phase).1 phase sh) ≡ true
  unfolding advance
  advance-next_of s phase sh ready = ground (arith, ready)

  is_some-moved_task :
      (s : Source L V) (rest : List (Task L V)) (o : Option (Phase × Shared V))
      → is_some o ≡ true
      → is_some (moved_task s rest o) ≡ true
  is_some-moved_task s rest o h = ground (arith, h)

  is_some-kept_task :
      (t : Task L V) (o : Option (List (Task L V) × Shared V))
      → is_some o ≡ true
      → is_some (kept_task t o) ≡ true
  is_some-kept_task t o h = ground (arith, h)

  -- Some goroutine has an action that it can take.
  abbrev pub IsEnabled : List (Task L V) → Shared V → Type 0
  IsEnabled tasks sh =
      (i : ℕ) × (now : ℕ) × (action : Action) × (is_some (step_at c ms ctx l i now action tasks sh)
        ≡ true)

  ready-IsEnabled :
      (tasks : List (Task L V)) (sh : Shared V)
      → any_ready (ltb sh.used (capacity c.max_concur)) tasks ≡ true
      → IsEnabled tasks sh
  unfolding step_at
  ready-IsEnabled [] sh ready = ground (arith, ready)
  ready-IsEnabled (t ∷ rest) sh ready =
      elim (Bool-cases (is_ready (ltb sh.used (capacity c.max_concur)) t.phase)) [
        | inl now ↦
            let next = next_of t.source t.phase in
            (
              zero,
              next.0,
              next.1,
              is_some-moved_task t.source rest
                  (advance c ms ctx l t.source next.0 next.1 t.phase sh)
                  (advance-next_of t.source t.phase sh now),
            )
        | inr later ↦
            let h = ready-IsEnabled rest sh (ground (arith, ready, later)) in
            (suc h.0, h.1, h.2, is_some-kept_task t (step_at c ms ctx l h.0 h.1 h.2 rest sh) h.3)
      ]

  -- Under a positive cap no order of actions gets stuck: as long as some goroutine has not ended,
  -- some goroutine has an action that it can take.
  pub collect-progress :
      (es : List Event) (ss : List (Source L V)) (tasks : List (Task L V)) (sh : Shared V)
      → is_positive c.max_concur ≡ true
      → collect c ms ctx l es ss ≡ some (tasks, sh)
      → are_finished tasks ≡ false
      → IsEnabled tasks sh
  collect-progress es ss tasks sh limited ran unfinished =
      let balanced = collect-bounded c ms ctx l es ss tasks sh limited ran in
      ready-IsEnabled tasks sh (elim (Bool-cases (ltb sh.used (capacity c.max_concur))) [
        | inl free ↦ ap (λ b. any_ready b tasks) free ∙ any_ready-free tasks unfinished
        | inr full ↦
            ap (λ b. any_ready b tasks) full
            ∙ any_ready-full tasks
                (slots_taken c.max_concur sh.used (slots tasks) limited full balanced.0)
      ])
