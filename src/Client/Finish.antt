-- ===== src/Client/Finish.antt =====
-- That the goroutines of collect (gazetteer/gazetteer.go) can all come to their end, whatever they
-- have done.
use mathlib.Core.List.{append-nil}
use gazetteer.Prelude.{
  ℕ, zero, suc, ◌-◌, ◌*◌, ◌≤◌, true, ap, subst, sym, Option, none, some, List, [], ◌∷◌, ◌++◌, ◌≡◌,
  refl, ◌∙◌, length, arith, AllSome, inl, inr, Bool-cases, Option-cases, and_then,
}
use gazetteer.Prelude.Int.{is_positive}
use gazetteer.Dossier.{Methods}
use gazetteer.Client.{Ctx, Source, Config}
use gazetteer.Client.Complete.{are_finished}
use gazetteer.Client.Progress.{left, step_at-left, collect-left, collect-progress}
use gazetteer.Client.Collect.{
  Event, Task, Shared, step_at, run_events, collect, all_queued, no_results,
}

append-one : (es fs : List Event) (e : Event) → (es ++ (e ∷ [])) ++ fs ≡ es ++ (e ∷ fs)
append-one [] fs e = refl
append-one (f ∷ es) fs e = ap (λ rest. f ∷ rest) (append-one es fs e)

module _ {A : Type 0} where
  and_then-some : (o : Option A) → and_then o (λ m. some m) ≡ o
  and_then-some none = refl
  and_then-some (some m) = refl

  and_then-same :
      (o : Option A) (f g h : A → Option A)
      → ((m : A) → f m ≡ and_then (g m) h)
      → and_then o f ≡ and_then (and_then o g) h
  and_then-same none f g h eq = refl
  and_then-same (some m) f g h eq = eq m

module _ {L V : Type 0} (c : Config L V) (ms : Methods V) (ctx : Ctx) (l : L) where
  run_events-append :
      (es : List Event) (e : Event) (tasks : List (Task L V)) (sh : Shared V)
      → run_events c ms ctx l (es ++ (e ∷ [])) tasks sh
        ≡ and_then
            (run_events c ms ctx l es tasks sh)
            (λ m. step_at c ms ctx l e.task e.now e.action m.0 m.1)
  unfolding run_events
  run_events-append [] e tasks sh =
      and_then-some (step_at c ms ctx l e.task e.now e.action tasks sh)
  run_events-append (f ∷ es) e tasks sh =
      and_then-same (step_at c ms ctx l f.task f.now f.action tasks sh)
        (λ m. run_events c ms ctx l (es ++ (e ∷ [])) m.0 m.1)
        (λ m. run_events c ms ctx l es m.0 m.1)
        (λ m. step_at c ms ctx l e.task e.now e.action m.0 m.1)
        (λ m. run_events-append es e m.0 m.1)

  -- The events can go on to where every goroutine has ended, with at most five a Source in all.
  pub record CanFinish (es : List Event) (ss : List (Source L V)) : Type 0 where
    pub more : List Event
    pub tasks : List (Task L V)
    pub shared : Shared V
    pub ran : collect c ms ctx l (es ++ more) ss ≡ some (tasks, shared)
    pub ended : are_finished tasks ≡ true
    pub short : length (es ++ more) ≤ 5 * length ss

  CanFinish-step :
      (es : List Event) (e : Event) (ss : List (Source L V))
      → CanFinish (es ++ (e ∷ [])) ss
      → CanFinish es ss
  CanFinish-step es e ss h = record {
    more = e ∷ h.more;
    tasks = h.tasks;
    shared = h.shared;
    ran =
        subst (λ es. collect c ms ctx l es ss ≡ some (h.tasks, h.shared)) (append-one es h.more e)
          h.ran;
    ended = h.ended;
    short = subst (λ es. length es ≤ 5 * length ss) (append-one es h.more e) h.short;
  }

  collect-append :
      (es : List Event) (e : Event) (ss : List (Source L V)) (m : List (Task L V) × Shared V)
      → collect c ms ctx l es ss ≡ some m
      → collect c ms ctx l (es ++ (e ∷ [])) ss ≡ step_at c ms ctx l e.task e.now e.action m.0 m.1
  unfolding collect
  collect-append es e ss m ran =
      run_events-append es e (all_queued ss) no_results
      ∙ ap (λ o. and_then o (λ m. step_at c ms ctx l e.task e.now e.action m.0 m.1)) ran

  finished :
      (es : List Event) (ss : List (Source L V)) (m : List (Task L V) × Shared V)
      → collect c ms ctx l es ss ≡ some m
      → are_finished m.0 ≡ true
      → CanFinish es ss
  finished es ss m ran done =
      let same = append-nil es in
      record {
        more = [];
        tasks = m.0;
        shared = m.1;
        ran = ap (λ es. collect c ms ctx l es ss) same ∙ ran;
        ended = done;
        short =
            subst (λ es. length es ≤ 5 * length ss) (sym same)
              (subst (AllSome (λ m. length es ≤ 5 * length ss)) ran
                (collect-left c ms ctx l es ss));
      }

  abbrev Prolongs : ℕ → Type 0
  Prolongs n =
      (es : List Event) (ss : List (Source L V)) (m : List (Task L V) × Shared V)
      → is_positive c.max_concur ≡ true
      → collect c ms ctx l es ss ≡ some m
      → left m.0 ≤ n
      → CanFinish es ss

  -- After an action that some goroutine can take.
  prolong-by :
      (n : ℕ) (e : Event) (es : List Event) (ss : List (Source L V))
      → (m next : List (Task L V) × Shared V) → ((k : ℕ) → suc k ≡ n → Prolongs k)
      → is_positive c.max_concur ≡ true
      → collect c ms ctx l es ss ≡ some m
      → left m.0 ≤ n
      → step_at c ms ctx l e.task e.now e.action m.0 m.1 ≡ some next
      → CanFinish es ss
  prolong-by n e es ss m next shorter limited ran few steps =
      let less : suc (left next.0) ≤ left m.0 =
        subst (AllSome (λ next. suc (left next.0) ≤ left m.0)) steps
          (step_at-left c ms ctx l e.task e.now e.action m.0 m.1) in
      CanFinish-step es e ss (
        shorter (n - 1) (omega (arith, less, few)) (es ++ (e ∷ [])) ss next limited
          (collect-append es e ss m ran ∙ steps) (omega (arith, less, few)))

  -- By the actions that are left.
  prolong-step : (n : ℕ) → ((k : ℕ) → suc k ≡ n → Prolongs k) → Prolongs n
  prolong-step n shorter es ss m limited ran few = elim (Bool-cases (are_finished m.0)) [
    | inl done ↦ finished es ss m ran done
    | inr going ↦
        let (i, now, action, enabled) =
          collect-progress c ms ctx l es ss m.0 m.1 limited ran going in
        elim (Option-cases (step_at c ms ctx l i now action m.0 m.1)) [
          | inl stuck ↦ ground (arith, enabled, stuck)
          | inr next ↦
              prolong-by n (record { task = i; now = now; action = action }) es ss m next.0 shorter
                limited ran few next.1
        ]
  ]

  prolong : (n : ℕ) → Prolongs n
  prolong zero = prolong-step zero (λ k e. ground (arith, e))
  prolong (suc n) = prolong-step (suc n) (λ k e. subst Prolongs (omega (arith, e)) (prolong n))

  -- A Collect under a positive cap comes to its end: whatever its goroutines have done, they can go
  -- on to where all of them have ended, with at most five actions for each Source from the start.
  pub collect-finishes :
      (es : List Event) (ss : List (Source L V)) (tasks : List (Task L V)) (sh : Shared V)
      → is_positive c.max_concur ≡ true
      → collect c ms ctx l es ss ≡ some (tasks, sh)
      → CanFinish es ss
  collect-finishes es ss tasks sh limited ran =
      prolong (left tasks) es ss (tasks, sh) limited ran (omega arith)
