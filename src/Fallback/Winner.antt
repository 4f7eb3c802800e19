-- ===== src/Fallback/Winner.antt =====
-- Which tier Walk (helpers/fallback/fallback.go) returns, and what its error wraps.
use gazetteer.Prelude.{
  ℕ, suc, ◌+◌, Bool, false, ◌||◌, Option, none, some, List, [], ◌∷◌, ◌++◌, ◌≡◌, refl, ◌∙◌, sym, ap,
  arith, if◌then◌else◌, length,
}
use mathlib.Core.List.{append-nil}
use gazetteer.Errors.{Err, Node, Result, ok, err, any_node}
use gazetteer.Fallback.{
  Output, Tier, named, is_skipped, join_all, exhausted, error_of, skip_of, walk_from, walk,
}

append-one : (es fs : List Err) (e : Err) → (es ++ (e ∷ [])) ++ fs ≡ es ++ (e ∷ fs)
append-one [] fs e = refl
append-one (f ∷ es) fs e = ap (λ rest. f ∷ rest) (append-one es fs e)

-- errors.Is of what Walk returns.
abbrev pub is_error_with : (Node → Bool) → Result Output → Bool
is_error_with p (ok out) = false
is_error_with p (err e) = any_node p e

abbrev pub some_error_with : (Node → Bool) → List Err → Bool
some_error_with p [] = false
some_error_with p (e ∷ es) = any_node p e || some_error_with p es

any_node-join_all :
    (p : Node → Bool) (es : List Err)
    → p (Node.text "") ≡ false
    → any_node p (join_all es) ≡ some_error_with p es
unfolding any_node
any_node-join_all p [] plain = plain
any_node-join_all p (e ∷ es) plain = ground (arith, plain, any_node-join_all p es plain)

module _ {I : Type 0} (done : ℕ → Option Err) (input : I) where
  -- What a tier adds to the errors, if it does not win.
  abbrev pub missed : Tier I → Option Err
  missed t = elim (t.try input) [
    | err e ↦ some (error_of done input t e)
    | ok out ↦ if is_skipped t.skip_on out then some (skip_of done input t) else none
  ]

  -- The tiers all miss, each with its error, and the context has not ended before any.
  abbrev pub AreMissed : ℕ → List (Tier I) → List Err → Type 0
  AreMissed i [] [] = Unit {0}
  AreMissed i [] (e ∷ es) = ⊥
  AreMissed i (t ∷ rest) [] = ⊥
  AreMissed i (t ∷ rest) (e ∷ es) =
      (done i ≡ none) × (missed t ≡ some e) × AreMissed (suc i) rest es

  abbrev later : ℕ → List (Tier I) → ℕ
  later i [] = i
  later i (t ∷ rest) = later (suc i) rest

  later-eq : (i : ℕ) (ts : List (Tier I)) → later i ts ≡ i + length ts
  later-eq i [] = omega arith
  later-eq i (t ∷ rest) = omega (arith, later-eq (suc i) rest)

  walk_from-misses :
      (i : ℕ) (t : Tier I) (rest : List (Tier I)) (e : Err) (collected : List Err)
      → done i ≡ none
      → missed t ≡ some e
      → (walk_from done input i (t ∷ rest) collected).outcome
          ≡ (walk_from done input (suc i) rest (collected ++ (e ∷ []))).outcome
        × (length (walk_from done input i (t ∷ rest) collected).events
            ≡ suc (length (walk_from done input (suc i) rest (collected ++ (e ∷ []))).events))
  unfolding walk_from
  walk_from-misses i t rest e collected going miss = ground (arith, going, miss)

  walk_from-wins :
      (i : ℕ) (ts rest : List (Tier I)) (t : Tier I) (out : Output) (es collected : List Err)
      → AreMissed i ts es
      → done (later i ts) ≡ none
      → t.try input ≡ ok out
      → is_skipped t.skip_on out ≡ false
      → (walk_from done input i (ts ++ (t ∷ rest)) collected).outcome ≡ ok (named t.name out)
        × (length (walk_from done input i (ts ++ (t ∷ rest)) collected).events ≡ suc (length ts))
  unfolding walk_from
  walk_from-wins i [] rest t out [] collected before going tried kept =
      ground (arith, going, tried, kept)
  walk_from-wins i [] rest t out (e ∷ es) collected before going tried kept = elim before [ ]
  walk_from-wins i (u ∷ ts) rest t out [] collected before going tried kept = elim before [ ]
  walk_from-wins i (u ∷ ts) rest t out (e ∷ es) collected before going tried kept =
      let first = walk_from-misses i u (ts ++ (t ∷ rest)) e collected before.0 before.1 in
      let next =
        walk_from-wins (suc i) ts rest t out es (collected ++ (e ∷ [])) before.2 going tried kept in
      (first.0 ∙ next.0, omega (arith, first.1, next.1))

  walk-append :
      (ts rest : List (Tier I)) (t : Tier I)
      → walk done input (ts ++ (t ∷ rest)) ≡ walk_from done input 0 (ts ++ (t ∷ rest)) []
  unfolding walk
  walk-append [] rest t = refl
  walk-append (u ∷ ts) rest t = refl

  -- The first tier that neither fails nor skips wins, be it the first of the ladder or after others
  -- that all fail or skip: its output is returned under its name, and no tier after it is tried,
  -- where the context does not end before it.
  pub walk-wins :
      (ts rest : List (Tier I)) (t : Tier I) (out : Output) (es : List Err)
      → AreMissed 0 ts es
      → done (length ts) ≡ none
      → t.try input ≡ ok out
      → is_skipped t.skip_on out ≡ false
      → (walk done input (ts ++ (t ∷ rest))).outcome ≡ ok (named t.name out)
        × (length (walk done input (ts ++ (t ∷ rest))).events ≡ suc (length ts))
  walk-wins ts rest t out es before going tried kept =
      let won =
        walk_from-wins 0 ts rest t out es [] before
          (ap done (later-eq 0 ts) ∙ ap done (omega arith) ∙ going) tried kept in
      let same = walk-append ts rest t in
      (ap (λ w. w.outcome) same ∙ won.0, ap (λ w. length w.events) same ∙ won.1)

  walk_from-exhausts :
      (i : ℕ) (ts : List (Tier I)) (es collected : List Err)
      → AreMissed i ts es
      → (walk_from done input i ts collected).outcome ≡ (exhausted (collected ++ es)).outcome
  unfolding walk_from
  walk_from-exhausts i [] [] collected h =
      ap (λ xs. (exhausted xs).outcome) (sym (append-nil collected))
  walk_from-exhausts i [] (e ∷ es) collected h = elim h [ ]
  walk_from-exhausts i (t ∷ ts) [] collected h = elim h [ ]
  walk_from-exhausts i (t ∷ ts) (e ∷ es) collected h =
      (walk_from-misses i t ts e collected h.0 h.1).0
      ∙ walk_from-exhausts (suc i) ts es (collected ++ (e ∷ [])) h.2
      ∙ ap (λ xs. (exhausted xs).outcome) (append-one collected es e)

  -- When every tier misses, Walk fails, and a sentinel is in its error exactly if it is
  -- ErrNoTierSucceeded or in the error of some tier.
  pub walk-exhausts :
      (t : Tier I) (ts : List (Tier I)) (es : List Err) (p : Node → Bool)
      → AreMissed 0 (t ∷ ts) es
      → p (Node.text "") ≡ false
      → is_error_with p (walk done input (t ∷ ts)).outcome
        ≡ p Node.no_tier_succeeded || some_error_with p es
  unfolding walk any_node
  walk-exhausts t ts es p missed_all plain =
      ap (is_error_with p) (walk_from-exhausts 0 (t ∷ ts) es [] missed_all)
      ∙ ground (arith, plain, any_node-join_all p es plain)
