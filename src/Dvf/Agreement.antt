-- ===== src/Dvf/Agreement.antt =====
-- sources/dvf: the memo changes what is fetched, not what fetchSections (source.go) returns.
use mathlib.Core.List.{Perm}
use gazetteer.Prelude.{
  String, str_eq, eq_iff, Bool, true, Option, none, some, List, [], ◌∷◌, ◌++◌, if◌then◌else◌,
  if-cases, ◌≡◌, refl, arith, ap, ap₂, ◌∙◌, sym, subst, Option-cases, inl, inr, AllSome,
}
use gazetteer.Prelude.Dict.{Dict, lookup, insert, lookup-insert}
use gazetteer.Errors.{Result, ok, err}
use gazetteer.Dvf.{
  IsPooled, QueryMemo, Weather, fetch_section, fetch_sections, fetched_of, is_section_not_found,
  mutations_for, record_failure, store_mutations,
}
use gazetteer.Dvf.Coverage.{are_clear}

-- What the API has of a section: nothing, where it fails.
abbrev pub truth_of : {M : Type 0} → Result (List M) → List M
truth_of (ok muts) = muts
truth_of (err e) = []

if-else {ℓ} : {A : Type ℓ} (b : Bool) (x y : A) → b ≡ Bool.false → (if b then x else y) ≡ y
if-else true x y h = ground (arith, h)
if-else Bool.false x y h = refl

module _ {M : Type 0} (w : Weather M) where
  -- The pool of sections that are fetched each in turn.
  abbrev pub pool : List String → List M
  pool [] = []
  pool (k ∷ ks) = truth_of (w.fetch k) ++ pool ks

  abbrev pub IsTrue : String → Option (List M) → Type 0
  IsTrue key o = AllSome (λ c. c ≡ truth_of (w.fetch key)) o

  insert-IsTrue :
      (key : String) (muts : List M) (d : Dict (List M))
      → muts ≡ truth_of (w.fetch key)
      → ((k : String) → IsTrue k (lookup k d))
      → (k : String) → IsTrue k (lookup k (insert key muts d))
  insert-IsTrue key muts d e h k = subst (IsTrue k) (sym (lookup-insert d key k muts)) (
      if-cases (IsTrue k) (str_eq key k) (some muts) (lookup k d)
        (λ same. e ∙ ap (λ n. truth_of (w.fetch n)) ((eq_iff key k).0 same)) (λ _. h k))

module _ {M G : Type 0} (w : Weather M) where
  -- What the memo holds is what the API has.
  abbrev pub Agrees : Option (QueryMemo M G) → Type 0
  Agrees o = (key : String) → IsTrue w key (mutations_for key o)

  abbrev Fetches : List M → List M × Option (QueryMemo M G) → Type 0
  Fetches muts r = (r.0 ≡ muts) × Agrees r.1

  fetched_of-Fetches :
      (key : String) (o : Option (QueryMemo M G)) (reply : Result (List M))
      → w.fetch key ≡ reply
      → Agrees o
      → Fetches (truth_of reply) (fetched_of key o reply)
  unfolding store_mutations record_failure
  fetched_of-Fetches key none (ok muts) e h = (refl, h)
  fetched_of-Fetches key none (err x) e h =
      if-cases (Fetches []) (is_section_not_found x) _ _ (λ _. (refl, h)) (λ _. (refl, h))
  fetched_of-Fetches key (some m) (ok muts) e h =
      (refl, insert-IsTrue w key muts m.mutations (ap truth_of (sym e)) h)
  fetched_of-Fetches key (some m) (err x) e h =
      if-cases (Fetches []) (is_section_not_found x) _ _
        (λ _. (refl, insert-IsTrue w key [] m.mutations (ap truth_of (sym e)) h)) (λ _. (refl, h))

  fetch_section-Fetches :
      (key : String) (o : Option (QueryMemo M G))
      → w.is_abandoned key ≡ Bool.false
      → Agrees o
      → Fetches (truth_of (w.fetch key)) (fetch_section w key o)
  unfolding fetch_section
  fetch_section-Fetches key o a h =
      subst (Fetches (truth_of (w.fetch key))) (sym (if-else (w.is_abandoned key) _ _ a))
        (fetched_of-Fetches key o (w.fetch key) refl h)

  fetch_sections-miss :
      (key : String) (keys : List String) (o : Option (QueryMemo M G))
      → w.is_stopped key ≡ Bool.false
      → mutations_for key o ≡ none
      → fetch_sections w (key ∷ keys) o ≡ (
        (fetch_section w key o).0 ++ (fetch_sections w keys (fetch_section w key o).1).0,
        (fetch_sections w keys (fetch_section w key o).1).1,
      )
  unfolding fetch_sections
  fetch_sections-miss key keys o a b = ground (arith, a, b)

  fetch_sections-hit :
      (key : String) (keys : List String) (o : Option (QueryMemo M G)) (c : List M)
      → w.is_stopped key ≡ Bool.false
      → mutations_for key o ≡ some c
      → fetch_sections w (key ∷ keys) o
        ≡ (c ++ (fetch_sections w keys o).0, (fetch_sections w keys o).1)
  unfolding fetch_sections
  fetch_sections-hit key keys o c a b = ground (arith, a, b)

  fetch_sections_in_turn :
      (keys : List String) (o : Option (QueryMemo M G))
      → are_clear w keys ≡ true
      → Agrees o
      → ((fetch_sections w keys o).0 ≡ pool w keys) × Agrees (fetch_sections w keys o).1
  unfolding fetch_sections
  fetch_sections_in_turn [] o c h = (refl, h)
  fetch_sections_in_turn (key ∷ keys) o c h =
      let go : w.is_stopped key ≡ Bool.false = ground (arith, c) in
      let start : w.is_abandoned key ≡ Bool.false = ground (arith, c) in
      let clear : are_clear w keys ≡ true = ground (arith, c) in
      elim (Option-cases (mutations_for key o)) [
        | inl missing ↦
            let first = fetch_section-Fetches key o start h in
            let rest = fetch_sections_in_turn keys (fetch_section w key o).1 clear first.1 in
            subst (Fetches (pool w (key ∷ keys))) (sym (fetch_sections-miss key keys o go missing))
              (ap₂ (λ (x y : List M). x ++ y) first.0 rest.0, rest.1)
        | inr hit ↦
            let rest = fetch_sections_in_turn keys o clear h in
            subst (Fetches (pool w (key ∷ keys)))
              (sym (fetch_sections-hit key keys o hit.0 go hit.1))
              (ap₂ (λ (x y : List M). x ++ y) (subst (IsTrue w key) hit.1 (h key)) rest.0, rest.1)
      ]

  -- With a memo, or with none, whose mutations are those of the API: where nothing stops the
  -- calls, fetchSections returns, in whatever order its goroutines append, the mutations of
  -- fetching each section in turn, failed ones as empty, up to their order; and the memo afterwards
  -- still holds what the API has.
  pub fetch_sections-Agrees :
      (keys : List String) (o : Option (QueryMemo M G)) (got : List M)
      → are_clear w keys ≡ true
      → Agrees o
      → IsPooled w keys o got
      → Perm got (pool w keys) × Agrees (fetch_sections w keys o).1
  fetch_sections-Agrees keys o got c h pooled =
      let turn = fetch_sections_in_turn keys o c h in (subst (Perm got) turn.0 pooled, turn.1)
