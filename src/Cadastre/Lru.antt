-- ===== src/Cadastre/Lru.antt =====
-- sources/cadastre/cache.go: the names of the rows that each step of the cache keeps.
use gazetteer.Prelude.{
  ℕ, zero, suc, String, true, Option, none, some, List, [], ◌∷◌, ◌≡◌, refl, sym, subst, ◌∙◌, ap,
  ap₂, arith, length, str_eq, eq_iff, leb, if◌then◌else◌, All, AllSome, if-cases, Option-elim,
}
use gazetteer.Prelude.Names.{holds, are_distinct, drop, are_distinct-drop}
use gazetteer.Prelude.Int.{pos, negsuc}
use gazetteer.Cadastre.{
  overwritten, BatiEntry, oldest_row, remove_row, is_full, evict_down, move_to_front, find_row,
}
use gazetteer.Cadastre.Names.{
  last, Mirror, Mirror-drop, take, take-short, take-drop-last, length-drop_one, take-empty,
}

module _ {Polygon : Type 0} where
  abbrev pub names : List (BatiEntry Polygon) → List String
  names [] = []
  names (e ∷ es) = e.insee ∷ names es

  abbrev pub name_of : Option (BatiEntry Polygon) → Option String
  name_of none = none
  name_of (some e) = some e.insee

  names-remove_row :
      (k : String) (es : List (BatiEntry Polygon)) → names (remove_row k es) ≡ drop k (names es)
  unfolding remove_row drop
  names-remove_row k [] = refl
  names-remove_row k (e ∷ es) = ground (arith, names-remove_row k es)

  pub name_of-find_row :
      (k : String) (es : List (BatiEntry Polygon))
      → name_of (find_row k es) ≡ (if holds k (names es) then some k else none)
  unfolding find_row
  name_of-find_row k [] = refl
  name_of-find_row k (e ∷ es) = ground (arith, name_of-find_row k es, eq_iff k e.insee)

  name_of-oldest_row : (es : List (BatiEntry Polygon)) → name_of (oldest_row es) ≡ last (names es)
  unfolding oldest_row last
  name_of-oldest_row [] = refl
  name_of-oldest_row (e ∷ []) = refl
  name_of-oldest_row (e ∷ f ∷ es) = name_of-oldest_row (f ∷ es)

  names-front :
      (k : String) (o : Option (BatiEntry Polygon)) (es rest : List (BatiEntry Polygon))
      → name_of o ≡ some k
      → names (elim o [ none ↦ es | some e ↦ e ∷ rest ]) ≡ k ∷ names rest
  names-front k none es rest h = ground (arith, h)
  names-front k (some e) es rest h = ground (arith, h)

  pub names-move_to_front :
      (k : String) (es : List (BatiEntry Polygon))
      → holds k (names es) ≡ true
      → names (move_to_front k es) ≡ k ∷ drop k (names es)
  unfolding move_to_front
  names-move_to_front k es h =
      names-front k (find_row k es) es (remove_row k es) (ground (arith, h, name_of-find_row k es))
      ∙ ap (λ rest. k ∷ rest) (names-remove_row k es)

  All-remove_row :
      (P : BatiEntry Polygon → Type 0) (k : String) (es : List (BatiEntry Polygon))
      → All P es
      → All P (remove_row k es)
  unfolding remove_row
  All-remove_row P k [] a = a
  All-remove_row P k (e ∷ es) a =
      if-cases (All P) (str_eq k e.insee) (remove_row k es) (e ∷ remove_row k es)
        (λ h. All-remove_row P k es a.1) (λ h. (a.0, All-remove_row P k es a.1))

  -- A map and rows that mirror each other, with given names and rows that all pass.
  pub record Kept (P : BatiEntry Polygon → Type 0) (ns : List String)
      (r : List String × List (BatiEntry Polygon)) : Type 0 where
    pub order : names r.1 ≡ ns
    pub mirror : Mirror r.0 (names r.1)
    pub all : All P r.1

  module _ (P : BatiEntry Polygon → Type 0) (m : ℕ) where
    abbrev Makes : ℕ → Type 0
    Makes fuel =
        (keys : List String) (es : List (BatiEntry Polygon))
        → leb (length (names es)) fuel ≡ true
        → are_distinct (names es) ≡ true
        → Mirror keys (names es)
        → All P es
        → Kept P (take m (names es)) (evict_down fuel (pos (suc m)) keys es)

    -- With the oldest row gone, the loop goes on with one row less.
    Kept-shrunk :
        (fuel : ℕ) (keys : List String) (es : List (BatiEntry Polygon)) (oldest : String)
        → Makes fuel
        → leb (length (names es)) (suc fuel) ≡ true
        → are_distinct (names es) ≡ true
        → Mirror keys (names es)
        → All P es
        → last (names es) ≡ some oldest
        → leb (suc m) (length (names es)) ≡ true
        → Kept P
            (take m (names es))
            (evict_down fuel (pos (suc m)) (drop oldest keys) (remove_row oldest es))
    Kept-shrunk fuel keys es oldest ih f d h a l full =
        let n = names-remove_row oldest es in
        subst
          (λ ns.
            Kept P ns (evict_down fuel (pos (suc m)) (drop oldest keys) (remove_row oldest es)))
          (ap (take m) n ∙ take-drop-last oldest m (names es) d l full)
          (ih (drop oldest keys) (remove_row oldest es)
            (ap (λ ns. leb (length ns) fuel) n
              ∙ ground (arith, f, length-drop_one oldest (names es) d l))
            (ap are_distinct n ∙ are_distinct-drop oldest (names es) d)
            (subst (Mirror (drop oldest keys)) (sym n) (Mirror-drop oldest keys (names es) d h))
            (All-remove_row P oldest es a))

    Kept-round : (fuel : ℕ) → Makes fuel → Makes (suc fuel)
    unfolding evict_down
    Kept-round fuel ih keys es f d h a =
        Option-elim (Kept P (take m (names es))) (oldest_row es) (keys, es) _
          (λ (n : oldest_row es ≡ none). record {
            order = take-empty m (names es) (sym (name_of-oldest_row es) ∙ ap name_of n);
            mirror = h;
            all = a;
          })
          (λ oldest n.
            if-cases (Kept P (take m (names es))) (is_full (pos (suc m)) (length keys)) _ (keys, es)
              (λ full.
                Kept-shrunk fuel keys es oldest.insee ih f d h a
                  (sym (name_of-oldest_row es) ∙ ap name_of n)
                  (sym (ap (leb (suc m)) h.size) ∙ full))
              (λ free. record {
                order = sym (take-short m (names es) (sym (ap (leb (suc m)) h.size) ∙ free));
                mirror = h;
                all = a;
              }))

  pub Kept-evict_down : (P : BatiEntry Polygon → Type 0) (m fuel : ℕ) → Makes P m fuel
  unfolding evict_down last
  Kept-evict_down P m zero keys [] f d h a = record {
    order = take-empty m [] refl;
    mirror = h;
    all = a;
  }
  Kept-evict_down P m zero keys (e ∷ es) f d h a = ground (arith, f)
  Kept-evict_down P m (suc fuel) keys es f d h a =
      Kept-round P m fuel (Kept-evict_down P m fuel) keys es f d h a

  pub evict_down-unlimited :
      (fuel j : ℕ) (keys : List String) (es : List (BatiEntry Polygon))
      → evict_down fuel (negsuc j) keys es ≡ (keys, es)
  unfolding evict_down
  evict_down-unlimited zero j keys es = refl
  evict_down-unlimited (suc fuel) j keys es =
      Option-elim (λ r. r ≡ (keys, es)) (oldest_row es) (keys, es) (λ oldest. (keys, es))
        (λ h. refl) (λ oldest h. refl)

  pub length-names : (es : List (BatiEntry Polygon)) → length (names es) ≡ length es
  length-names [] = refl
  length-names (e ∷ es) = ap suc (length-names es)

  pub find_row-AllSome :
      (P : BatiEntry Polygon → Type 0) (k : String) (es : List (BatiEntry Polygon))
      → All P es
      → AllSome P (find_row k es)
  unfolding find_row
  find_row-AllSome P k [] a = tt
  find_row-AllSome P k (e ∷ es) a =
      if-cases (AllSome P) (str_eq k e.insee) (some e) (find_row k es) (λ h. a.0)
        (λ h. find_row-AllSome P k es a.1)

  pub All-move_to_front :
      (P : BatiEntry Polygon → Type 0) (k : String) (es : List (BatiEntry Polygon))
      → All P es
      → All P (move_to_front k es)
  unfolding move_to_front
  All-move_to_front P k es a =
      Option-elim (All P) (find_row k es) es (λ e. e ∷ remove_row k es) (λ h. a)
        (λ e h. (subst (AllSome P) h (find_row-AllSome P k es a), All-remove_row P k es a))

  pub names-overwritten :
      (k : String) (ps : List Polygon) (es : List (BatiEntry Polygon))
      → names (overwritten k ps es) ≡ names es
  names-overwritten k ps [] = refl
  names-overwritten k ps (e ∷ es) =
      ap₂ (λ (n : String) (ns : List String). n ∷ ns)
        (if-cases (λ (x : BatiEntry Polygon). x.insee ≡ e.insee) (str_eq k e.insee)
          (record e { polygons = ps }) e (λ _. refl) (λ _. refl))
        (names-overwritten k ps es)

  pub All-overwritten :
      (P : BatiEntry Polygon → Type 0) (k : String) (ps : List Polygon)
      → ((e : BatiEntry Polygon) → e.insee ≡ k → P (record e { polygons = ps }))
      → (es : List (BatiEntry Polygon)) → All P es
      → All P (overwritten k ps es)
  All-overwritten P k ps new [] a = a
  All-overwritten P k ps new (e ∷ es) a = (
    if-cases P (str_eq k e.insee) (record e { polygons = ps }) e
        (λ h. new e (ground (arith, h, eq_iff k e.insee))) (λ _. a.0),
    All-overwritten P k ps new es a.1,
  )
