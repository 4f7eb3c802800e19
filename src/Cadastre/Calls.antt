-- ===== src/Cadastre/Calls.antt =====
-- sources/cadastre: Get, and the end of a flight, on a cache that is in use.
use gazetteer.Prelude.{
  String, Bool, true, false, Option, none, some, List, [], ◌∷◌, ◌≡◌, refl, sym, subst, ◌∙◌, ap,
  arith, str_eq, eq_iff, if◌then◌else◌, All, if-cases, Option-elim, Bool-cases, inl, inr,
}
use gazetteer.Prelude.Names.{holds, are_distinct, drop, holds-drop, are_distinct-drop}
use gazetteer.Prelude.Int.{ℤ}
use gazetteer.Errors.{Result, ok, err}
use gazetteer.Cadastre.{
  BatiCache, BatiDump, BatiEntry, get, init, insert_row, landed, move_to_front, put, find_row,
}
use gazetteer.Cadastre.Names.{at_most}
use gazetteer.Cadastre.Lru.{Kept, names}
use gazetteer.Cadastre.Recency.{
  Holds, front-Kept, IsFaithful, is_fetched, limit, polygons_of, put_absent-Holds,
  put_present-Holds, touched,
}

module _ {Polygon : Type 0} (fetch : String → Result (BatiDump Polygon)) where
  pub record Ready (n : ℤ) (ns : List String) (c : BatiCache Polygon) : Type 0 where
    pub distinct : are_distinct ns ≡ true
    pub set : c.max_communes ≡ n
    pub held : Holds fetch (limit n) ns (init c)

  abbrev pub cache : ℤ → List String → List (BatiEntry Polygon) → ℤ → BatiCache Polygon
  cache n keys es max = record { max_communes = n; by_ins = some keys; lru = es; max = max }

  get-held :
      (n : ℤ) (k : String) (keys : List String) (es : List (BatiEntry Polygon)) (max : ℤ)
      → (e : BatiEntry Polygon) → holds k keys ≡ true
      → find_row k es ≡ some e
      → get k (cache n keys es max) ≡ (some e.polygons, cache n keys (move_to_front k es) max)
  unfolding get
  get-held n k keys es max e h r = rw (h, r) refl

  get-absent :
      (n : ℤ) (k : String) (keys : List String) (es : List (BatiEntry Polygon)) (max : ℤ)
      → holds k keys ≡ false
      → get k (cache n keys es max) ≡ (none, cache n keys es max)
  unfolding get
  get-absent n k keys es max h = rw h refl

  -- A row that is found is that of its commune, with the polygons of the dump.
  find_row-found :
      (k : String) (es : List (BatiEntry Polygon))
      → holds k (names es) ≡ true
      → All (IsFaithful fetch) es
      → (e : BatiEntry Polygon) × ((find_row k es ≡ some e)
          × (polygons_of fetch (fetch k) ≡ some e.polygons))
  unfolding find_row
  find_row-found k [] h a = ground (arith, h)
  find_row-found k (e ∷ es) h a = elim (Bool-cases (str_eq k e.insee)) [
    | inl q ↦
        let same : e.insee ≡ k = ground (arith, q, eq_iff k e.insee) in
        (
          e,
          (
            ap (λ b. if b then some e else find_row k es) q,
            subst (λ n. polygons_of fetch (fetch n) ≡ some e.polygons) same a.0,
          ),
        )
    | inr q ↦
        let f = find_row-found k es (ground (arith, h, q)) a.1 in
        (f.0, (ap (λ b. if b then some e else find_row k es) q ∙ f.1.0, f.1.1))
  ]

  pub Kept-cache :
      (n : ℤ) (ns keys : List String) (es : List (BatiEntry Polygon)) (max : ℤ)
      → Ready n ns (cache n keys es max)
      → Kept (IsFaithful fetch) (at_most (limit n) ns) (keys, es)
  Kept-cache n ns keys es max c =
      let same : c.held.keys ≡ keys = ground (arith, c.held.ready) in
      subst (λ ks. Kept (IsFaithful fetch) (at_most (limit n) ns) (ks, es)) same c.held.kept

  -- What Get returns of a commune, and the cache after it.
  abbrev pub Answers :
      ℤ → List String → Bool → String → Option (List Polygon) × BatiCache Polygon → Type 0
  Answers n ns held k out =
      (out.0 ≡ (if held then polygons_of fetch (fetch k) else none))
      × Ready n (touched held k ns) out.1

  distinct-touched :
      (b : Bool) (k : String) (ns : List String)
      → are_distinct ns ≡ true
      → are_distinct (touched b k ns) ≡ true
  distinct-touched false k ns d = d
  distinct-touched true k ns d =
      ground (arith, are_distinct-drop k ns d, holds-drop k k ns, eq_iff k k)

  init-ready : (c : BatiCache Polygon) (keys : List String) → c.by_ins ≡ some keys → init c ≡ c
  init-ready c keys h =
      Option-elim (λ r. r ≡ c) c.by_ins _ (λ ks. c) (λ n. ground (arith, n, h)) (λ ks k. refl)

  max_communes-insert_row :
      (k : String) (ps : List Polygon) (keys : List String) (c : BatiCache Polygon)
      → (insert_row k ps keys c).max_communes ≡ c.max_communes
  unfolding insert_row
  max_communes-insert_row k ps keys c =
      if-cases (λ (r : BatiCache Polygon). r.max_communes ≡ c.max_communes) (holds k keys) _ _
        (λ _. refl) (λ _. refl)

  pub landed-Ready :
      (n : ℤ) (ns keys : List String) (es : List (BatiEntry Polygon)) (max : ℤ) (k : String)
      → Ready n ns (cache n keys es max)
      → (r : Result (BatiDump Polygon)) → fetch k ≡ r
      → Ready n (touched (is_fetched fetch r) k ns) (landed k r (cache n keys es max))
  unfolding put
  landed-Ready n ns keys es max k c (err e) f = c
  landed-Ready n ns keys es max k c (ok dump) f =
      let kept = Kept-cache n ns keys es max c in
      let stored = ap (polygons_of fetch) f in
      let after : Holds fetch (limit n) (k ∷ drop k ns)
          (insert_row k dump.polygons keys (cache n keys es max)) =
        elim (Bool-cases (holds k keys)) [
          | inl h ↦
              put_present-Holds fetch n k ns keys es max dump.polygons c.distinct h stored
                c.held.ceils kept
          | inr h ↦
              put_absent-Holds fetch n k ns keys es max dump.polygons c.distinct h stored
                c.held.ceils kept
        ] in
      record {
        distinct = distinct-touched true k ns c.distinct;
        set = max_communes-insert_row k dump.polygons keys (cache n keys es max);
        held =
            subst (Holds fetch (limit n) (k ∷ drop k ns))
              (sym (
                init-ready (insert_row k dump.polygons keys (cache n keys es max)) after.keys
                  after.ready))
              after;
      }

  -- Get of a commune that is there.
  found-Answers :
      (n : ℤ) (ns keys : List String) (es : List (BatiEntry Polygon)) (max : ℤ) (k : String)
      → holds k keys ≡ true
      → Ready n ns (cache n keys es max)
      → (e : BatiEntry Polygon) → find_row k es ≡ some e
      → polygons_of fetch (fetch k) ≡ some e.polygons
      → Answers n ns true k (get k (cache n keys es max))
  found-Answers n ns keys es max k h c e found p =
      subst (Answers n ns true k) (sym (get-held n k keys es max e h found)) (
        sym p,
        record {
          distinct = distinct-touched true k ns c.distinct;
          set = refl;
          held = record {
            keys = keys;
            ready = refl;
            ceils = c.held.ceils;
            kept =
                front-Kept fetch (limit n) k ns keys es c.distinct h
                  (Kept-cache n ns keys es max c);
          };
        },
      )

  -- Get on a cache that is in use.
  pub cache-Answers :
      (n : ℤ) (ns keys : List String) (es : List (BatiEntry Polygon)) (max : ℤ) (k : String)
      → Ready n ns (cache n keys es max)
      → Answers n ns (holds k (at_most (limit n) ns)) k (get k (cache n keys es max))
  cache-Answers n ns keys es max k c =
      let kept = Kept-cache n ns keys es max c in
      let same : holds k keys ≡ holds k (at_most (limit n) ns) =
        kept.mirror.same k ∙ ap (holds k) kept.order in
      let Got : Bool → Type 0 = λ b. Answers n ns b k (get k (cache n keys es max)) in
      subst Got same (elim (Bool-cases (holds k keys)) [
        | inl h ↦
            let e = find_row-found k es (sym (kept.mirror.same k) ∙ h) kept.all in
            subst Got (sym h) (found-Answers n ns keys es max k h c e.0 e.1.0 e.1.1)
        | inr h ↦
            subst Got (sym h)
              (subst (Answers n ns false k) (sym (get-absent n k keys es max h)) (refl, c))
      ])
