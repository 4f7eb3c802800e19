-- ===== src/Cadastre/Recency.antt =====
-- sources/cadastre/cache.go: which communes the cache holds after Get and Put.
use gazetteer.Prelude.{
  ℕ, zero, suc, String, Bool, true, false, Option, none, some, List, ◌∷◌, ◌≡◌, refl, sym, subst,
  ◌∙◌, ap, arith, length, eq_iff, if◌then◌else◌, if-cases,
}
use gazetteer.Prelude.Names.{holds, are_distinct, drop, holds-drop, drop-absent}
use gazetteer.Prelude.Int.{ℤ, pos, negsuc}
use gazetteer.Errors.{Result, ok, err}
use gazetteer.Cadastre.{
  BatiCache, BatiDump, BatiEntry, insert_row, evict_down, move_to_front, overwritten,
}
use gazetteer.Cadastre.Names.{
  at_most, at_most-front, are_distinct-at_most, take-drop_absent, take-take, take, holds-take,
  Mirror, Mirror-front, Mirror-cons,
}
use gazetteer.Cadastre.Lru.{
  Kept, Kept-evict_down, All-move_to_front, length-names, evict_down-unlimited, names,
  names-move_to_front, names-overwritten, All-overwritten,
}

-- The ceiling in the words of the documentation: 16 when the field is 0, none when it is negative.
abbrev pub limit : ℤ → ℤ
limit (pos zero) = pos 16
limit (pos (suc n)) = pos (suc n)
limit (negsuc n) = negsuc n

-- A commune that is used is the latest.
abbrev pub touched : Bool → String → List String → List String
touched fetched k ns = if fetched then k ∷ drop k ns else ns

module _ {Polygon : Type 0} (fetch : String → Result (BatiDump Polygon)) where
  abbrev pub polygons_of : Result (BatiDump Polygon) → Option (List Polygon)
  polygons_of (err e) = none
  polygons_of (ok dump) = some dump.polygons

  abbrev pub is_fetched : Result (BatiDump Polygon) → Bool
  is_fetched (err e) = false
  is_fetched (ok dump) = true

  abbrev pub IsFaithful : BatiEntry Polygon → Type 0
  IsFaithful e = polygons_of (fetch e.insee) ≡ some e.polygons

  -- A cache that has the names of `ns` up to its ceiling.
  pub record Holds (max : ℤ) (ns : List String) (c : BatiCache Polygon) : Type 0 where
    pub keys : List String
    pub ready : c.by_ins ≡ some keys
    pub ceils : c.max ≡ max
    pub kept : Kept IsFaithful (at_most max ns) (keys, c.lru)

  -- A row that is there is the latest now.
  pub front-Kept :
      (max : ℤ) (k : String) (ns keys : List String) (es : List (BatiEntry Polygon))
      → are_distinct ns ≡ true
      → holds k keys ≡ true
      → Kept IsFaithful (at_most max ns) (keys, es)
      → Kept IsFaithful (at_most max (k ∷ drop k ns)) (keys, move_to_front k es)
  front-Kept max k ns keys es d held h =
      let in_rows : holds k (names es) ≡ true = sym (h.mirror.same k) ∙ held in
      let order = names-move_to_front k es in_rows in
      record {
        order =
            order
            ∙ ap (λ ns. k ∷ drop k ns) h.order
            ∙ at_most-front max k ns d (sym (ap (holds k) h.order) ∙ in_rows);
        mirror = subst (Mirror keys) (sym order) (
            Mirror-front k keys (names es) (ap are_distinct h.order ∙ are_distinct-at_most max ns d)
              in_rows h.mirror);
        all = All-move_to_front IsFaithful k es h.all;
      }

  -- With room for one more, the new row is the latest.
  pushed-Kept :
      (k : String) (ns : List String) (r : List String × List (BatiEntry Polygon))
      → (polygons : List Polygon) → polygons_of (fetch k) ≡ some polygons
      → holds k ns ≡ false
      → Kept IsFaithful ns r
      → Kept IsFaithful (k ∷ ns) (k ∷ r.0, record { insee = k; polygons = polygons } ∷ r.1)
  pushed-Kept k ns r polygons f apart h = record {
    order = ap (λ ns. k ∷ ns) h.order;
    mirror = Mirror-cons k r.0 (names r.1) (ap (holds k) h.order ∙ apart) h.mirror;
    all = (f, h.all);
  }

  -- The loop of Put keeps the latest rows, with room for one more.
  room-Kept :
      (m : ℕ) (k : String) (ns keys : List String) (es : List (BatiEntry Polygon))
      → are_distinct ns ≡ true
      → holds k keys ≡ false
      → Kept IsFaithful (take (suc m) ns) (keys, es)
      → Kept IsFaithful (take m (drop k ns)) (evict_down (length es) (pos (suc m)) keys es)
  room-Kept m k ns keys es d apart h =
      let order : take m (names es) ≡ take m ns = ap (take m) h.order ∙ take-take m ns in
      let past : holds k (take m ns) ≡ false =
        sym (ap (holds k) order) ∙ holds-take k m (names es) (sym (h.mirror.same k) ∙ apart) in
      subst (λ ns. Kept IsFaithful ns (evict_down (length es) (pos (suc m)) keys es))
        (order ∙ sym (take-drop_absent k m ns past))
        (Kept-evict_down IsFaithful m (length es) keys es (ground (arith, length-names es))
          (ap are_distinct h.order ∙ are_distinct-at_most (pos (suc m)) ns d) h.mirror h.all)

  dropped : (k : String) (ns : List String) → holds k (drop k ns) ≡ false
  dropped k ns = ground (arith, holds-drop k k ns, eq_iff k k)

  -- The map and the rows after Put, as the loop leaves them.
  abbrev pushed :
      String
      → List Polygon
      → List String × List (BatiEntry Polygon)
      → List String × List (BatiEntry Polygon)
  pushed k polygons r = (k ∷ r.0, record { insee = k; polygons = polygons } ∷ r.1)

  limited-Kept :
      (m : ℕ) (k : String) (ns keys : List String) (es : List (BatiEntry Polygon))
      → (polygons : List Polygon) → are_distinct ns ≡ true
      → holds k keys ≡ false
      → polygons_of (fetch k) ≡ some polygons
      → Kept IsFaithful (take (suc m) ns) (keys, es)
      → Kept IsFaithful
          (k ∷ take m (drop k ns))
          (pushed k polygons (evict_down (length es) (pos (suc m)) keys es))
  limited-Kept m k ns keys es polygons d apart f h =
      pushed-Kept k (take m (drop k ns)) (evict_down (length es) (pos (suc m)) keys es) polygons f
        (holds-take k m (drop k ns) (dropped k ns)) (room-Kept m k ns keys es d apart h)

  unlimited-Kept :
      (j : ℕ) (k : String) (ns keys : List String) (es : List (BatiEntry Polygon))
      → (polygons : List Polygon) → holds k keys ≡ false
      → polygons_of (fetch k) ≡ some polygons
      → Kept IsFaithful ns (keys, es)
      → Kept IsFaithful
          (k ∷ drop k ns)
          (pushed k polygons (evict_down (length es) (negsuc j) keys es))
  unlimited-Kept j k ns keys es polygons apart f h =
      let past : holds k ns ≡ false = sym (ap (holds k) h.order) ∙ sym (h.mirror.same k) ∙ apart in
      subst (λ r. Kept IsFaithful (k ∷ drop k ns) (pushed k polygons r))
        (sym (evict_down-unlimited (length es) j keys es))
        (subst (λ rest. Kept IsFaithful (k ∷ rest) (pushed k polygons (keys, es)))
          (sym (drop-absent k ns past)) (pushed-Kept k ns (keys, es) polygons f past h))

  pushed-at_most :
      (n : ℤ) (k : String) (ns keys : List String) (es : List (BatiEntry Polygon))
      → (polygons : List Polygon) → are_distinct ns ≡ true
      → holds k keys ≡ false
      → polygons_of (fetch k) ≡ some polygons
      → Kept IsFaithful (at_most (limit n) ns) (keys, es)
      → Kept IsFaithful
          (at_most (limit n) (k ∷ drop k ns))
          (pushed k polygons (evict_down (length es) (limit n) keys es))
  unfolding take
  pushed-at_most (pos zero) k ns keys es polygons d apart f h =
      limited-Kept 15 k ns keys es polygons d apart f h
  pushed-at_most (pos (suc m)) k ns keys es polygons d apart f h =
      limited-Kept m k ns keys es polygons d apart f h
  pushed-at_most (negsuc j) k ns keys es polygons d apart f h =
      unlimited-Kept j k ns keys es polygons apart f h

  -- Put of a commune that is not there, whose dump the upstream has.
  pub put_absent-Holds :
      (n : ℤ) (k : String) (ns keys : List String) (es : List (BatiEntry Polygon)) (max : ℤ)
      → (polygons : List Polygon) → are_distinct ns ≡ true
      → holds k keys ≡ false
      → polygons_of (fetch k) ≡ some polygons
      → max ≡ limit n
      → Kept IsFaithful (at_most (limit n) ns) (keys, es)
      → Holds (limit n) (k ∷ drop k ns) (
          insert_row k polygons keys
            (record { max_communes = n; by_ins = some keys; lru = es; max = max }))
  unfolding insert_row
  put_absent-Holds n k ns keys es max polygons d apart f ceils h =
      if-cases (Holds (limit n) (k ∷ drop k ns)) (holds k keys) _ _
        (λ held. ground (arith, held, apart))
        (λ _. record {
          keys = k ∷ (evict_down (length es) max keys es).0;
          ready = refl;
          ceils = ceils;
          kept =
              subst
                (λ m.
                  Kept IsFaithful (at_most (limit n) (k ∷ drop k ns))
                    (pushed k polygons (evict_down (length es) m keys es)))
                (sym ceils) (pushed-at_most n k ns keys es polygons d apart f h);
        })

  overwritten-Kept :
      (k : String) (ns keys : List String) (es : List (BatiEntry Polygon)) (polygons : List Polygon)
      → polygons_of (fetch k) ≡ some polygons
      → Kept IsFaithful ns (keys, es)
      → Kept IsFaithful ns (keys, overwritten k polygons es)
  overwritten-Kept k ns keys es polygons f h =
      let same = names-overwritten k polygons es in
      record {
        order = same ∙ h.order;
        mirror = subst (Mirror keys) (sym same) h.mirror;
        all =
            All-overwritten IsFaithful k polygons
              (λ e here. ap (λ n. polygons_of (fetch n)) here ∙ f) es h.all;
      }

  -- Put of a commune that is there.
  pub put_present-Holds :
      (n : ℤ) (k : String) (ns keys : List String) (es : List (BatiEntry Polygon)) (max : ℤ)
      → (polygons : List Polygon) → are_distinct ns ≡ true
      → holds k keys ≡ true
      → polygons_of (fetch k) ≡ some polygons
      → max ≡ limit n
      → Kept IsFaithful (at_most (limit n) ns) (keys, es)
      → Holds (limit n) (k ∷ drop k ns) (
          insert_row k polygons keys
            (record { max_communes = n; by_ins = some keys; lru = es; max = max }))
  unfolding insert_row
  put_present-Holds n k ns keys es max polygons d held f ceils h =
      if-cases (Holds (limit n) (k ∷ drop k ns)) (holds k keys) _ _
        (λ _. record {
          keys = keys;
          ready = refl;
          ceils = ceils;
          kept =
              front-Kept (limit n) k ns keys (overwritten k polygons es) d held
                (overwritten-Kept k (at_most (limit n) ns) keys es polygons f h);
        })
        (λ apart. ground (arith, held, apart))
