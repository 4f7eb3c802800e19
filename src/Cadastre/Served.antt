-- ===== src/Cadastre/Served.antt =====
-- sources/cadastre/bati.go: what a call answers after any calls and any flights.
use gazetteer.Prelude.{
  zero, suc, String, true, false, Option, none, some, List, [], ◌∷◌, length, ◌≡◌, refl, ◌∙◌, sym,
  subst, ap, if◌then◌else◌,
}
use gazetteer.Prelude.Names.{holds}
use gazetteer.Prelude.Int.{ℤ, pos, negsuc}
use gazetteer.Errors.{Err, Result, ok, err}
use gazetteer.Cadastre.{
  BatiCache, BatiDump, BatiEntry, Call, Footprints, awaited, ceiling, flown, get, landed, put,
  resolve_bati_polygons, unused,
}
use gazetteer.Cadastre.Names.{at_most, take}
use gazetteer.Cadastre.Recency.{is_fetched, limit, polygons_of, touched}
use gazetteer.Cadastre.Calls.{Answers, Ready, cache-Answers, Kept-cache, landed-Ready}

-- A call looks at the cache, or the flight of a commune lands, cut by its deadline or not.
pub data Event : Type 0 where
  asked : Call → Event
  landing : String → Option Err → Event

module _ {Polygon : Type 0} (fetch : String → Result (BatiDump Polygon)) where
  -- The cache after some events in their order; the call of an `asked` has no part in what its
  -- flight does, whose `landing` is an event of its own.
  abbrev pub after : List Event → BatiCache Polygon → BatiCache Polygon
  after [] c = c
  after (asked call ∷ es) c = after es (resolve_bati_polygons call (fetch call.insee) c).1
  after (landing k cut ∷ es) c = after es (landed k (flown cut (fetch k)) c)

  -- The communes that some events use, the latest first, each once: one that is asked for while it
  -- is among the first `max`, and one whose flight lands with its dump.
  abbrev pub recent : ℤ → List Event → List String → List String
  recent max [] ns = ns
  recent max (asked call ∷ es) ns =
      recent max es (touched (holds call.insee (at_most max ns)) call.insee ns)
  recent max (landing k none ∷ es) ns = recent max es (touched (is_fetched fetch (fetch k)) k ns)
  recent max (landing k (some e) ∷ es) ns = recent max es ns

  -- What a call answers that is not served from the cache: the end of its context if that comes
  -- first, and else what its flight comes back with.
  abbrev pub unserved : Option Err → Result (BatiDump Polygon) → Result (Footprints Polygon)
  unserved none (ok dump) =
      ok record { polys = dump.polygons; raw_count = dump.raw_count; cached = false }
  unserved none (err e) = err e
  unserved (some e) flight = err e

  abbrev pub served :
      Option (List Polygon) → Option Err → Result (BatiDump Polygon) → Result (Footprints Polygon)
  served (some ps) ctx_err flight = ok record { polys = ps; raw_count = length ps; cached = true }
  served none ctx_err flight = unserved ctx_err flight

  awaited-unserved :
      (ctx_err : Option Err) (flight : Result (BatiDump Polygon))
      → awaited ctx_err flight ≡ unserved ctx_err flight
  awaited-unserved none (ok dump) = refl
  awaited-unserved none (err e) = refl
  awaited-unserved (some e) (ok dump) = refl
  awaited-unserved (some e) (err f) = refl

  responded :
      (o : Option (List Polygon)) (ctx_err : Option Err) (flight : Result (BatiDump Polygon))
      → elim o [
        | some hit ↦ ok record { polys = hit; raw_count = length hit; cached = true }
        | none ↦ awaited ctx_err flight
      ]
        ≡ served o ctx_err flight
  responded (some hit) ctx_err flight = refl
  responded none ctx_err flight = awaited-unserved ctx_err flight

  abbrev fresh : ℤ → List (BatiEntry Polygon) → ℤ → BatiCache Polygon
  fresh n es max = record { max_communes = n; by_ins = none; lru = es; max = max }

  get-fresh :
      (n : ℤ) (k : String) (es : List (BatiEntry Polygon)) (max : ℤ)
      → get k (fresh n es max) ≡ (none, fresh n es max)
  unfolding get
  get-fresh n k es max = refl

  used-Ready :
      (n : ℤ) (ns : List String) (es : List (BatiEntry Polygon)) (max : ℤ)
      → Ready fetch n ns (fresh n es max)
      → Ready fetch n ns (record { max_communes = n; by_ins = some []; lru = []; max = ceiling n })
  used-Ready n ns es max c = record { distinct = c.distinct; set = refl; held = c.held }

  any-Answers :
      (n : ℤ) (b : Option (List String)) (ns : List String) (es : List (BatiEntry Polygon))
      (max : ℤ) (k : String)
      → Ready fetch n ns (record { max_communes = n; by_ins = b; lru = es; max = max })
      → Answers fetch n ns
          (holds k (at_most (limit n) ns))
          k
          (get k (record { max_communes = n; by_ins = b; lru = es; max = max }))
  any-Answers n none ns es max k c =
      let kept = Kept-cache fetch n ns [] [] (ceiling n) (used-Ready n ns es max c) in
      subst (λ b. Answers fetch n ns b k (get k (fresh n es max))) (ap (holds k) kept.order)
        (subst (Answers fetch n ns false k) (sym (get-fresh n k es max)) (refl, c))
  any-Answers n (some keys) ns es max k c = cache-Answers fetch n ns keys es max k c

  get-Answers :
      (n : ℤ) (ns : List String) (c : BatiCache Polygon) (k : String)
      → Ready fetch n ns c
      → Answers fetch n ns (holds k (at_most (limit n) ns)) k (get k c)
  get-Answers n ns c k ready =
      subst
        (λ n. Ready fetch n ns c → Answers fetch n ns (holds k (at_most (limit n) ns)) k (get k c))
        ready.set (any-Answers c.max_communes c.by_ins ns c.lru c.max k) ready

  any-landed-Ready :
      (n : ℤ) (b : Option (List String)) (ns : List String) (es : List (BatiEntry Polygon))
      (max : ℤ) (k : String)
      → Ready fetch n ns (record { max_communes = n; by_ins = b; lru = es; max = max })
      → (r : Result (BatiDump Polygon)) → fetch k ≡ r
      → Ready fetch n
          (touched (is_fetched fetch r) k ns)
          (landed k r (record { max_communes = n; by_ins = b; lru = es; max = max }))
  unfolding put
  any-landed-Ready n none ns es max k c (err e) f = c
  any-landed-Ready n none ns es max k c (ok dump) f =
      landed-Ready fetch n ns [] [] (ceiling n) k (used-Ready n ns es max c) (ok dump) f
  any-landed-Ready n (some keys) ns es max k c r f = landed-Ready fetch n ns keys es max k c r f

  stored-Ready :
      (n : ℤ) (ns : List String) (c : BatiCache Polygon) (k : String)
      → Ready fetch n ns c
      → Ready fetch n (touched (is_fetched fetch (fetch k)) k ns) (landed k (fetch k) c)
  stored-Ready n ns c k ready =
      subst
        (λ n.
          Ready fetch n ns c
          → Ready fetch n (touched (is_fetched fetch (fetch k)) k ns) (landed k (fetch k) c))
        ready.set
        (λ ready. any-landed-Ready c.max_communes c.by_ins ns c.lru c.max k ready (fetch k) refl)
        ready

  after-Ready :
      (n : ℤ) (es : List Event) (ns : List String) (c : BatiCache Polygon)
      → Ready fetch n ns c
      → Ready fetch n (recent (limit n) es ns) (after es c)
  unfolding resolve_bati_polygons
  after-Ready n [] ns c ready = ready
  after-Ready n (asked call ∷ es) ns c ready =
      after-Ready n es (touched (holds call.insee (at_most (limit n) ns)) call.insee ns)
        (get call.insee c).1 (get-Answers n ns c call.insee ready).1
  after-Ready n (landing k none ∷ es) ns c ready =
      after-Ready n es (touched (is_fetched fetch (fetch k)) k ns) (landed k (fetch k) c)
        (stored-Ready n ns c k ready)
  after-Ready n (landing k (some e) ∷ es) ns c ready = after-Ready n es ns c ready

  ceiling-limit : (n : ℤ) → ceiling n ≡ limit n
  ceiling-limit (pos zero) = refl
  ceiling-limit (pos (suc n)) = refl
  ceiling-limit (negsuc n) = refl

  unused-order : (n : ℤ) → [] ≡ at_most (limit n) []
  unfolding take
  unused-order (pos zero) = refl
  unused-order (pos (suc n)) = refl
  unused-order (negsuc n) = refl

  unused-Ready : (n : ℤ) → Ready fetch n [] (unused n)
  unused-Ready n = record {
    distinct = refl;
    set = refl;
    held = record {
      keys = [];
      ready = refl;
      ceils = ceiling-limit n;
      kept = record {
        order = unused-order n;
        mirror = record { distinct = refl; same = λ k. refl; size = refl };
        all = tt;
      };
    };
  }

  -- resolveBatiPolygons over a DefaultBatiCache that was unused, for any MaxCommunes, when the
  -- upstream answers each commune alike, and after calls that looked at the cache and flights that
  -- landed in any order, some of them cut by their deadline: a call is served from the cache exactly
  -- when its commune is one of the latest that were used, as many as the ceiling allows (16 when
  -- MaxCommunes is 0, all when it is negative). A commune is used by a flight that lands with its
  -- dump, and by a call that is served from the cache; a flight that is cut or fails stores nothing.
  -- A call that is served has the polygons of its commune; one that is not has the error of its
  -- context if that ends first, and else the dump or the error of its flight.
  pub resolve_bati_polygons-after :
      (n : ℤ) (es : List Event) (call : Call) (flight : Result (BatiDump Polygon))
      → (resolve_bati_polygons call flight (after es (unused n))).0
        ≡ served
            (if holds call.insee (at_most (limit n) (recent (limit n) es []))
              then polygons_of fetch (fetch call.insee)
              else none)
            call.ctx_err
            flight
  unfolding resolve_bati_polygons
  resolve_bati_polygons-after n es call flight =
      responded (get call.insee (after es (unused n))).0 call.ctx_err flight
      ∙ ap (λ o. served o call.ctx_err flight)
          (get-Answers n (recent (limit n) es []) (after es (unused n)) call.insee
            (after-Ready n es [] (unused n) (unused-Ready n))).0
