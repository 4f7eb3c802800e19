-- ===== src/Client/Roster.antt =====
-- The roster of Sources: Build and Without (gazetteer/gazetteer.go).
use gazetteer.Prelude.{
  String, Bool, true, false, ◌&&◌, not, Option, none, some, List, [], ◌∷◌, ◌≡◌, refl, ◌∙◌, sym,
  arith, eq_iff,
}
use gazetteer.Prelude.Names.{holds, are_distinct}
use gazetteer.Errors.{Result, ok, err}
use gazetteer.Client.{Config, Source, names_of, kept_of, without, duplicate, build}

abbrev none_held : List String → List String → Bool
none_held [] seen = true
none_held (n ∷ ns) seen = not (holds n seen) && none_held ns seen

none_held-cons :
    (ns seen : List String) (m : String)
    → none_held ns (m ∷ seen) ≡ not (holds m ns) && none_held ns seen
none_held-cons [] seen m = refl
none_held-cons (n ∷ ns) seen m = ground (arith, none_held-cons ns seen m, eq_iff n m, eq_iff m n)

none_held-nil : (ns : List String) → none_held ns [] ≡ true
none_held-nil [] = refl
none_held-nil (n ∷ ns) = none_held-nil ns

abbrev is_unique : Option String → Bool
is_unique none = true
is_unique (some n) = false

module _ {L V : Type 0} where
  is_unique-duplicate :
      (seen : List String) (ss : List (Source L V))
      → is_unique (duplicate seen ss) ≡ are_distinct (names_of ss) && none_held (names_of ss) seen
  unfolding duplicate
  is_unique-duplicate seen [] = refl
  is_unique-duplicate seen (s ∷ ss) =
      ground
        (arith, is_unique-duplicate (s.name ∷ seen) ss, none_held-cons (names_of ss) seen s.name)

  abbrev pub is_built : Result (Config L V) → Bool
  is_built (ok b) = true
  is_built (err e) = false

  is_built-build : (b : Config L V) → is_built (build b) ≡ is_unique (duplicate [] b.sources)
  unfolding build
  is_built-build b = ground arith

  -- Build gives a Client exactly if no two Sources have the same name.
  pub build-distinct : (b : Config L V) → is_built (build b) ≡ are_distinct (names_of b.sources)
  build-distinct b = ground (
    arith,
    is_built-build b,
    is_unique-duplicate [] b.sources,
    none_held-nil (names_of b.sources),
  )

  holds-kept_of :
      (n : String) (drop : List String) (ss : List (Source L V))
      → holds n (names_of (kept_of drop ss)) ≡ holds n (names_of ss) && not (holds n drop)
  unfolding kept_of
  holds-kept_of n drop [] = refl
  holds-kept_of n drop (s ∷ ss) = ground (arith, holds-kept_of n drop ss, eq_iff n s.name)

  are_distinct-kept_of :
      (drop : List String) (ss : List (Source L V))
      → are_distinct (names_of ss) ≡ true
      → are_distinct (names_of (kept_of drop ss)) ≡ true
  unfolding kept_of
  are_distinct-kept_of drop [] h = refl
  are_distinct-kept_of drop (s ∷ ss) h =
      ground (arith, are_distinct-kept_of drop ss, holds-kept_of s.name drop ss)

  holds-without :
      (b : Config L V) (names : List String) (n : String)
      → holds n (names_of (without b names).0.sources)
        ≡ holds n (names_of b.sources) && not (holds n names)
  unfolding without
  holds-without b [] n = ground arith
  holds-without b (m ∷ names) n = holds-kept_of n (m ∷ names) b.sources

  is_built-without :
      (b : Config L V) (names : List String)
      → is_built (build b) ≡ true
      → is_built (build (without b names).0) ≡ true
  unfolding without
  is_built-without b [] h = h
  is_built-without b (m ∷ names) h =
      let c = (without b (m ∷ names)).0 in
      build-distinct c ∙ are_distinct-kept_of (m ∷ names) b.sources (sym (build-distinct b) ∙ h)

  -- Without removes the Sources that it names and no other, and from a roster that Build accepts
  -- it leaves one that Build accepts.
  pub without-removes :
      (b : Config L V) (names : List String) (n : String)
      → is_built (build b) ≡ true
      → (holds n (names_of (without b names).0.sources)
          ≡ holds n (names_of b.sources) && not (holds n names))
        × (is_built (build (without b names).0) ≡ true)
  without-removes b names n built = (holds-without b names n, is_built-without b names built)
