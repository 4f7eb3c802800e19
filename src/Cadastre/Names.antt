-- ===== src/Cadastre/Names.antt =====
-- The last names of a list without repetitions, as sources/cadastre/cache.go keeps them.
use gazetteer.Prelude.{
  ℕ, zero, suc, ◌+◌, String, true, false, Option, none, some, List, [], ◌∷◌, ◌≡◌, refl, sym, ◌∙◌,
  ap, arith, length, eq_iff, leb,
}
use gazetteer.Prelude.Int.{ℤ, pos, negsuc}
use gazetteer.Prelude.Names.{
  holds, are_distinct, drop, holds-drop, drop-absent, are_distinct-drop, length-drop,
}

unfoldable pub take : ℕ → List String → List String
take zero ns = []
take (suc m) [] = []
take (suc m) (n ∷ ns) = n ∷ take m ns

pub holds-take :
    (k : String) (m : ℕ) (ns : List String) → holds k ns ≡ false → holds k (take m ns) ≡ false
unfolding take
holds-take k zero ns h = refl
holds-take k (suc m) [] h = refl
holds-take k (suc m) (n ∷ ns) h = ground (arith, h, holds-take k m ns)

pub are_distinct-take :
    (m : ℕ) (ns : List String) → are_distinct ns ≡ true → are_distinct (take m ns) ≡ true
unfolding take
are_distinct-take zero ns h = refl
are_distinct-take (suc m) [] h = refl
are_distinct-take (suc m) (n ∷ ns) h = ground (arith, h, holds-take n m ns, are_distinct-take m ns)

-- A name past the first ones is dropped for nothing.
pub take-drop_absent :
    (k : String) (m : ℕ) (ns : List String)
    → holds k (take m ns) ≡ false
    → take m (drop k ns) ≡ take m ns
unfolding take drop
take-drop_absent k zero ns h = refl
take-drop_absent k (suc m) [] h = refl
take-drop_absent k (suc m) (n ∷ ns) h = ground (arith, h, eq_iff k n, take-drop_absent k m ns)

-- A name that is one of the first m + 1: without it, the first m of the others.
pub drop-take :
    (k : String) (m : ℕ) (ns : List String)
    → are_distinct ns ≡ true
    → holds k (take (suc m) ns) ≡ true
    → drop k (take (suc m) ns) ≡ take m (drop k ns)
unfolding take drop
drop-take k m [] d h = ground (arith, h)
drop-take k zero (n ∷ ns) d h = ground (arith, h)
drop-take k (suc m) (n ∷ ns) d h = ground (
  arith,
  d,
  h,
  eq_iff k n,
  drop-take k m ns,
  drop-absent n ns,
  drop-absent n (take (suc m) ns),
  holds-take n (suc m) ns,
)

pub take-short : (m : ℕ) (ns : List String) → leb (suc m) (length ns) ≡ false → take m ns ≡ ns
unfolding take
take-short zero [] h = refl
take-short zero (n ∷ ns) h = ground (arith, h)
take-short (suc m) [] h = refl
take-short (suc m) (n ∷ ns) h = ap (λ rest. n ∷ rest) (take-short m ns (ground (arith, h)))

unfoldable pub last : List String → Option String
last [] = none
last (n ∷ []) = some n
last (n ∷ o ∷ ns) = last (o ∷ ns)

pub holds-last : (n : String) (ns : List String) → last ns ≡ some n → holds n ns ≡ true
unfolding last
holds-last n [] h = ground (arith, h)
holds-last n (o ∷ []) h = ground (arith, h, eq_iff n o)
holds-last n (o ∷ p ∷ ns) h = ground (arith, holds-last n (p ∷ ns) h)

-- The last name is past all that leave room for it.
pub last-past :
    (n : String) (m : ℕ) (ns : List String)
    → are_distinct ns ≡ true
    → last ns ≡ some n
    → leb (suc m) (length ns) ≡ true
    → holds n (take m ns) ≡ false
unfolding take last
last-past n zero ns d l h = refl
last-past n (suc m) [] d l h = ground (arith, h)
last-past n (suc m) (o ∷ []) d l h = ground (arith, h)
last-past n (suc m) (o ∷ p ∷ ns) d l h =
    ground (arith, d, h, l, eq_iff n o, holds-last n (p ∷ ns) l, last-past n m (p ∷ ns))

-- The map of a cache and its recency list: the same names, each once.
pub record Mirror (keys ns : List String) : Type 0 where
  pub distinct : are_distinct keys ≡ true
  pub same : (n : String) → holds n keys ≡ holds n ns
  pub size : length keys ≡ length ns

pub Mirror-drop :
    (k : String) (keys ns : List String)
    → are_distinct ns ≡ true
    → Mirror keys ns
    → Mirror (drop k keys) (drop k ns)
Mirror-drop k keys ns d h = record {
  distinct = are_distinct-drop k keys h.distinct;
  same = λ n. ground (arith, holds-drop n k keys, holds-drop n k ns, h.same n);
  size = ground (arith, length-drop k keys h.distinct, length-drop k ns d, h.same k, h.size);
}

last-none : (ns : List String) → last ns ≡ none → ns ≡ []
unfolding last
last-none [] h = refl
last-none (n ∷ []) h = ground (arith, h)
last-none (n ∷ o ∷ ns) h = ground (arith, h, last-none (o ∷ ns) h)

take-nil : (m : ℕ) → [] ≡ take m []
unfolding take
take-nil zero = refl
take-nil (suc m) = refl

pub take-empty : (m : ℕ) (ns : List String) → last ns ≡ none → ns ≡ take m ns
take-empty m ns h = last-none ns h ∙ take-nil m ∙ ap (take m) (sym (last-none ns h))

-- A name that leaves a list of different names makes room for one.
pub take-drop-last :
    (n : String) (m : ℕ) (ns : List String)
    → are_distinct ns ≡ true
    → last ns ≡ some n
    → leb (suc m) (length ns) ≡ true
    → take m (drop n ns) ≡ take m ns
take-drop-last n m ns d l h = take-drop_absent n m ns (last-past n m ns d l h)

pub length-drop_one :
    (n : String) (ns : List String)
    → are_distinct ns ≡ true
    → last ns ≡ some n
    → length (drop n ns) + 1 ≡ length ns
length-drop_one n ns d l = ground (arith, length-drop n ns d, holds-last n ns l)

-- The first names up to a ceiling, and all of them with none.
abbrev pub at_most : ℤ → List String → List String
at_most (pos m) ns = take m ns
at_most (negsuc k) ns = ns

pub take-take : (m : ℕ) (ns : List String) → take m (take (suc m) ns) ≡ take m ns
unfolding take
take-take zero ns = refl
take-take (suc m) [] = refl
take-take (suc m) (n ∷ ns) = ap (λ rest. n ∷ rest) (take-take m ns)

pub Mirror-front :
    (k : String) (keys ns : List String)
    → are_distinct ns ≡ true
    → holds k ns ≡ true
    → Mirror keys ns
    → Mirror keys (k ∷ drop k ns)
Mirror-front k keys ns d held h = record {
  distinct = h.distinct;
  same = λ n. ground (arith, h.same n, holds-drop n k ns, held, eq_iff n k, eq_iff k n);
  size = ground (arith, h.size, length-drop k ns d, held);
}

pub Mirror-cons :
    (k : String) (keys ns : List String)
    → holds k ns ≡ false
    → Mirror keys ns
    → Mirror (k ∷ keys) (k ∷ ns)
Mirror-cons k keys ns apart h = record {
  distinct = ground (arith, h.distinct, h.same k, apart);
  same = λ n. ground (arith, h.same n);
  size = ground (arith, h.size);
}

-- The latest of the names held, moved to the front.
pub at_most-front :
    (max : ℤ) (k : String) (ns : List String)
    → are_distinct ns ≡ true
    → holds k (at_most max ns) ≡ true
    → k ∷ drop k (at_most max ns) ≡ at_most max (k ∷ drop k ns)
unfolding take
at_most-front (pos zero) k ns d h = ground (arith, h)
at_most-front (pos (suc m)) k ns d h = ap (λ rest. k ∷ rest) (drop-take k m ns d h)
at_most-front (negsuc j) k ns d h = refl

pub are_distinct-at_most :
    (max : ℤ) (ns : List String) → are_distinct ns ≡ true → are_distinct (at_most max ns) ≡ true
are_distinct-at_most (pos m) ns d = are_distinct-take m ns d
are_distinct-at_most (negsuc j) ns d = d
