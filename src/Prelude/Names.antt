-- ===== src/Prelude/Names.antt =====
-- Lists of names as sets.
use gazetteer.Prelude.Tests.{if◌then◌else◌}
use gazetteer.Prelude.Lists.{length}
use Prim.Native.Nat.{◌+◌}
use Prim.Native.String.{String}
use native.Mathlib.Omega.{arith}
use mathlib.Core.Path.{◌≡◌, refl}
use mathlib.Core.Bool.{Bool, true, false, not, ◌&&◌, ◌||◌}
use mathlib.Core.List.{List, [], ◌∷◌}
use text.Mathlib.Text.{◌==◌}
use text.Mathlib.TextEquality.{eq_iff}

-- A key of a Go `map[string]bool` that the map holds as true.
abbrev pub holds : String → List String → Bool
holds n [] = false
holds n (m ∷ ms) = n == m || holds n ms

abbrev pub are_distinct : List String → Bool
are_distinct [] = true
are_distinct (n ∷ ns) = not (holds n ns) && are_distinct ns

unfoldable pub drop : String → List String → List String
drop k [] = []
drop k (n ∷ ns) = let rest = drop k ns in if k == n then rest else n ∷ rest

pub holds-drop :
    (n k : String) (ns : List String) → holds n (drop k ns) ≡ holds n ns && not (k == n)
unfolding drop
holds-drop n k [] = refl
holds-drop n k (m ∷ ns) = ground (arith, holds-drop n k ns, eq_iff n m, eq_iff k m, eq_iff k n)

pub are_distinct-drop :
    (k : String) (ns : List String) → are_distinct ns ≡ true → are_distinct (drop k ns) ≡ true
unfolding drop
are_distinct-drop k [] h = refl
are_distinct-drop k (n ∷ ns) h = ground (arith, h, are_distinct-drop k ns, holds-drop n k ns)

pub length-drop :
    (k : String) (ns : List String)
    → are_distinct ns ≡ true
    → length (drop k ns) + (if holds k ns then 1 else 0) ≡ length ns
unfolding drop
length-drop k [] h = refl
length-drop k (n ∷ ns) h = ground (arith, h, length-drop k ns, eq_iff k n)

-- A name that is not there is dropped for nothing.
pub drop-absent : (k : String) (ns : List String) → holds k ns ≡ false → drop k ns ≡ ns
unfolding drop
drop-absent k [] h = refl
drop-absent k (n ∷ ns) h = ground (arith, h, drop-absent k ns)
