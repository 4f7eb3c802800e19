-- ===== src/Communes.antt =====
-- helpers/communes: postal codes, départements and arrondissements (resolve.go, arrondissement.go
-- and ZipMatchesINSEE of city_zip.go). Strings are lists of bytes. The embedded tables are
-- parameters: an absent one is a table that cannot be read.
pub mod Arrondissements
use gazetteer.Prelude.{
  ℕ, zero, suc, ◌+◌, ◌*◌, ◌-◌, ◌%◌, Bool, true, false, ◌&&◌, ◌||◌, not, Option, none, some, List,
  [], ◌∷◌, ltb, leb, ◌==◌, if◌then◌else◌,
}
use gazetteer.Prelude.Bytes.{bytes_eq, contains, has_prefix, is_blank, trim_space}

-- The postal codes: the primary one and the alternates of a commune.
pub record CpStore : Type 0 where
  pub primary : List ℕ → Option (List ℕ)
  pub alts : List ℕ → List (List ℕ)

abbrev pub is_digit : ℕ → Bool
is_digit b = leb b'0' b && leb b b'9'

-- Five ASCII digits.
abbrev pub is_five_digit_zip : List ℕ → Bool
is_five_digit_zip (a ∷ b ∷ c ∷ d ∷ e ∷ []) =
    is_digit a && (is_digit b && (is_digit c && (is_digit d && is_digit e)))
is_five_digit_zip _ = false

abbrev pub dept_of_digits : List ℕ → List ℕ
dept_of_digits (a ∷ b ∷ c ∷ s) =
    if (a == b'2') && (b == b'0')
    then (if (c == b'0') || (c == b'1') then b'2' ∷ b'A' ∷ [] else b'2' ∷ b'B' ∷ [])
    else if (a == b'9') && ((b == b'7') || (b == b'8'))
    then a ∷ b ∷ c ∷ []
    else a ∷ b ∷ []
dept_of_digits _ = []

-- DeptFromZip
unfoldable pub dept_from_zip : List ℕ → List ℕ
unfolding trim_space
dept_from_zip zip = let z = trim_space zip in if is_five_digit_zip z then dept_of_digits z else []

abbrev pub paris : List ℕ
paris = b'7' ∷ b'5' ∷ b'0' ∷ b'5' ∷ b'6' ∷ []

abbrev pub lyon : List ℕ
lyon = b'6' ∷ b'9' ∷ b'1' ∷ b'2' ∷ b'3' ∷ []

abbrev pub marseille : List ℕ
marseille = b'1' ∷ b'3' ∷ b'0' ∷ b'5' ∷ b'5' ∷ []

abbrev pub fold_five : List ℕ → List ℕ
fold_five insee =
    if has_prefix (b'7' ∷ b'5' ∷ b'1' ∷ []) insee
    then paris
    else if has_prefix (b'6' ∷ b'9' ∷ b'3' ∷ b'8' ∷ []) insee
    then lyon
    else if has_prefix (b'1' ∷ b'3' ∷ b'2' ∷ []) insee
    then marseille
    else insee

-- FoldArrondissement
unfoldable pub fold_arrondissement : List ℕ → List ℕ
unfolding has_prefix
fold_arrondissement (a ∷ b ∷ c ∷ d ∷ e ∷ []) = fold_five (a ∷ b ∷ c ∷ d ∷ e ∷ [])
fold_arrondissement insee = insee

-- ZipMatchesINSEE: `none` is a commune that is not known.
unfoldable pub zip_matches_insee : Option CpStore → List ℕ → List ℕ → Option Bool
unfolding bytes_eq contains fold_arrondissement trim_space
zip_matches_insee none insee zip = none
zip_matches_insee (some store) insee zip =
    if is_blank insee || is_blank zip
    then none
    else (let folded = fold_arrondissement (trim_space insee) in
        let z = trim_space zip in
        elim (store.primary folded) [
          | none ↦ none
          | some primary ↦ some (bytes_eq primary z || contains (store.alts folded) z)
        ])

-- int(b - '0'), the difference in a byte.
abbrev pub digit : ℕ → ℕ
digit b = (b + 208) % 256

abbrev pub or_else : Option (List ℕ) → Option (List ℕ) → Option (List ℕ)
or_else none o = o
or_else (some a) o = some a

-- The arrondissement of a postal code of Paris, of Lyon and of Marseille.
abbrev pub paris_insee : ℕ → ℕ → ℕ → Option (List ℕ)
paris_insee c d e =
    if (c == b'1') && ((d == b'1') && (e == b'6'))
    then some (b'7' ∷ b'5' ∷ b'1' ∷ b'1' ∷ b'6' ∷ [])
    else if (c == b'0') && (leb 1 (digit d * 10 + digit e) && leb (digit d * 10 + digit e) 20)
    then some (b'7' ∷ b'5' ∷ b'1' ∷ d ∷ e ∷ [])
    else none

abbrev pub lyon_insee : ℕ → ℕ → ℕ → Option (List ℕ)
lyon_insee c d e =
    if (c == b'0') && ((d == b'0') && (leb b'1' e && leb e b'9'))
    then some (b'6' ∷ b'9' ∷ b'3' ∷ b'8' ∷ e ∷ [])
    else none

abbrev pub marseille_insee : ℕ → ℕ → ℕ → Option (List ℕ)
marseille_insee c d e =
    if (c == b'0') && (leb 1 (digit d * 10 + digit e) && leb (digit d * 10 + digit e) 16)
    then some (b'1' ∷ b'3' ∷ b'2' ∷ d ∷ e ∷ [])
    else none

abbrev pub arrondissement : List ℕ → Option (List ℕ)
arrondissement (a ∷ b ∷ c ∷ d ∷ e ∷ []) =
    if (a == b'7') && (b == b'5')
    then paris_insee c d e
    else if (a == b'6') && (b == b'9')
    then lyon_insee c d e
    else if (a == b'1') && (b == b'3')
    then marseille_insee c d e
    else none
arrondissement _ = none

abbrev pub corse_du_sud : List ℕ
corse_du_sud = b'2' ∷ b'A' ∷ []

abbrev pub haute_corse : List ℕ
haute_corse = b'2' ∷ b'B' ∷ []

-- The commune by name and département, the other Corsican one after a miss. `by_name` is what
-- INSEEByCityDept finds.
abbrev pub insee_by_name : (List ℕ → List ℕ → Option (List ℕ)) → List ℕ → List ℕ → Option (List ℕ)
insee_by_name by_name city dept = or_else (by_name city dept) (
    if bytes_eq dept corse_du_sud
    then by_name city haute_corse
    else if bytes_eq dept haute_corse
    then by_name city corse_du_sud
    else none)

-- The method ResolveINSEE of a table, or of none.
unfoldable pub resolve_insee :
    Option (List ℕ → List ℕ → Option (List ℕ)) → List ℕ → List ℕ → Option (List ℕ)
unfolding trim_space dept_from_zip bytes_eq
resolve_insee table city zip = or_else (arrondissement (trim_space zip)) (elim table [
  | none ↦ none
  | some by_name ↦
      if is_blank (trim_space city) || is_blank (dept_from_zip (trim_space zip))
      then none
      else insee_by_name by_name (trim_space city) (dept_from_zip (trim_space zip))
])
