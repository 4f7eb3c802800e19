-- ===== src/Communes/Arrondissements.antt =====
-- helpers/communes: what ResolveINSEE answers for Paris, Lyon and Marseille.
use gazetteer.Prelude.{
  ℕ, ◌+◌, ◌*◌, Bool, true, ◌&&◌, ◌||◌, not, Option, none, some, List, [], ◌∷◌, leb, ◌==◌,
  if◌then◌else◌, ◌≡◌, refl, arith, AllSome, AllSome-if, subst, sym, ◌∙◌,
}
use gazetteer.Prelude.Bytes.{has_prefix, trim_space}
use gazetteer.Communes.{
  arrondissement, digit, fold_arrondissement, is_five_digit_zip, lyon, lyon_insee, marseille,
  marseille_insee, or_else, paris, paris_insee, resolve_insee,
}

-- The parent commune of the arrondissements that a postal code is in.
abbrev pub parent_of : List ℕ → List ℕ
parent_of (a ∷ s) = if a == b'7' then paris else if a == b'6' then lyon else marseille
parent_of [] = marseille

abbrev pub is_well_formed : List ℕ → List ℕ → Bool
is_well_formed zip insee = not (is_five_digit_zip zip) || is_five_digit_zip insee

abbrev pub IsArrondissementOf : List ℕ → List ℕ → Type 0
IsArrondissementOf zip insee =
    (fold_arrondissement insee ≡ parent_of zip) × (is_well_formed zip insee ≡ true)

module _ (a b c d e : ℕ) where
  abbrev P : List ℕ → Type 0
  P = IsArrondissementOf (a ∷ b ∷ c ∷ d ∷ e ∷ [])

  paris_116 : (a == b'7') && (b == b'5') ≡ true → P (b'7' ∷ b'5' ∷ b'1' ∷ b'1' ∷ b'6' ∷ [])
  unfolding fold_arrondissement has_prefix
  paris_116 h = (ground (arith, h), ground (arith, h))

  paris_digits : (a == b'7') && (b == b'5') ≡ true → P (b'7' ∷ b'5' ∷ b'1' ∷ d ∷ e ∷ [])
  unfolding fold_arrondissement has_prefix
  paris_digits h = (ground (arith, h), ground (arith, h))

  lyon_digits : (a == b'6') && (b == b'9') ≡ true → P (b'6' ∷ b'9' ∷ b'3' ∷ b'8' ∷ e ∷ [])
  unfolding fold_arrondissement has_prefix
  lyon_digits h = (ground (arith, h), ground (arith, h))

  marseille_digits : (a == b'1') && (b == b'3') ≡ true → P (b'1' ∷ b'3' ∷ b'2' ∷ d ∷ e ∷ [])
  unfolding fold_arrondissement has_prefix
  marseille_digits h = (ground (arith, h), ground (arith, h))

  paris_insee-folds : (a == b'7') && (b == b'5') ≡ true → AllSome P (paris_insee c d e)
  paris_insee-folds h =
      AllSome-if P ((c == b'1') && ((d == b'1') && (e == b'6')))
        (some (b'7' ∷ b'5' ∷ b'1' ∷ b'1' ∷ b'6' ∷ [])) _ (λ _. paris_116 h)
        (λ _.
          AllSome-if P
            ((c == b'0') && (leb 1 (digit d * 10 + digit e) && leb (digit d * 10 + digit e) 20))
            (some (b'7' ∷ b'5' ∷ b'1' ∷ d ∷ e ∷ [])) none (λ _. paris_digits h) (λ _. tt))

  lyon_insee-folds : (a == b'6') && (b == b'9') ≡ true → AllSome P (lyon_insee c d e)
  lyon_insee-folds h =
      AllSome-if P ((c == b'0') && ((d == b'0') && (leb b'1' e && leb e b'9')))
        (some (b'6' ∷ b'9' ∷ b'3' ∷ b'8' ∷ e ∷ [])) none (λ _. lyon_digits h) (λ _. tt)

  marseille_insee-folds : (a == b'1') && (b == b'3') ≡ true → AllSome P (marseille_insee c d e)
  marseille_insee-folds h =
      AllSome-if P
        ((c == b'0') && (leb 1 (digit d * 10 + digit e) && leb (digit d * 10 + digit e) 16))
        (some (b'1' ∷ b'3' ∷ b'2' ∷ d ∷ e ∷ [])) none (λ _. marseille_digits h) (λ _. tt)

  five-folds : AllSome P (arrondissement (a ∷ b ∷ c ∷ d ∷ e ∷ []))
  five-folds = AllSome-if P _ (paris_insee c d e) _ paris_insee-folds (λ _.
      AllSome-if P _ (lyon_insee c d e) _ lyon_insee-folds
        (λ _. AllSome-if P _ (marseille_insee c d e) none marseille_insee-folds (λ _. tt)))

arrondissement-folds : (zip : List ℕ) → AllSome (IsArrondissementOf zip) (arrondissement zip)
arrondissement-folds [] = tt
arrondissement-folds (a ∷ []) = tt
arrondissement-folds (a ∷ b ∷ []) = tt
arrondissement-folds (a ∷ b ∷ c ∷ []) = tt
arrondissement-folds (a ∷ b ∷ c ∷ d ∷ []) = tt
arrondissement-folds (a ∷ b ∷ c ∷ d ∷ e ∷ []) = five-folds a b c d e
arrondissement-folds (a ∷ b ∷ c ∷ d ∷ e ∷ f ∷ s) = tt

or_else-none : (o : Option (List ℕ)) → or_else o none ≡ o
or_else-none none = refl
or_else-none (some a) = refl

-- What ResolveINSEE answers from the postal code alone, with no table, is an arrondissement:
-- folded, it is Paris for a code that begins with 7, Lyon with 6, and else Marseille; and it has
-- five digits where the postal code has.
pub resolve_insee-folds :
    (city zip insee : List ℕ)
    → resolve_insee none city zip ≡ some insee
    → (fold_arrondissement insee ≡ parent_of (trim_space zip))
      × (is_well_formed (trim_space zip) insee ≡ true)
unfolding resolve_insee
resolve_insee-folds city zip insee h =
    subst (AllSome (IsArrondissementOf (trim_space zip)))
      (sym (or_else-none (arrondissement (trim_space zip))) ∙ h)
      (arrondissement-folds (trim_space zip))
