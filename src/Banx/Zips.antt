-- ===== src/Banx/Zips.antt =====
-- helpers/banx: ZipsShareDepartment against DeptFromZip of helpers/communes.
use gazetteer.Prelude.{
  ℕ, Bool, true, ◌&&◌, List, [], ◌∷◌, leb, ◌==◌, if◌then◌else◌, ◌≡◌, refl, arith, ap, ap₂, ◌∙◌, sym,
  Bool-cases, inl, inr, subst,
}
use gazetteer.Prelude.Bytes.{
  bytes_eq, bytes_eq_refl, bytes_eq→≡, is_blank, trim_space, trim_front, reverse_onto,
}
use gazetteer.Communes.{dept_from_zip, dept_of_digits, is_five_digit_zip}
use gazetteer.Banx.{dept_match_key, prefix_key, zips_share_department}

-- The département of DeptFromZip, but Corsica as one, and Saint-Barthélemy and Saint-Martin apart
-- from Guadeloupe.
abbrev pub one_corsica : List ℕ → List ℕ
one_corsica (a ∷ b ∷ []) = if (a == b'2') && leb b'A' b then b'2' ∷ b'0' ∷ [] else a ∷ b ∷ []
one_corsica s = s

abbrev pub department : List ℕ → List ℕ
department zip =
    if bytes_eq zip (b'9' ∷ b'7' ∷ b'1' ∷ b'3' ∷ b'3' ∷ [])
    then b'9' ∷ b'7' ∷ b'7' ∷ []
    else if bytes_eq zip (b'9' ∷ b'7' ∷ b'1' ∷ b'5' ∷ b'0' ∷ [])
    then b'9' ∷ b'7' ∷ b'8' ∷ []
    else one_corsica (dept_from_zip zip)

trim_space-digits :
    (a b c d e : ℕ)
    → is_five_digit_zip (a ∷ b ∷ c ∷ d ∷ e ∷ []) ≡ true
    → trim_space (a ∷ b ∷ c ∷ d ∷ e ∷ []) ≡ a ∷ b ∷ c ∷ d ∷ e ∷ []
unfolding trim_space trim_front reverse_onto
trim_space-digits a b c d e h = ground (arith, h)

trim_space-zip : (z : List ℕ) → is_five_digit_zip z ≡ true → trim_space z ≡ z
trim_space-zip [] h = ground (arith, h)
trim_space-zip (a ∷ []) h = ground (arith, h)
trim_space-zip (a ∷ b ∷ []) h = ground (arith, h)
trim_space-zip (a ∷ b ∷ c ∷ []) h = ground (arith, h)
trim_space-zip (a ∷ b ∷ c ∷ d ∷ []) h = ground (arith, h)
trim_space-zip (a ∷ b ∷ c ∷ d ∷ e ∷ []) h = trim_space-digits a b c d e h
trim_space-zip (a ∷ b ∷ c ∷ d ∷ e ∷ f ∷ s) h = ground (arith, h)

prefix_key-digits :
    (z : List ℕ) → is_five_digit_zip z ≡ true → prefix_key z ≡ one_corsica (dept_of_digits z)
prefix_key-digits [] h = ground (arith, h)
prefix_key-digits (a ∷ []) h = ground (arith, h)
prefix_key-digits (a ∷ b ∷ []) h = ground (arith, h)
prefix_key-digits (a ∷ b ∷ c ∷ s) h = ground (arith, h)

dept_from_zip-digits :
    (z : List ℕ) → is_five_digit_zip z ≡ true → dept_from_zip z ≡ dept_of_digits z
unfolding dept_from_zip
dept_from_zip-digits z h = rw (trim_space-zip z h, h) refl

dept_match_key-eq-department :
    (z : List ℕ) → is_five_digit_zip z ≡ true → dept_match_key z ≡ department z
unfolding dept_match_key
dept_match_key-eq-department z h =
    ground (arith, h, prefix_key-digits z h, ap one_corsica (dept_from_zip-digits z h))

is_blank-zip : (z : List ℕ) → is_five_digit_zip z ≡ true → is_blank z ≡ Bool.false
is_blank-zip [] h = ground (arith, h)
is_blank-zip (a ∷ s) h = refl

keys-eq :
    (x y : List ℕ) (f : List ℕ → List ℕ)
    → (if bytes_eq x y then true else bytes_eq (f x) (f y)) ≡ bytes_eq (f x) (f y)
keys-eq x y f = elim (Bool-cases (bytes_eq x y)) [
  | inl h ↦
      rw h (sym (subst (λ z. bytes_eq (f x) (f z) ≡ true) (bytes_eq→≡ x y h) (bytes_eq_refl (f x))))
  | inr h ↦ rw h refl
]

-- Two well-formed postal codes share a département in the geocoder's guard exactly when
-- DeptFromZip gives them the same one, with both halves of Corsica taken as one and
-- Saint-Barthélemy and Saint-Martin taken apart from Guadeloupe.
pub zips_share_department-eq-departments :
    (x y : List ℕ)
    → is_five_digit_zip x ≡ true
    → is_five_digit_zip y ≡ true
    → zips_share_department x y ≡ bytes_eq (department x) (department y)
unfolding zips_share_department
zips_share_department-eq-departments x y h k =
    rw (trim_space-zip x h, trim_space-zip y k, is_blank-zip x h, is_blank-zip y k)
      (keys-eq x y dept_match_key
        ∙ ap₂ bytes_eq (dept_match_key-eq-department x h) (dept_match_key-eq-department y k))
