-- ===== src/Tests/MatcherTests.antt =====
-- FilterMutations on the rows of three sales, with numbers for floats.
use gazetteer.Prelude.{ℕ, ◌/◌, ◌≤◌, true, none, some, List, [], ◌∷◌, ◌≡◌, refl, ltb, leb}
use gazetteer.Prelude.Bytes.{bytes_eq, has_prefix, trim_space, trim_front, reverse_onto}
use gazetteer.Prelude.Int.{ℤ, pos, negsuc}
use gazetteer.Floats.{Floats}
use gazetteer.Dvf.Matcher.{
  Mutation, Texts, Window, appartement, built_from, cap_from, cap_per_parcelle, count_parcel,
  count_sale, filter_from, filter_mutations, has_key, is_built_local, local_key, vente,
}
use gazetteer.Dvf.Matcher.Cap.{parcels}
use gazetteer.Dvf.Matcher.Cohort.{filter_mutations-are_single}
use gazetteer.Dvf.Matcher.OnePrice.{are_single}

abbrev numbers : Floats
numbers = record {
  Float = ℕ;
  of_int = λ n. n;
  div = λ a b. a / b;
  lt = ltb;
  le = leb;
  zero_float = 0;
  one_float = 1;
  half = 0;
  three_tenths = 0;
}

abbrev number_text : ℤ → List ℕ
number_text (pos n) = n ∷ []
number_text (negsuc n) = b'-' ∷ n ∷ []

abbrev texts : Texts ℕ
texts = record {
  fold_eq = bytes_eq;
  to_lower = λ s. s;
  float_text = λ x. x ∷ [];
  int_text = number_text;
  parse_date = λ d. some 5;
  surface_min = 9;
  surface_max = 500;
  price_min = 100;
  price_max = 50000;
}

abbrev row_of : ℕ → ℕ → Mutation ℕ
row_of sale parcel = record {
  id_mutation = sale ∷ [];
  date_mutation = [];
  nature_mutation = vente;
  valeur_fonciere = some 100000;
  id_parcelle = parcel ∷ [];
  type_local = appartement;
  surface_reelle_bati = some 50;
  nombre_pieces_princ = none;
  lot1_numero = [];
}

abbrev lot_of : Mutation ℕ → ℕ → Mutation ℕ
lot_of m lot = record m { lot1_numero = lot ∷ [] }

-- Sale 1 has one local on two rows, sale 2 two locals, sale 3 one.
abbrev rows : List (Mutation ℕ)
rows = row_of 1 7 ∷ row_of 1 7 ∷ row_of 2 7 ∷ row_of 2 8 ∷ row_of 3 9 ∷ []

abbrev window : Window
window = record { from = 1; to = some 9 }

cohort_test : filter_mutations numbers texts rows appartement window ≡ row_of 1 7 ∷ row_of 3 9 ∷ []
unfolding filter_mutations filter_from built_from cap_per_parcelle cap_from count_parcel count_sale
    has_key is_built_local local_key bytes_eq has_prefix trim_space trim_front reverse_onto
cohort_test = refl

-- Two flats of one parcel that differ by their lot alone are two locals: the sale is dropped.
two_lots_test :
    filter_mutations numbers texts
      (lot_of (row_of 1 7) 51 ∷ lot_of (row_of 1 7) 52 ∷ [])
      appartement
      window
    ≡ []
unfolding filter_mutations filter_from built_from cap_per_parcelle cap_from count_parcel count_sale
    has_key is_built_local local_key bytes_eq has_prefix trim_space trim_front reverse_onto
two_lots_test = refl

filter_mutations-are_single_example :
    (are_single numbers texts (filter_mutations numbers texts rows appartement window) ≡ true)
    × (count_parcel (7 ∷ []) (parcels (filter_mutations numbers texts rows appartement window)) ≤ 4)
unfolding is_built_local bytes_eq has_prefix trim_space trim_front reverse_onto
filter_mutations-are_single_example =
    filter_mutations-are_single numbers texts rows appartement window (7 ∷ []) refl refl
