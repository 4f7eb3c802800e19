-- ===== src/Dvf/Matcher/OnePrice.antt =====
-- sources/dvf/matcher.go: FilterMutations takes the price of a sale once at most.
use gazetteer.Prelude.{
  ℕ, suc, ◌≤◌, Bool, true, ◌&&◌, ◌||◌, not, List, [], ◌∷◌, leb, if◌then◌else◌, if-cases, ◌≡◌, refl,
  arith, ap, subst, sym, ◌∙◌, Bool-cases, inl, inr,
}
use gazetteer.Prelude.Bytes.{bytes_eq, bytes_eq_refl, bytes_eq→≡, is_blank}
use gazetteer.Floats.{Floats}
use gazetteer.Dvf.Matcher.{
  Key, Mutation, Texts, Window, built_from, count_sale, filter_from, has_key, is_built_local,
  is_counted, is_dated, is_priced, key_of, local_key, vente,
}
use gazetteer.Dvf.Matcher.Keys.{
  both, elim-cases, from_or, has_key-cons, has_key-own, implies_or, one_key,
}

module _ (F : Floats) (t : Texts F.Float) where
  -- Every row that counts has its key among these.
  abbrev pub covers : List Key → ℕ → List (Mutation F.Float) → Bool
  covers keys row [] = true
  covers keys row (m ∷ ms) =
      (not (is_counted F t m) || has_key (key_of F t m row) keys) && covers keys (suc row) ms

  built_from-keeps :
      (k : Key) (row : ℕ) (ms : List (Mutation F.Float)) (seen : List Key)
      → has_key k seen ≡ true
      → has_key k (built_from F t row ms seen) ≡ true
  unfolding built_from has_key
  built_from-keeps k row [] seen h = h
  built_from-keeps k row (m ∷ ms) seen h = built_from-keeps k (suc row) ms _ (
      if-cases (λ s. has_key k s ≡ true) (is_counted F t m && not (has_key (key_of F t m row) seen))
        (key_of F t m row ∷ seen) seen (λ _. ground (arith, h)) (λ _. h))

  own_key :
      (m : Mutation F.Float) (row : ℕ) (seen : List Key)
      → is_counted F t m ≡ true
      → has_key (key_of F t m row) (
          if is_counted F t m && not (has_key (key_of F t m row) seen)
          then key_of F t m row ∷ seen
          else seen)
        ≡ true
  unfolding has_key
  own_key m row seen c =
      if-cases (λ s. has_key (key_of F t m row) s ≡ true) _ (key_of F t m row ∷ seen) seen
        (λ _. ground (arith, bytes_eq_refl m.id_mutation, bytes_eq_refl (local_key F t m row)))
        (λ n. ground (arith, c, n))

  counted :
      (m : Mutation F.Float) (s : List ℕ)
      → m.id_mutation ≡ s
      → is_blank s ≡ Bool.false
      → is_built_local F t m.type_local ≡ true
      → is_counted F t m ≡ true
  counted m s e b i = ground (arith, i, ap is_blank e ∙ b)

  pub built_from-covers :
      (row : ℕ) (ms : List (Mutation F.Float)) (seen : List Key)
      → covers (built_from F t row ms seen) row ms ≡ true
  unfolding built_from has_key
  built_from-covers row [] seen = refl
  built_from-covers row (m ∷ ms) seen =
      let next =
        if is_counted F t m && not (has_key (key_of F t m row) seen)
        then key_of F t m row ∷ seen
        else seen in
      both _ _
        (implies_or (is_counted F t m) _
          (λ c. built_from-keeps (key_of F t m row) (suc row) ms next (own_key m row seen c)))
        (built_from-covers (suc row) ms next)

  -- Every row of the target's type is a built local.
  abbrev pub are_built : List ℕ → List (Mutation F.Float) → Bool
  are_built target [] = true
  are_built target (m ∷ ms) =
      (not (t.fold_eq m.type_local target) || is_built_local F t m.type_local)
      && are_built target ms

  -- No row is of the sale.
  abbrev pub is_absent : List ℕ → List (Mutation F.Float) → Bool
  is_absent s [] = true
  is_absent s (m ∷ ms) = not (bytes_eq m.id_mutation s) && is_absent s ms

  -- No sale that has an id is there twice.
  abbrev pub are_single : List (Mutation F.Float) → Bool
  are_single [] = true
  are_single (m ∷ ms) = (is_blank m.id_mutation || is_absent m.id_mutation ms) && are_single ms

  -- A later row of a sale whose key is kept already has the same key.
  repeats :
      (built kept : List Key) (row : ℕ) (m : Mutation F.Float) (s a : List ℕ)
      → is_blank s ≡ Bool.false
      → has_key (s, a) kept ≡ true
      → has_key (s, a) built ≡ true
      → not (is_counted F t m) || has_key (key_of F t m row) built ≡ true
      → is_built_local F t m.type_local ≡ true
      → leb (count_sale m.id_mutation built) 1 ≡ true
      → bytes_eq m.id_mutation s ≡ true
      → has_key (key_of F t m row) kept ≡ true
  repeats built kept row m s a b k h c i n e =
      let same = bytes_eq→≡ m.id_mutation s e in
      let own : has_key (s, local_key F t m row) built ≡ true =
        subst (λ x. has_key (x, local_key F t m row) built ≡ true) same
          (from_or (is_counted F t m) _ c (counted m s same b i)) in
      let few : count_sale s built ≤ 1 =
        subst (λ x. count_sale x built ≤ 1) same (ground (arith, n)) in
      let local = bytes_eq→≡ _ _ (one_key s a (local_key F t m row) built few h own) in
      subst (λ x. has_key (x, local_key F t m row) kept ≡ true) (sym same)
        (subst (λ x. has_key (s, x) kept ≡ true) local k)

  -- What the loop makes of a row, case by case.
  filter_from-cases {ℓ} :
      (P : List (Mutation F.Float) → Type ℓ) (built : List Key) (target : List ℕ) (w : Window)
      (row : ℕ) (m : Mutation F.Float) (ms : List (Mutation F.Float)) (kept : List Key)
      → P (filter_from F t built target w (suc row) ms kept)
      → (is_blank m.id_mutation ≡ true → P (m ∷ filter_from F t built target w (suc row) ms kept))
      → (t.fold_eq m.type_local target ≡ true
          → leb (count_sale m.id_mutation built) 1 ≡ true
          → is_blank m.id_mutation ≡ Bool.false
          → has_key (key_of F t m row) kept ≡ Bool.false
          → P (filter_from F t built target w (suc row) ms (key_of F t m row ∷ kept))
            × P (m ∷ filter_from F t built target w (suc row) ms (key_of F t m row ∷ kept)))
      → P (filter_from F t built target w row (m ∷ ms) kept)
  unfolding filter_from
  filter_from-cases P built target w row m ms kept skipped blank fresh =
      elim-cases P
        (bytes_eq m.nature_mutation vente
          && (t.fold_eq m.type_local target && leb (count_sale m.id_mutation built) 1))
        _ _
        (λ matched.
          elim-cases P (is_blank m.id_mutation) _ _
            (λ b.
              if-cases P (is_dated F t w m && is_priced F t m) _ _ (λ _. blank b) (λ _. skipped))
            (λ b.
              elim-cases P (has_key (key_of F t m row) kept) _ _ (λ _. skipped)
                (λ n.
                  let both_ways = fresh (ground (arith, matched)) (ground (arith, matched)) b n in
                  if-cases P (is_dated F t w m && is_priced F t m) _ _ (λ _. both_ways.1)
                    (λ _. both_ways.0))))
        (λ _. skipped)

  differs :
      (m : Mutation F.Float) (s : List ℕ)
      → (bytes_eq m.id_mutation s ≡ true → Bool.false ≡ true)
      → not (bytes_eq m.id_mutation s) ≡ true
  differs m s h = elim (Bool-cases (bytes_eq m.id_mutation s)) [
    | inl e ↦ ground (arith, h e)
    | inr e ↦ ground (arith, e)
  ]

  module _ (built : List Key) (target : List ℕ) (w : Window) where
    -- Once a key of a sale is kept, no later row is of that sale.
    filter_from-is_absent :
        (s a : List ℕ) (row : ℕ) (ms : List (Mutation F.Float)) (kept : List Key)
        → is_blank s ≡ Bool.false
        → has_key (s, a) kept ≡ true
        → has_key (s, a) built ≡ true
        → covers built row ms ≡ true
        → are_built target ms ≡ true
        → is_absent s (filter_from F t built target w row ms kept) ≡ true
    unfolding filter_from
    filter_from-is_absent s a row [] kept b k h c i = refl
    filter_from-is_absent s a row (m ∷ ms) kept b k h c i =
        let c' : covers built (suc row) ms ≡ true = ground (arith, c) in
        let i' : are_built target ms ≡ true = ground (arith, i) in
        let own : not (is_counted F t m) || has_key (key_of F t m row) built ≡ true =
          ground (arith, c) in
        let skipped = filter_from-is_absent s a (suc row) ms kept b k h c' i' in
        filter_from-cases (λ out. is_absent s out ≡ true) built target w row m ms kept skipped
          (λ blank.
            both _ _
              (differs m s (λ e. sym b ∙ sym (ap is_blank (bytes_eq→≡ m.id_mutation s e)) ∙ blank))
              skipped)
          (λ f n b' fresh.
            let local : is_built_local F t m.type_local ≡ true =
              from_or (t.fold_eq m.type_local target) _ (ground (arith, i)) f in
            let rest =
              filter_from-is_absent s a (suc row) ms (key_of F t m row ∷ kept) b
                (has_key-cons (s, a) (key_of F t m row) kept k) h c' i' in
            (
              rest,
              both _ _
                  (differs m s (λ e. sym fresh ∙ repeats built kept row m s a b k h own local n e))
                  rest,
            ))

    pub filter_from-are_single :
        (row : ℕ) (ms : List (Mutation F.Float)) (kept : List Key)
        → covers built row ms ≡ true
        → are_built target ms ≡ true
        → are_single (filter_from F t built target w row ms kept) ≡ true
    unfolding filter_from
    filter_from-are_single row [] kept c i = refl
    filter_from-are_single row (m ∷ ms) kept c i =
        let c' : covers built (suc row) ms ≡ true = ground (arith, c) in
        let i' : are_built target ms ≡ true = ground (arith, i) in
        let own : not (is_counted F t m) || has_key (key_of F t m row) built ≡ true =
          ground (arith, c) in
        let skipped = filter_from-are_single (suc row) ms kept c' i' in
        filter_from-cases (λ out. are_single out ≡ true) built target w row m ms kept skipped
          (λ blank. both _ _ (ground (arith, blank)) skipped)
          (λ f n b fresh.
            let local : is_built_local F t m.type_local ≡ true =
              from_or (t.fold_eq m.type_local target) _ (ground (arith, i)) f in
            let key = key_of F t m row in
            let rest = filter_from-are_single (suc row) ms (key ∷ kept) c' i' in
            let alone =
              filter_from-is_absent m.id_mutation (local_key F t m row) (suc row) ms (key ∷ kept) b
                (has_key-own key kept)
                (from_or (is_counted F t m) _ own (counted m m.id_mutation refl b local)) c' i' in
            (rest, both _ _ (ground (arith, alone)) rest))
