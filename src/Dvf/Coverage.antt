-- ===== src/Dvf/Coverage.antt =====
-- sources/dvf: what fetchSections (source.go) leaves in the memo, and what it returns.
use gazetteer.Prelude.{
  ℕ, String, str_eq, Bool, true, false, ◌&&◌, ◌||◌, not, Option, none, some, List, [], ◌∷◌, length,
  if◌then◌else◌, if-cases, ◌≡◌, refl, arith, ap, ◌∙◌, sym, subst, Option-cases, inl, inr,
}
use text.Mathlib.TextPositions.{eq_refl}
use gazetteer.Prelude.Dict.{Dict, lookup, insert, delete, lookup-insert, lookup-delete}
use gazetteer.Errors.{Err, Result, ok, err}
use gazetteer.Dvf.{
  QueryMemo, Weather, failures, first_key, fetch_section, fetched_of, fetch_sections,
  is_section_not_found, lt_string, record_failure, store_mutations,
}

abbrev pub is_some {ℓ} : {A : Type ℓ} → Option A → Bool
is_some none = false
is_some (some a) = true

if-same {ℓ} : {A : Type ℓ} (b : Bool) (x : A) → (if b then x else x) ≡ x
if-same true x = refl
if-same Bool.false x = refl

both : {b c : Bool} → b ≡ true → c ≡ true → b && c ≡ true
both {b} {c} h k = ground (arith, h, k)

-- Nothing stops the calls.
abbrev pub are_clear : {M : Type 0} → Weather M → List String → Bool
are_clear w [] = true
are_clear w (k ∷ ks) = not (w.is_stopped k) && (not (w.is_abandoned k) && are_clear w ks)

module _ {M G : Type 0} where
  -- The memo has the key's mutations, or its failure.
  abbrev pub is_accounted : String → QueryMemo M G → Bool
  is_accounted key m = is_some (lookup key m.mutations) || is_some (lookup key m.failed)

  store-accounts :
      (key other : String) (muts : List M) (m : QueryMemo M G)
      → is_accounted other (record {
        mutations = insert key muts m.mutations;
        sections = m.sections;
        geos = m.geos;
        failed = delete key m.failed;
      })
        ≡ (if str_eq key other then true else is_accounted other m)
  store-accounts key other muts m =
      rw (lookup-insert m.mutations key other muts, lookup-delete m.failed key other) (ground arith)

  record-accounts :
      (key other : String) (e : Err) (m : QueryMemo M G)
      → is_accounted other (record {
        mutations = m.mutations;
        sections = m.sections;
        geos = m.geos;
        failed = insert key e m.failed;
      })
        ≡ (if str_eq key other then true else is_accounted other m)
  record-accounts key other e m = rw (lookup-insert m.failed key other e) (ground arith)

  abbrev pub accounts_for : String → Option (QueryMemo M G) → Bool
  accounts_for key none = Bool.false
  accounts_for key (some m) = is_accounted key m

  abbrev pub account_for_all : List String → Option (QueryMemo M G) → Bool
  account_for_all [] m = true
  account_for_all (k ∷ ks) m = accounts_for k m && account_for_all ks m

  fetched_of-accounts :
      (key other : String) (m : QueryMemo M G) (reply : Result (List M))
      → accounts_for other (fetched_of key (some m) reply).1
        ≡ (if str_eq key other then true else is_accounted other m)
  unfolding store_mutations record_failure
  fetched_of-accounts key other m (ok muts) = store-accounts key other muts m
  fetched_of-accounts key other m (err e) =
      if-cases
        (λ (r : List M × Option (QueryMemo M G)).
          accounts_for other r.1 ≡ (if str_eq key other then true else is_accounted other m))
        (is_section_not_found e) _ _ (λ _. store-accounts key other [] m)
        (λ _. record-accounts key other e m)

  fetched_of-accounts_self :
      (key : String) (m : QueryMemo M G) (reply : Result (List M))
      → accounts_for key (fetched_of key (some m) reply).1 ≡ true
  fetched_of-accounts_self key m reply = fetched_of-accounts key key m reply ∙ rw (eq_refl key) refl

  fetched_of-keeps :
      (key other : String) (m : QueryMemo M G) (reply : Result (List M))
      → is_accounted other m ≡ true
      → accounts_for other (fetched_of key (some m) reply).1 ≡ true
  fetched_of-keeps key other m reply h =
      fetched_of-accounts key other m reply ∙ rw h (if-same (str_eq key other) true)

module _ {M G : Type 0} (w : Weather M) where
  fetch_section-keeps :
      (key other : String) (o : Option (QueryMemo M G))
      → accounts_for other o ≡ true
      → accounts_for other (fetch_section w key o).1 ≡ true
  unfolding fetch_section
  fetch_section-keeps key other none h = ground (arith, h)
  fetch_section-keeps key other (some m) h =
      if-cases (λ (r : List M × Option (QueryMemo M G)). accounts_for other r.1 ≡ true)
        (w.is_abandoned key) _ _ (λ _. h) (λ _. fetched_of-keeps key other m (w.fetch key) h)

  fetch_sections-keeps :
      (keys : List String) (other : String) (o : Option (QueryMemo M G))
      → accounts_for other o ≡ true
      → accounts_for other (fetch_sections w keys o).1 ≡ true
  unfolding fetch_sections
  fetch_sections-keeps [] other o h = h
  fetch_sections-keeps (key ∷ keys) other o h = ground (
    arith,
    h,
    fetch_sections-keeps keys other o h,
    fetch_sections-keeps keys other (fetch_section w key o).1 (fetch_section-keeps key other o h),
  )

  fetch_section-accounts :
      (key : String) (m : QueryMemo M G)
      → w.is_abandoned key ≡ Bool.false
      → accounts_for key (fetch_section w key (some m)).1 ≡ true
  unfolding fetch_section
  fetch_section-accounts key m h = rw h (fetched_of-accounts_self key m (w.fetch key))

  is_some-accounts :
      (key : String) (o : Option (QueryMemo M G)) → accounts_for key o ≡ true → is_some o ≡ true
  is_some-accounts key none h = ground (arith, h)
  is_some-accounts key (some m) h = refl

  known-accounts :
      (key : String) (m : QueryMemo M G) (c : List M)
      → lookup key m.mutations ≡ some c
      → is_accounted key m ≡ true
  known-accounts key m c h = rw h refl

  fetch_sections-miss :
      (key : String) (keys : List String) (m : QueryMemo M G)
      → w.is_stopped key ≡ Bool.false
      → lookup key m.mutations ≡ none
      → (fetch_sections w (key ∷ keys) (some m)).1
        ≡ (fetch_sections w keys (fetch_section w key (some m)).1).1
  unfolding fetch_sections
  fetch_sections-miss key keys m a b = ground (arith, a, b)

  fetch_sections-hit :
      (key : String) (keys : List String) (m : QueryMemo M G) (c : List M)
      → w.is_stopped key ≡ Bool.false
      → lookup key m.mutations ≡ some c
      → (fetch_sections w (key ∷ keys) (some m)).1 ≡ (fetch_sections w keys (some m)).1
  unfolding fetch_sections
  fetch_sections-hit key keys m c a b = ground (arith, a, b)

  fetch_sections-accounts :
      (keys : List String) (o : Option (QueryMemo M G))
      → is_some o ≡ true
      → are_clear w keys ≡ true
      → account_for_all keys (fetch_sections w keys o).1 ≡ true
  unfolding fetch_sections
  fetch_sections-accounts [] o s c = refl
  fetch_sections-accounts (key ∷ keys) none s c = ground (arith, s)
  fetch_sections-accounts (key ∷ keys) (some m) s c =
      let clear : (w.is_stopped key ≡ Bool.false)
          × ((w.is_abandoned key ≡ Bool.false) × (are_clear w keys ≡ true)) =
        (ground (arith, c), (ground (arith, c), ground (arith, c))) in
      let own = fetch_section-accounts key m clear.1.0 in
      elim (Option-cases (lookup key m.mutations)) [
        | inl missing ↦
            subst (λ o. account_for_all (key ∷ keys) o ≡ true)
              (sym (fetch_sections-miss key keys m clear.0 missing))
              (both (fetch_sections-keeps keys key (fetch_section w key (some m)).1 own) (
                fetch_sections-accounts keys (fetch_section w key (some m)).1
                  (is_some-accounts key (fetch_section w key (some m)).1 own) clear.1.1))
        | inr hit ↦
            subst (λ o. account_for_all (key ∷ keys) o ≡ true)
              (sym (fetch_sections-hit key keys m hit.0 clear.0 hit.1))
              (both (fetch_sections-keeps keys key (some m) (known-accounts key m hit.0 hit.1))
                (fetch_sections-accounts keys (some m) refl clear.1.1))
      ]

-- No key is empty, as those of the code are not: they hold a slash.
abbrev pub are_named : Dict Err → Bool
are_named [] = true
are_named (e ∷ es) = not (str_eq e.0 "") && are_named es

first_key-named :
    (first : String) (es : Dict Err)
    → are_named es ≡ true
    → str_eq first "" ≡ Bool.false
    → str_eq (first_key first es) "" ≡ Bool.false
unfolding first_key
first_key-named first [] n h = h
first_key-named first (e ∷ es) n h =
    first_key-named (if str_eq first "" || lt_string e.0 first then e.0 else first) es
      (ground (arith, n))
      (if-cases (λ f. str_eq f "" ≡ Bool.false) (str_eq first "" || lt_string e.0 first) e.0 first
        (λ _. ground (arith, n)) (λ _. h))

first_key-next :
    (first : String) (e : String × Err)
    → str_eq e.0 "" ≡ Bool.false
    → str_eq (if str_eq first "" || lt_string e.0 first then e.0 else first) "" ≡ Bool.false
first_key-next first e n =
    if-cases (λ f. str_eq f "" ≡ Bool.false) (str_eq first "" || lt_string e.0 first) e.0 first
      (λ _. n) (λ r. ground (arith, r))

count_of-none :
    (es : Dict Err)
    → are_named es ≡ true
    → (if◌then◌else◌ {A = ℕ × Option Err}
        (str_eq (first_key "" es) "")
        (0, none)
        (length es, lookup (first_key "" es) es)).0
      ≡ 0
    → es ≡ []
unfolding first_key
count_of-none [] n h = refl
count_of-none (x ∷ es) n h =
    let named =
      first_key-named (if str_eq "" "" || lt_string x.0 "" then x.0 else "") es (ground (arith, n))
        (first_key-next "" x (ground (arith, n))) in
    ground (arith, h, named)

failures-none :
    {M G : Type 0} (m : QueryMemo M G)
    → are_named m.failed ≡ true
    → (failures (some m)).0 ≡ 0
    → m.failed ≡ []
unfolding failures
failures-none m n h = count_of-none m.failed n h

module _ {M G : Type 0} where
  abbrev pub knows : String → Option (QueryMemo M G) → Bool
  knows key none = Bool.false
  knows key (some m) = is_some (lookup key m.mutations)

  abbrev pub knows_all : List String → Option (QueryMemo M G) → Bool
  knows_all [] m = true
  knows_all (k ∷ ks) m = knows k m && knows_all ks m

  abbrev pub has_named_failures : Option (QueryMemo M G) → Bool
  has_named_failures none = true
  has_named_failures (some m) = are_named m.failed

  accounted-knows :
      (key : String) (m : QueryMemo M G)
      → m.failed ≡ []
      → is_accounted key m ≡ true
      → is_some (lookup key m.mutations) ≡ true
  unfolding lookup
  accounted-knows key m f h = ground (arith, h, ap (λ (d : Dict Err). is_some (lookup key d)) f)

  account_for_all-knows_all :
      (keys : List String) (o : Option (QueryMemo M G))
      → account_for_all keys o ≡ true
      → has_named_failures o ≡ true
      → (failures o).0 ≡ 0
      → knows_all keys o ≡ true
  account_for_all-knows_all [] o a n f = refl
  account_for_all-knows_all (k ∷ ks) none a n f = ground (arith, a)
  account_for_all-knows_all (k ∷ ks) (some m) a n f =
      both (accounted-knows k m (failures-none m n f) (ground (arith, a)))
        (account_for_all-knows_all ks (some m) (ground (arith, a)) n f)

  -- An outage is not an empty market: where neither the context nor the breaker stops the calls,
  -- and the memo counts no failure afterwards, then it has the definitive answer for every
  -- section that was asked for, from now or from an earlier tier.
  pub fetch_sections_complete :
      (w : Weather M) (keys : List String) (m : QueryMemo M G)
      → are_clear w keys ≡ true
      → has_named_failures (fetch_sections w keys (some m)).1 ≡ true
      → (failures (fetch_sections w keys (some m)).1).0 ≡ 0
      → knows_all keys (fetch_sections w keys (some m)).1 ≡ true
  fetch_sections_complete w keys m c n f =
      account_for_all-knows_all keys (fetch_sections w keys (some m)).1
        (fetch_sections-accounts w keys (some m) refl c) n f
