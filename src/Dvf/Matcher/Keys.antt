-- ===== src/Dvf/Matcher/Keys.antt =====
-- sources/dvf/matcher.go: lemmas on the keys of sales and on tests.
use gazetteer.Prelude.{
  ℕ, ◌≤◌, Bool, true, false, ◌&&◌, ◌||◌, not, List, [], ◌∷◌, ◌≡◌, refl, arith, subst, sym, ◌∙◌,
}
use gazetteer.Prelude.Bytes.{bytes_eq, bytes_eq_refl, bytes_eq→≡}
use gazetteer.Dvf.Matcher.{Key, count_sale, has_key}

bytes_eq_symm : (a b : List ℕ) → bytes_eq a b ≡ bytes_eq b a
unfolding bytes_eq
bytes_eq_symm [] [] = refl
bytes_eq_symm [] (y ∷ b) = refl
bytes_eq_symm (x ∷ a) [] = refl
bytes_eq_symm (x ∷ a) (y ∷ b) = ground (arith, bytes_eq_symm a b)

bytes_eq_join : (a b c : List ℕ) → bytes_eq a c ≡ true → bytes_eq b c ≡ true → bytes_eq a b ≡ true
bytes_eq_join a b c h k =
    subst (λ x. bytes_eq a x ≡ true) (bytes_eq→≡ a c h ∙ sym (bytes_eq→≡ b c k)) (bytes_eq_refl a)

count_sale-has_key : (s a : List ℕ) (ks : List Key) → has_key (s, a) ks ≡ true → 1 ≤ count_sale s ks
unfolding has_key count_sale
count_sale-has_key s a [] h = ground (arith, h)
count_sale-has_key s a (l ∷ ls) h =
    ground (arith, h, count_sale-has_key s a ls, bytes_eq_symm l.0 s)

-- Of a sale that has one key at most two keys are the same.
pub one_key :
    (s a b : List ℕ) (ks : List Key)
    → count_sale s ks ≤ 1
    → has_key (s, a) ks ≡ true
    → has_key (s, b) ks ≡ true
    → bytes_eq a b ≡ true
unfolding has_key count_sale
one_key s a b [] c h k = ground (arith, h)
one_key s a b (l ∷ ls) c h k = ground (
  arith,
  c,
  h,
  k,
  one_key s a b ls,
  count_sale-has_key s a ls,
  count_sale-has_key s b ls,
  bytes_eq_symm l.0 s,
  bytes_eq_join a b l.1,
)

pub has_key-cons : (k l : Key) (ks : List Key) → has_key k ks ≡ true → has_key k (l ∷ ks) ≡ true
unfolding has_key
has_key-cons k l ks h = ground (arith, h)

pub has_key-own : (k : Key) (ks : List Key) → has_key k (k ∷ ks) ≡ true
unfolding has_key
has_key-own k ks = ground (arith, bytes_eq_refl k.0, bytes_eq_refl k.1)

pub elim-cases {ℓ κ} :
    {A : Type ℓ} (P : A → Type κ) (b : Bool) (x y : A)
    → (b ≡ true → P x)
    → (b ≡ Bool.false → P y)
    → P (elim b [ true ↦ x | false ↦ y ])
elim-cases P true x y then_ else_ = then_ refl
elim-cases P Bool.false x y then_ else_ = else_ refl

pub both : (b c : Bool) → b ≡ true → c ≡ true → b && c ≡ true
both b c h k = ground (arith, h, k)

pub implies_or : (c h : Bool) → (c ≡ true → h ≡ true) → not c || h ≡ true
implies_or true h f = f refl
implies_or Bool.false h f = refl

pub from_or : (c h : Bool) → not c || h ≡ true → c ≡ true → h ≡ true
from_or c h f k = ground (arith, f, k)
