-- ===== src/Memcache/Recency.antt =====
-- What Set and Get of the memcache (helpers/kvcache/memcache/memcache.go) do to the rows.
use gazetteer.Prelude.{
  ℕ, ◌+◌, String, true, false, none, some, List, [], ◌∷◌, ◌≡◌, refl, ◌∙◌, sym, ap, arith,
  if◌then◌else◌, str_eq, eq_iff, count, ◌++◌, Bool-cases, inl, inr,
}
use gazetteer.Prelude.Names.{holds, are_distinct}
use gazetteer.Memcache.{Entry, Cache, remove, sweep, set, get, row, drop_row, stamped, is_expired}
use gazetteer.Memcache.Agree.{keys, Agree, remove-Agree, key-stamped}

-- What Get returns right after Set is the row that was set, expired or not, with FetchedAt filled
-- in.
pub get-set : (now : ℕ) (e : Entry) (c : Cache) → (get e.key (set now e c)).0 ≡ some (stamped now e)
unfolding get set row
get-set now e c =
    ground (arith, key-stamped now e, eq_iff e.key e.key, eq_iff e.key (stamped now e).key)

row-drop_row :
    (k n : String) (es : List Entry)
    → row n (drop_row k es) ≡ (if str_eq k n then none else row n es)
unfolding row drop_row
row-drop_row k n [] = ground arith
row-drop_row k n (e ∷ es) =
    ground (arith, row-drop_row k n es, eq_iff k n, eq_iff n e.key, eq_iff k e.key)

-- Set of a key that is there evicts nothing: every other row stays as it was, even in a full
-- cache with expired rows.
pub set-overwrites :
    (now : ℕ) (e : Entry) (c : Cache) (n : String)
    → holds e.key c.m ≡ true
    → str_eq e.key n ≡ false
    → row n (set now e c).lru ≡ row n c.lru
unfolding set row
set-overwrites now e c n found apart = ground (
  arith,
  found,
  apart,
  key-stamped now e,
  row-drop_row (stamped now e).key n c.lru,
  eq_iff n (stamped now e).key,
  eq_iff e.key n,
)

-- The rows that have not expired.
abbrev pub live : ℕ → List Entry → List Entry
live now [] = []
live now (e ∷ es) = if is_expired now e then live now es else e ∷ live now es

pub held-middle : (es fs : List Entry) (e : Entry) → holds e.key (keys (es ++ (e ∷ fs))) ≡ true
held-middle [] fs e = ground (arith, eq_iff e.key e.key)
held-middle (f ∷ es) fs e = ground (arith, held-middle es fs e)

drop_row-absent : (k : String) (es : List Entry) → holds k (keys es) ≡ false → drop_row k es ≡ es
unfolding drop_row
drop_row-absent k [] h = refl
drop_row-absent k (e ∷ es) h = ground (arith, h, drop_row-absent k es)

drop_row-middle :
    (es fs : List Entry) (e : Entry)
    → are_distinct (keys (es ++ (e ∷ fs))) ≡ true
    → drop_row e.key (es ++ (e ∷ fs)) ≡ es ++ fs
unfolding drop_row
drop_row-middle [] fs e h = ground (arith, h, eq_iff e.key e.key, drop_row-absent e.key fs)
drop_row-middle (f ∷ es) fs e h =
    ground (arith, h, held-middle es fs e, eq_iff e.key f.key, drop_row-middle es fs e)

append-one : (es fs : List Entry) (e : Entry) → es ++ (e ∷ fs) ≡ (es ++ (e ∷ [])) ++ fs
append-one [] fs e = refl
append-one (f ∷ es) fs e = ap (λ rest. f ∷ rest) (append-one es fs e)

pub remove-middle :
    (es fs : List Entry) (e : Entry) (c : Cache)
    → c.lru ≡ es ++ (e ∷ fs)
    → Agree c
    → (remove e c).lru ≡ es ++ fs
unfolding remove
remove-middle es fs e c rows h =
    ap (drop_row e.key) rows
    ∙ drop_row-middle es fs e (ap (λ xs. are_distinct (keys xs)) (sym rows) ∙ h.1)

-- The loop of deleteExpired, with the rows that it has passed and kept before those left.
pub sweep-live :
    (now : ℕ) (kept es : List Entry) (c : Cache) (n : ℕ)
    → c.lru ≡ kept ++ es
    → Agree c
    → ((sweep now es c n).0.lru ≡ kept ++ live now es)
      × ((sweep now es c n).1 ≡ n + count (is_expired now) es)
unfolding sweep
sweep-live now kept [] c n rows h = (rows, omega arith)
sweep-live now kept (e ∷ es) c n rows h = elim (Bool-cases (is_expired now e)) [
  | inl expired ↦
      let next =
        sweep-live now kept es (remove e c) (n + 1) (remove-middle kept es e c rows h)
          (remove-Agree e c h) in
      ground (arith, expired, next.0, next.1)
  | inr fresh ↦
      let next = sweep-live now (kept ++ (e ∷ [])) es c n (rows ∙ append-one kept es e) h in
      ground (arith, fresh, next.0, next.1, append-one kept (live now es) e)
]
