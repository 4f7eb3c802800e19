-- ===== src/Memcache/Agree.antt =====
-- The map and the recency list of the memcache (helpers/kvcache/memcache/memcache.go) hold the
-- same rows.
use gazetteer.Prelude.{
  ℕ, zero, suc, ◌+◌, String, true, false, ◌||◌, not, Option, none, some, List, [], ◌∷◌, ◌≡◌, refl,
  ◌∙◌, sym, ap, length, arith, eq_iff, if-cases, Option-elim,
}
use gazetteer.Prelude.Names.{holds, are_distinct, drop, holds-drop, are_distinct-drop, length-drop}
use gazetteer.Prelude.Int.{ℤ, is_positive}
use gazetteer.Memcache.{
  Entry, Cache, remove, sweep, delete_expired, evict, make_room, set, get, back, row, drop_row,
  to_front, push, stamped, is_expired, has_room, new,
}

abbrev pub keys : List Entry → List String
keys [] = []
keys (e ∷ es) = e.key ∷ keys es

-- A key is at most once in the map and in the list, and in both or in none.
abbrev pub Agree : Cache → Type 0
Agree c =
    (are_distinct c.m ≡ true)
    × (are_distinct (keys c.lru) ≡ true)
    × ((k : String) → holds k c.m ≡ holds k (keys c.lru))
    × (length c.m ≡ length (keys c.lru))

pub keys-drop_row : (k : String) (es : List Entry) → keys (drop_row k es) ≡ drop k (keys es)
unfolding drop_row drop
keys-drop_row k [] = refl
keys-drop_row k (e ∷ es) = ground (arith, keys-drop_row k es)

agree :
    (m ks : List String) (k : String)
    → are_distinct m ≡ true
    → are_distinct ks ≡ true
    → holds k m ≡ holds k ks
    → length m ≡ length ks
    → length (drop k m) ≡ length (drop k ks)
agree m ks k dm dk same len = ground (arith, same, len, length-drop k m dm, length-drop k ks dk)

pub remove-Agree : (e : Entry) (c : Cache) → Agree c → Agree (remove e c)
unfolding remove
remove-Agree e c h =
    let dropped = keys-drop_row e.key c.lru in
    (
      are_distinct-drop e.key c.m h.0,
      ap are_distinct dropped ∙ are_distinct-drop e.key (keys c.lru) h.1,
      λ k. ground (
        arith,
        h.2 k,
        holds-drop k e.key c.m,
        ap (holds k) dropped,
        holds-drop k e.key (keys c.lru),
      ),
      agree c.m (keys c.lru) e.key h.0 h.1 (h.2 e.key) h.3 ∙ sym (ap length dropped),
    )

-- What remove keeps, the whole of makeRoom keeps.
module _ {ℓ} (P : Cache → Type ℓ) (kept : (e : Entry) (c : Cache) → P c → P (remove e c)) where
  sweep-keeps : (now : ℕ) (es : List Entry) (c : Cache) (n : ℕ) → P c → P (sweep now es c n).0
  unfolding sweep
  sweep-keeps now [] c n h = h
  sweep-keeps now (e ∷ es) c n h =
      if-cases (λ r. P r.0) (is_expired now e) (sweep now es (remove e c) (n + 1))
        (sweep now es c n) (λ _. sweep-keeps now es (remove e c) (n + 1) (kept e c h))
        (λ _. sweep-keeps now es c n h)

  pub delete_expired-keeps : (now : ℕ) (c : Cache) → P c → P (delete_expired now c).0
  unfolding delete_expired
  delete_expired-keeps now c h = sweep-keeps now c.lru c 0 h

  pub evict-keeps : (fuel : ℕ) (c : Cache) → P c → P (evict fuel c)
  unfolding evict
  evict-keeps zero c h = h
  evict-keeps (suc fuel) c h =
      if-cases P (has_room c) c (elim (back c.lru) [ none ↦ c | some e ↦ evict fuel (remove e c) ])
        (λ _. h)
        (λ _.
          Option-elim P (back c.lru) c (λ e. evict fuel (remove e c)) (λ _. h)
            (λ e _. evict-keeps fuel (remove e c) (kept e c h)))

  pub make_room-keeps : (now : ℕ) (c : Cache) → P c → P (make_room now c)
  unfolding make_room
  make_room-keeps now c h =
      let swept = (delete_expired now c).0 in
      if-cases P (not (is_positive c.max) || has_room c) c (evict (length swept.lru) swept) (λ _. h)
        (λ _. evict-keeps (length swept.lru) swept (delete_expired-keeps now c h))

stays_absent :
    (k : String) (e : Entry) (c : Cache) → holds k c.m ≡ false → holds k (remove e c).m ≡ false
unfolding remove
stays_absent k e c h = ground (arith, h, holds-drop k e.key c.m)

pub absent-make_room :
    (now : ℕ) (k : String) (c : Cache) → holds k c.m ≡ false → holds k (make_room now c).m ≡ false
absent-make_room now k c h = make_room-keeps (λ d. holds k d.m ≡ false) (stays_absent k) now c h

to_front-Agree : (e : Entry) (c : Cache) → holds e.key c.m ≡ true → Agree c → Agree (to_front e c)
to_front-Agree e c found h =
    let dropped = keys-drop_row e.key c.lru in
    (
      h.0,
      ground (
        arith,
        ap are_distinct dropped,
        are_distinct-drop e.key (keys c.lru) h.1,
        ap (holds e.key) dropped,
        holds-drop e.key e.key (keys c.lru),
        eq_iff e.key e.key,
      ),
      λ k. ground (
        arith,
        h.2 k,
        h.2 e.key,
        found,
        ap (holds k) dropped,
        holds-drop k e.key (keys c.lru),
        eq_iff k e.key,
        eq_iff e.key k,
      ),
      ground (arith, h.3, h.2 e.key, found, length-drop e.key (keys c.lru) h.1, ap length dropped),
    )

push-Agree : (e : Entry) (c : Cache) → holds e.key c.m ≡ false → Agree c → Agree (push e c)
push-Agree e c fresh h = (
  ground (arith, h.0, fresh),
  ground (arith, h.1, h.2 e.key, fresh),
  λ k. ground (arith, h.2 k),
  ground (arith, h.3),
)

pub key-stamped : (now : ℕ) (e : Entry) → (stamped now e).key ≡ e.key
key-stamped now e = ground arith

row-held : (k : String) (es : List Entry) (e : Entry) → row k es ≡ some e → e.key ≡ k
unfolding row
row-held k [] e h = ground (arith, h)
row-held k (f ∷ es) e h = ground (arith, h, row-held k es e, eq_iff k f.key)

pub new-Agree : (o : Option ℤ) → Agree (new o)
unfolding new
new-Agree none = (refl, refl, λ k. refl, refl)
new-Agree (some n) = (refl, refl, λ k. refl, refl)

pub set-Agree : (now : ℕ) (e : Entry) (c : Cache) → Agree c → Agree (set now e c)
unfolding set
set-Agree now e c h =
    let s = stamped now e in
    let same = key-stamped now e in
    if-cases Agree (holds e.key c.m) (to_front s c) (push s (make_room now c))
      (λ found. to_front-Agree s c (ap (λ k. holds k c.m) same ∙ found) h)
      (λ fresh.
        push-Agree s (make_room now c)
          (ap (λ k. holds k (make_room now c).m) same ∙ absent-make_room now e.key c fresh)
          (make_room-keeps Agree remove-Agree now c h))

pub get-Agree : (k : String) (c : Cache) → Agree c → Agree (get k c).1
unfolding get
get-Agree k c h =
    if-cases (λ (r : Option Entry × Cache). Agree r.1) (holds k c.m)
      (elim (row k c.lru) [ none ↦ (none, c) | some e ↦ (some e, to_front e c) ]) (none, c)
      (λ found.
        Option-elim (λ (r : Option Entry × Cache). Agree r.1) (row k c.lru) (none, c)
          (λ e. (some e, to_front e c)) (λ _. h)
          (λ e at_row.
            to_front-Agree e c (ap (λ n. holds n c.m) (row-held k c.lru e at_row) ∙ found) h))
      (λ _. h)
