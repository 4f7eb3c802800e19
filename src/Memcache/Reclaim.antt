-- ===== src/Memcache/Reclaim.antt =====
-- Which rows the memcache (helpers/kvcache/memcache/memcache.go) gives up, and in what order.
use gazetteer.Prelude.{
  ℕ, zero, suc, ◌+◌, ◌≤◌, Bool, true, false, some, List, [], ◌∷◌, ◌++◌, ◌≡◌, refl, ◌∙◌, ap, length,
  arith, ltb, count, length-append,
}
use mathlib.Core.List.{append-nil}
use gazetteer.Prelude.Names.{holds, length-drop}
use gazetteer.Prelude.Int.{ℤ, pos, negsuc, is_positive}
use gazetteer.Memcache.{
  Entry, Cache, remove, sweep, delete_expired, evict, make_room, set, back, stamped, has_room,
  is_expired,
}
use gazetteer.Memcache.Agree.{keys, Agree, remove-Agree, delete_expired-keeps}
use gazetteer.Memcache.Bound.{IsBounded, is_within, max-delete_expired, max-remove}
use gazetteer.Memcache.Recency.{live, sweep-live, held-middle, remove-middle}

-- DeleteExpired leaves exactly the rows that have not expired, in their order, and returns how
-- many it removed, where the map and the recency list agree.
pub delete_expired-live :
    (now : ℕ) (c : Cache)
    → Agree c
    → ((delete_expired now c).0.lru ≡ live now c.lru)
      × ((delete_expired now c).1 ≡ count (is_expired now) c.lru)
unfolding delete_expired
delete_expired-live now c h =
    let swept = sweep-live now [] c.lru c 0 refl h in (swept.0, omega (arith, swept.1))

length-live :
    (now : ℕ) (es : List Entry)
    → length (keys (live now es)) + count (is_expired now) es ≡ length (keys es)
length-live now [] = refl
length-live now (e ∷ es) = ground (arith, length-live now es)

live-all : (now : ℕ) (es : List Entry) → count (is_expired now) es ≡ 0 → live now es ≡ es
live-all now [] h = refl
live-all now (e ∷ es) h = ground (arith, h, live-all now es)

abbrev room : ℤ → ℕ → Bool
room max n = elim max [ pos k ↦ ltb n k | negsuc k ↦ false ]

room-less :
    (max : ℤ) (n k : ℕ)
    → is_positive max ≡ true
    → is_within max n ≡ true
    → suc k ≤ n
    → room max k ≡ true
room-less (pos zero) n k positive within less = ground (arith, positive)
room-less (pos (suc max)) n k positive within less = ground (arith, within, less)
room-less (negsuc max) n k positive within less = ground (arith, positive)

evict-room : (fuel : ℕ) (c : Cache) → has_room c ≡ true → evict fuel c ≡ c
unfolding evict
evict-room zero c h = refl
evict-room (suc fuel) c h = ground (arith, h)

-- The length of the map after the sweep.
length-swept :
    (now : ℕ) (c : Cache)
    → Agree c
    → length (delete_expired now c).0.m + count (is_expired now) c.lru ≡ length c.m
length-swept now c h =
    let swept = delete_expired-keeps Agree remove-Agree now c h in
    omega (
      arith,
      swept.3,
      ap (λ es. length (keys es)) (delete_expired-live now c h).0,
      length-live now c.lru,
      h.3,
    )

make_room-expired :
    (now : ℕ) (c : Cache)
    → Agree c
    → IsBounded c
    → is_positive c.max ≡ true
    → has_room c ≡ false
    → 1 ≤ count (is_expired now) c.lru
    → make_room now c ≡ (delete_expired now c).0
unfolding make_room
make_room-expired now c h bounded positive full some_expired =
    let swept = (delete_expired now c).0 in
    let less : suc (length swept.m) ≤ length c.m =
      omega (arith, length-swept now c h, some_expired) in
    let roomy : has_room swept ≡ true =
      ap (λ max. room max (length swept.m)) (max-delete_expired now c)
      ∙ room-less c.max (length c.m) (length swept.m) positive bounded less in
    ground (arith, positive, full, evict-room (length swept.lru) swept roomy)

-- A new key set in a full cache that has an expired row: every expired row goes, and no row that
-- has not expired does, where the cache has a positive ceiling.
pub set-expired_first :
    (now : ℕ) (e : Entry) (c : Cache)
    → Agree c
    → IsBounded c
    → is_positive c.max ≡ true
    → has_room c ≡ false
    → holds e.key c.m ≡ false
    → 1 ≤ count (is_expired now) c.lru
    → (set now e c).lru ≡ stamped now e ∷ live now c.lru
unfolding set
set-expired_first now e c h bounded positive full fresh some_expired =
    let made = make_room-expired now c h bounded positive full some_expired in
    ground (arith, fresh, ap (λ d. d.lru) made, (delete_expired-live now c h).0)

back-append : (es : List Entry) (e : Entry) → back (es ++ (e ∷ [])) ≡ some e
back-append [] e = refl
back-append (f ∷ []) e = refl
back-append (f ∷ g ∷ es) e = back-append (g ∷ es) e

length-remove_held :
    (e : Entry) (c : Cache)
    → Agree c
    → holds e.key c.m ≡ true
    → suc (length (remove e c).m) ≡ length c.m
unfolding remove
length-remove_held e c h held = ground (arith, held, length-drop e.key c.m h.0)

evict-back :
    (fuel : ℕ) (es : List Entry) (last : Entry) (c : Cache)
    → Agree c
    → IsBounded c
    → is_positive c.max ≡ true
    → has_room c ≡ false
    → c.lru ≡ es ++ (last ∷ [])
    → evict (suc fuel) c ≡ remove last c
unfolding evict
evict-back fuel es last c h bounded positive full rows =
    let held : holds last.key c.m ≡ true =
      h.2 last.key ∙ ap (λ xs. holds last.key (keys xs)) rows ∙ held-middle es [] last in
    let roomy : has_room (remove last c) ≡ true =
      ap (λ max. room max (length (remove last c).m)) (max-remove last c)
      ∙ room-less c.max (length c.m) (length (remove last c).m) positive bounded
          (omega (arith, length-remove_held last c h held)) in
    ground (arith, full, ap back rows ∙ back-append es last, evict-room fuel (remove last c) roomy)

sweep-none :
    (now : ℕ) (es : List Entry) (c : Cache) (n : ℕ)
    → count (is_expired now) es ≡ 0
    → (sweep now es c n).0 ≡ c
unfolding sweep
sweep-none now [] c n h = refl
sweep-none now (e ∷ es) c n h = ground (arith, h, sweep-none now es c n)

delete_expired-none :
    (now : ℕ) (c : Cache) → count (is_expired now) c.lru ≡ 0 → (delete_expired now c).0 ≡ c
unfolding delete_expired
delete_expired-none now c h = sweep-none now c.lru c 0 h

make_room-live :
    (now : ℕ) (es : List Entry) (last : Entry) (c : Cache)
    → Agree c
    → IsBounded c
    → is_positive c.max ≡ true
    → has_room c ≡ false
    → count (is_expired now) c.lru ≡ 0
    → c.lru ≡ es ++ (last ∷ [])
    → make_room now c ≡ remove last c
unfolding make_room
make_room-live now es last c h bounded positive full none_expired rows =
    let fuel : length c.lru ≡ suc (length es) =
      ap length rows ∙ omega (arith, length-append es (last ∷ [])) in
    let evicted : evict (length c.lru) c ≡ remove last c =
      ap (λ n. evict n c) fuel ∙ evict-back (length es) es last c h bounded positive full rows in
    ground (
      arith,
      positive,
      full,
      ap (λ d. evict (length d.lru) d) (delete_expired-none now c none_expired),
      evicted,
    )

-- A new key set in a full cache where no row has expired: the least recently used row goes and
-- no other, where the cache has a positive ceiling.
pub set-evicts :
    (now : ℕ) (e : Entry) (es : List Entry) (last : Entry) (c : Cache)
    → Agree c
    → IsBounded c
    → is_positive c.max ≡ true
    → has_room c ≡ false
    → holds e.key c.m ≡ false
    → count (is_expired now) c.lru ≡ 0
    → c.lru ≡ es ++ (last ∷ [])
    → (set now e c).lru ≡ stamped now e ∷ es
unfolding set
set-evicts now e es last c h bounded positive full fresh none_expired rows =
    let made = make_room-live now es last c h bounded positive full none_expired rows in
    let left : (remove last c).lru ≡ es = remove-middle es [] last c rows h ∙ append-nil es in
    ground (arith, fresh, ap (λ d. d.lru) made, left)
