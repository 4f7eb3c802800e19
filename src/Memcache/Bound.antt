-- ===== src/Memcache/Bound.antt =====
-- The entry ceiling of the memcache (helpers/kvcache/memcache/memcache.go).
use gazetteer.Prelude.{
  ℕ, zero, suc, ◌≤◌, String, Bool, true, false, ◌||◌, not, Option, none, some, List, [], ◌∷◌, ◌≡◌,
  refl, ◌∙◌, sym, ap, subst, length, arith, eq_iff, if-cases, Option-elim, ltb, leb,
}
use gazetteer.Prelude.Names.{holds, length-drop}
use gazetteer.Prelude.Int.{ℤ, pos, negsuc, is_positive}
use gazetteer.Memcache.{
  Entry, Cache, remove, delete_expired, evict, make_room, set, get, back, row, to_front, push,
  stamped, has_room, new,
}
use gazetteer.Memcache.Agree.{
  keys, Agree, keys-drop_row, remove-Agree, delete_expired-keeps, make_room-keeps, set-Agree,
  get-Agree, new-Agree,
}

pub length-keys : (es : List Entry) → length (keys es) ≡ length es
length-keys [] = refl
length-keys (e ∷ es) = ap suc (length-keys es)

back-held : (es : List Entry) (e : Entry) → back es ≡ some e → holds e.key (keys es) ≡ true
back-held [] e h = ground (arith, h)
back-held (f ∷ []) e h = ground (arith, h, eq_iff e.key f.key)
back-held (f ∷ g ∷ es) e h = ground (arith, back-held (g ∷ es) e h)

back-empty : (es : List Entry) → back es ≡ none → length (keys es) ≡ 0
back-empty [] h = refl
back-empty (f ∷ []) h = ground (arith, h)
back-empty (f ∷ g ∷ es) h = ground (arith, h, back-empty (g ∷ es) h)

empty-has_room : (c : Cache) → is_positive c.max ≡ true → length c.m ≡ 0 → has_room c ≡ true
empty-has_room c bounded h = ground (arith, bounded, h)

remove-shorter :
    (e : Entry) (c : Cache) (fuel : ℕ)
    → Agree c
    → back c.lru ≡ some e
    → length (keys c.lru) ≤ suc fuel
    → length (keys (remove e c).lru) ≤ fuel
unfolding remove
remove-shorter e c fuel h last enough = ground (
  arith,
  enough,
  ap length (keys-drop_row e.key c.lru),
  length-drop e.key (keys c.lru) h.1,
  back-held c.lru e last,
)

pub max-remove : (e : Entry) (c : Cache) → (remove e c).max ≡ c.max
unfolding remove
max-remove e c = refl

-- Fuel for the rows is enough for the loop of makeRoom to end.
evict-has_room :
    (fuel : ℕ) (c : Cache)
    → is_positive c.max ≡ true
    → Agree c
    → length (keys c.lru) ≤ fuel
    → has_room (evict fuel c) ≡ true
unfolding evict
evict-has_room zero c bounded h enough = empty-has_room c bounded (omega (arith, h.3, enough))
evict-has_room (suc fuel) c bounded h enough =
    if-cases (λ d. has_room d ≡ true) (has_room c) c
      (elim (back c.lru) [ none ↦ c | some e ↦ evict fuel (remove e c) ]) (λ room. room)
      (λ _.
        Option-elim (λ d. has_room d ≡ true) (back c.lru) c (λ e. evict fuel (remove e c))
          (λ empty. empty-has_room c bounded (h.3 ∙ back-empty c.lru empty))
          (λ e last.
            evict-has_room fuel (remove e c) (ap is_positive (max-remove e c) ∙ bounded)
              (remove-Agree e c h) (remove-shorter e c fuel h last enough)))

max-make_room : (now : ℕ) (c : Cache) → (make_room now c).max ≡ c.max
max-make_room now c = make_room-keeps (λ d. d.max ≡ c.max) (λ e d h. max-remove e d ∙ h) now c refl

pub max-delete_expired : (now : ℕ) (c : Cache) → (delete_expired now c).0.max ≡ c.max
max-delete_expired now c =
    delete_expired-keeps (λ d. d.max ≡ c.max) (λ e d h. max-remove e d ∙ h) now c refl

pub make_room-has_room :
    (now : ℕ) (c : Cache) → is_positive c.max ≡ true → Agree c → has_room (make_room now c) ≡ true
unfolding make_room
make_room-has_room now c bounded h =
    let swept = (delete_expired now c).0 in
    if-cases (λ d. has_room d ≡ true) (not (is_positive c.max) || has_room c) c
      (evict (length swept.lru) swept) (λ room. ground (arith, room, bounded))
      (λ _.
        evict-has_room (length swept.lru) swept
          (ap is_positive (max-delete_expired now c) ∙ bounded)
          (delete_expired-keeps Agree remove-Agree now c h) (omega (arith, length-keys swept.lru)))

-- Without a ceiling anything goes.
abbrev pub is_within : ℤ → ℕ → Bool
is_within (pos zero) n = true
is_within (pos (suc max)) n = leb n (suc max)
is_within (negsuc max) n = true

-- The rows are no more than the ceiling.
abbrev pub IsBounded : Cache → Type 0
IsBounded c = is_within c.max (length c.m) ≡ true

within-suc :
    (max : ℤ) (n : ℕ)
    → (is_positive max ≡ true → elim max [ pos k ↦ ltb n k | negsuc k ↦ false ] ≡ true)
    → is_within max (suc n) ≡ true
within-suc (pos zero) n h = refl
within-suc (pos (suc k)) n h = ground (arith, h (ground arith))
within-suc (negsuc k) n h = refl

within-less : (max : ℤ) (n k : ℕ) → k ≤ n → is_within max n ≡ true → is_within max k ≡ true
within-less (pos zero) n k le h = refl
within-less (pos (suc max)) n k le h = ground (arith, le, h)
within-less (negsuc max) n k le h = refl

new-IsBounded : (o : Option ℤ) → IsBounded (new o)
unfolding new
new-IsBounded none = refl
new-IsBounded (some (pos zero)) = refl
new-IsBounded (some (pos (suc n))) = ground arith
new-IsBounded (some (negsuc n)) = refl

set-IsBounded : (now : ℕ) (e : Entry) (c : Cache) → Agree c → IsBounded c → IsBounded (set now e c)
unfolding set
set-IsBounded now e c h bounded =
    let s = stamped now e in
    let made = make_room now c in
    let max = max-make_room now c in
    if-cases IsBounded (holds e.key c.m) (to_front s c) (push s made) (λ _. bounded)
      (λ _.
        within-suc made.max (length made.m)
          (λ positive. make_room-has_room now c (ap is_positive (sym max) ∙ positive) h))

get-IsBounded : (k : String) (c : Cache) → IsBounded c → IsBounded (get k c).1
unfolding get
get-IsBounded k c h =
    if-cases (λ (r : Option Entry × Cache). IsBounded r.1) (holds k c.m)
      (elim (row k c.lru) [ none ↦ (none, c) | some e ↦ (some e, to_front e c) ]) (none, c)
      (λ _.
        Option-elim (λ (r : Option Entry × Cache). IsBounded r.1) (row k c.lru) (none, c)
          (λ e. (some e, to_front e c)) (λ _. h) (λ e _. h))
      (λ _. h)

length-remove : (e : Entry) (c : Cache) → Agree c → length (remove e c).m ≤ length c.m
unfolding remove
length-remove e c h = ground (arith, length-drop e.key c.m h.0)

delete_expired-IsBounded :
    (now : ℕ) (c : Cache) → Agree c → IsBounded c → IsBounded (delete_expired now c).0
delete_expired-IsBounded now c h bounded =
    let less =
      delete_expired-keeps (λ d. Agree d × (length d.m ≤ length c.m))
        (λ e d kept. (remove-Agree e d kept.0, omega (arith, kept.1, length-remove e d kept.0))) now
        c (h, omega arith) in
    subst (λ max. is_within max (length (delete_expired now c).0.m) ≡ true)
      (sym (max-delete_expired now c))
      (within-less c.max (length c.m) (length (delete_expired now c).0.m) less.1 bounded)

-- A call of one of the three methods.
pub data Request : Type 0 where
  read : String → Request
  write : ℕ → Entry → Request
  expire : ℕ → Request

abbrev pub served : Request → Cache → Cache
served (read k) c = (get k c).1
served (write now e) c = set now e c
served (expire now) c = (delete_expired now c).0

abbrev pub serve : List Request → Cache → Cache
serve [] c = c
serve (r ∷ rs) c = serve rs (served r c)

served-keeps :
    (r : Request) (c : Cache) → Agree c × IsBounded c → Agree (served r c) × IsBounded (served r c)
served-keeps (read k) c h = (get-Agree k c h.0, get-IsBounded k c h.1)
served-keeps (write now e) c h = (set-Agree now e c h.0, set-IsBounded now e c h.0 h.1)
served-keeps (expire now) c h =
    (delete_expired-keeps Agree remove-Agree now c h.0, delete_expired-IsBounded now c h.0 h.1)

serve-keeps :
    (rs : List Request) (c : Cache)
    → Agree c × IsBounded c
    → Agree (serve rs c) × IsBounded (serve rs c)
serve-keeps [] c h = h
serve-keeps (r ∷ rs) c h = serve-keeps rs (served r c) (served-keeps r c h)

-- After any calls of Get, Set and DeleteExpired on a new cache, the map and the recency list hold
-- the same keys, each once, and with a positive ceiling there are no more rows than it.
pub serve-IsBounded :
    (rs : List Request) (o : Option ℤ) → Agree (serve rs (new o)) × IsBounded (serve rs (new o))
serve-IsBounded rs o = serve-keeps rs (new o) (new-Agree o, new-IsBounded o)
