-- ===== src/Memcache.antt =====
-- helpers/kvcache/memcache/memcache.go, and Entry, Set and WithTTL of helpers/kvcache/kvcache.go.
-- The mutex makes every method one step, which reads the clock once. A *list.Element is addressed
-- by the key of its row: the map is the list of its keys, and the recency list holds the rows, the
-- most recent first.
pub mod Agree
pub mod Bound
pub mod Recency
pub mod Reclaim
use gazetteer.Prelude.{
  ℕ, zero, suc, ◌+◌, String, Bool, true, false, ◌||◌, not, Option, none, some, List, [], ◌∷◌,
  length, str_eq, ltb, leb, if◌then◌else◌,
}
use gazetteer.Prelude.Names.{holds, drop}
use gazetteer.Prelude.Int.{ℤ, pos, negsuc, is_positive}

-- The zero time is `none`, and so is the nil ExpiresAt.
pub record Entry : Type 0 where
  pub key : String
  pub value : List ℕ
  pub fetched_at : Option ℕ
  pub expires_at : Option ℕ

pub record Cache : Type 0 where
  pub m : List String
  pub lru : List Entry
  pub max : ℤ

abbrev pub default_max_entries : ℤ
default_max_entries = pos 10000

-- New with the option WithMaxEntries, or without it.
unfoldable pub new : Option ℤ → Cache
new none = record { m = []; lru = []; max = default_max_entries }
new (some n) = record { m = []; lru = []; max = n }

unfoldable pub drop_row : String → List Entry → List Entry
drop_row k [] = []
drop_row k (e ∷ es) = let rest = drop_row k es in if str_eq k e.key then rest else e ∷ rest

unfoldable pub row : String → List Entry → Option Entry
row k [] = none
row k (e ∷ es) = if str_eq k e.key then some e else row k es

-- lru.Back()
abbrev pub back : List Entry → Option Entry
back [] = none
back (e ∷ []) = some e
back (e ∷ f ∷ es) = back (f ∷ es)

-- The method remove.
unfoldable pub remove : Entry → Cache → Cache
unfolding drop drop_row
remove e c = record { m = drop e.key c.m; lru = drop_row e.key c.lru; max = c.max }

-- The row expired at or before `now`.
abbrev pub is_expired : ℕ → Entry → Bool
is_expired now e = elim e.expires_at [ none ↦ false | some t ↦ leb t now ]

-- The loop of deleteExpired over the rows that are left to look at, with the rows removed so far.
unfoldable pub sweep : ℕ → List Entry → Cache → ℕ → Cache × ℕ
unfolding remove
sweep now [] c n = (c, n)
sweep now (e ∷ es) c n =
    let gone = sweep now es (remove e c) (n + 1) in
    let kept = sweep now es c n in if is_expired now e then gone else kept

unfoldable pub delete_expired : ℕ → Cache → Cache × ℕ
unfolding sweep
delete_expired now c = sweep now c.lru c 0

-- Is `len(c.m) < c.max`?
abbrev pub has_room : Cache → Bool
has_room c = elim c.max [ pos n ↦ ltb (length c.m) n | negsuc n ↦ false ]

-- The loop of makeRoom, on fuel.
unfoldable pub evict : ℕ → Cache → Cache
unfolding remove
evict zero c = c
evict (suc fuel) c =
    if has_room c then c else elim (back c.lru) [ none ↦ c | some e ↦ evict fuel (remove e c) ]

unfoldable pub make_room : ℕ → Cache → Cache
unfolding delete_expired evict
make_room now c =
    if not (is_positive c.max) || has_room c
    then c
    else (let swept = (delete_expired now c).0 in evict (length swept.lru) swept)

abbrev pub to_front : Entry → Cache → Cache
to_front e c = record { m = c.m; lru = e ∷ drop_row e.key c.lru; max = c.max }

-- The method Get; `none` is ErrNotFound.
unfoldable pub get : String → Cache → Option Entry × Cache
unfolding drop_row row
get k c =
    if holds k c.m
    then elim (row k c.lru) [ none ↦ (none, c) | some e ↦ (some e, to_front e c) ]
    else (none, c)

abbrev pub stamped : ℕ → Entry → Entry
stamped now e = elim e.fetched_at [ none ↦ record e { fetched_at = some now } | some t ↦ e ]

-- The new row of a key that the map does not hold.
abbrev pub push : Entry → Cache → Cache
push e c = record { m = e.key ∷ c.m; lru = e ∷ c.lru; max = c.max }

-- The method Set at a time.
unfoldable pub set : ℕ → Entry → Cache → Cache
unfolding make_room drop_row
set now e c =
    let s = stamped now e in if holds e.key c.m then to_front s c else push s (make_room now c)

-- kvcache.Set with WithTTL: the row it gives to the backend. No option sets fetchedAt.
unfoldable pub ttl_entry : String → List ℕ → ℤ → ℕ → Entry
ttl_entry k v ttl now = record {
  key = k;
  value = v;
  fetched_at = none;
  expires_at = elim ttl [ pos zero ↦ none | pos (suc n) ↦ some (now + suc n) | negsuc n ↦ none ];
}
