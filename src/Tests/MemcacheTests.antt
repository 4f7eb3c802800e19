-- ===== src/Tests/MemcacheTests.antt =====
-- The memcache at concrete inputs.
use gazetteer.Prelude.{ℕ, String, Option, none, some, List, [], ◌∷◌, ◌≡◌, refl, count, arith}
use gazetteer.Prelude.Int.{pos}
use gazetteer.Memcache.{Entry, Cache, new, set, get, row, delete_expired, is_expired}
use gazetteer.Memcache.Agree.{Agree}
use gazetteer.Memcache.Bound.{IsBounded, Request, read, write, serve, serve-IsBounded}
use gazetteer.Memcache.Recency.{get-set, set-overwrites, live}
use gazetteer.Memcache.Reclaim.{delete_expired-live, set-expired_first, set-evicts}

abbrev entry : String → Option ℕ → Entry
entry k expires = record { key = k; value = []; fetched_at = some 1; expires_at = expires }

abbrev requests : List Request
requests = write 1 (entry "a" none) ∷ write 2 (entry "b" (some 5)) ∷ read "a" ∷ []

abbrev full : Cache
full = record { m = "b" ∷ "a" ∷ []; lru = entry "a" none ∷ entry "b" (some 5) ∷ []; max = pos 2 }

test_full : serve requests (new (some (pos 2))) ≡ full
unfolding new get set
test_full = refl

serve-IsBounded_example :
    Agree (serve requests (new (some (pos 2)))) × IsBounded (serve requests (new (some (pos 2))))
serve-IsBounded_example = serve-IsBounded requests (some (pos 2))

full-Agree : Agree full × IsBounded full
unfolding new get set
full-Agree = serve-IsBounded requests (some (pos 2))

get-set_test : (get "c" (set 9 (entry "c" (some 3)) full)).0 ≡ some (entry "c" (some 3))
get-set_test = get-set 9 (entry "c" (some 3)) full

set-overwrites_test : row "a" (set 9 (entry "b" none) full).lru ≡ row "a" full.lru
set-overwrites_test = set-overwrites 9 (entry "b" none) full "a" refl refl

delete_expired-live_test :
    ((delete_expired 5 full).0.lru ≡ live 5 full.lru)
    × ((delete_expired 5 full).1 ≡ count (is_expired 5) full.lru)
delete_expired-live_test = delete_expired-live 5 full full-Agree.0

set-expired_first_test : (set 5 (entry "c" none) full).lru ≡ entry "c" none ∷ entry "a" none ∷ []
set-expired_first_test =
    set-expired_first 5 (entry "c" none) full full-Agree.0 full-Agree.1 refl refl refl (omega arith)

set-evicts_test : (set 4 (entry "c" none) full).lru ≡ entry "c" none ∷ entry "a" none ∷ []
set-evicts_test =
    set-evicts 4 (entry "c" none) (entry "a" none ∷ []) (entry "b" (some 5)) full full-Agree.0
      full-Agree.1 refl refl refl refl refl
