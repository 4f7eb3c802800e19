-- ===== src/Httpx/Cache/Expiry.antt =====
-- helpers/httpx/cache.go: computeExpiry in the range of time.Duration.
use gazetteer.Prelude.{ℕ, ◌+◌, ◌*◌, ◌/◌, Bool, true, some, ◌≡◌, ap, arith, ltb}
use gazetteer.Prelude.Int.{pos}
use gazetteer.Prelude.Int64.{wrap64}
use gazetteer.Httpx.Cache.{Header, compute_expiry, directive, expiry_of_age, has_directive, second}

wrap64-seconds : (n : ℕ) → ltb n 9223372037 ≡ true → wrap64 (n * second) ≡ pos (n * second)
wrap64-seconds n h = ground (arith, h)

expiry_of_age-exact :
    (h : Header) (now n ttl : ℕ)
    → ltb n 9223372037 ≡ true
    → expiry_of_age (some (some (pos n))) h now ttl ≡ pos (now / second + n)
expiry_of_age-exact h now n ttl l = rw (wrap64-seconds n l) (ap pos (omega arith))

-- A max-age that a time.Duration can hold, 9,223,372,036 seconds or less, expires exactly that
-- many seconds after the present second, whatever Expires says and whatever the default lifetime
-- is, unless the answer says no-cache or no-store.
pub compute_expiry-exact :
    (h : Header) (now n ttl : ℕ)
    → directive "max-age" h.directives ≡ some (some (pos n))
    → has_directive "no-cache" h ≡ Bool.false
    → has_directive "no-store" h ≡ Bool.false
    → ltb n 9223372037 ≡ true
    → compute_expiry h now ttl ≡ pos (now / second + n)
unfolding compute_expiry
compute_expiry-exact h now n ttl a c s l = rw (c, s, a) (expiry_of_age-exact h now n ttl l)
