-- ===== src/Kvcache.antt =====
-- helpers/kvcache/kvcache.go: the interface Cache as its users see it, with what its documentation
-- promises of Get and Set. The memcache (helpers/kvcache/memcache) is shown to keep the promises.
pub mod Memory
use gazetteer.Prelude.{ℕ, String, Bool, true, Option, none, some, ◌≡◌}
use gazetteer.Errors.{Err}
use gazetteer.Memcache.{Entry, stamped}

-- What Get returns: `missing` is ErrNotFound.
pub data Read : Type 0 where
  found : Entry → Read
  missing : Read
  failed : Err → Read

-- Set is given the time at which the backend reads its clock.
pub record KvCache : Type 1 where
  pub State : Type 0
  pub get : String → State → Read × State
  pub set : ℕ → Entry → State → Option Err × State

-- `AllRows p s`: every row that Get can return passes the test.
pub record IsLawful (K : KvCache) : Type 1 where
  pub AllRows : (Entry → Bool) → K.State → Type 0
  pub get-found :
      (p : Entry → Bool) (k : String) (s : K.State) (e : Entry)
      → AllRows p s
      → (K.get k s).0 ≡ found e
      → p e ≡ true
  pub get-AllRows :
      (p : Entry → Bool) (k : String) (s : K.State) → AllRows p s → AllRows p (K.get k s).1
  pub set-AllRows :
      (p : Entry → Bool) (now : ℕ) (e : Entry) (s : K.State)
      → p (stamped now e) ≡ true
      → AllRows p s
      → AllRows p (K.set now e s).1
  pub get-set :
      (now : ℕ) (e : Entry) (s : K.State)
      → (K.set now e s).0 ≡ none
      → (K.get e.key (K.set now e s).1).0 ≡ found (stamped now e)
