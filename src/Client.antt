-- ===== src/Client.antt =====
-- gazetteer/gazetteer.go: Builder, Client and what they know of a Source (gazetteer/source.go).
pub mod Roster
pub mod Run
pub mod Envelope
pub mod Collect
pub mod Slots
pub mod Recorded
pub mod Complete
pub mod Progress
pub mod Finish
pub mod Delivery
use gazetteer.Prelude.{
  ℕ, String, str_append, Bool, true, false, ◌||◌, ◌++◌, not, Option, none, some, List, [], ◌∷◌,
  str_eq, leb, ◌+◌, suc, zero, if◌then◌else◌,
}
use gazetteer.Prelude.Int.{ℤ, pos, negsuc}
use gazetteer.Prelude.Names.{holds}
use gazetteer.Errors.{Err, Node, leaf, Result, ok, err}
use gazetteer.Dossier.{Call}

-- Why a context ends: what its Err and `context.Cause` return from the time `at` on.
pub record Ending : Type 0 where
  pub at : ℕ
  pub reason : Err
  pub cause : Err

-- `none` never ends.
abbrev pub Ctx : Type 0
Ctx = Option Ending

-- The method Err at a time.
abbrev pub ctx_err : Ctx → ℕ → Option Err
ctx_err none now = none
ctx_err (some e) now = if leb e.at now then some e.reason else none

abbrev pub deadline_at : ℕ → Ending
deadline_at t = record {
  at = t;
  reason = leaf Node.deadline_exceeded;
  cause = leaf Node.deadline_exceeded;
}

-- `context.WithTimeout`, from a time on: the end of the parent counts if it comes first.
abbrev pub with_timeout : Ctx → ℕ → ℕ → Ctx
with_timeout none start d = some (deadline_at (start + d))
with_timeout (some e) start d =
    if leb e.at (start + d) then some e else some (deadline_at (start + d))

-- What a call of Query does: how long it takes, and the payload and the error that it returns.
pub record Answer (V : Type 0) : Type 0 where
  pub took : ℕ
  pub returned : Call (Option V × Option Err)

-- A Source over listings L. Query sees the context and the time.
pub record Source (L V : Type 0) : Type 0 where
  pub name : String
  pub version : ℕ
  pub query : Ctx → ℕ → L → Answer V

-- The fields of Builder and of Client that decide what runs. The HTTP client, the logger and the
-- normalizer are handed through unread.
pub record Config (L V : Type 0) : Type 0 where
  pub sources : List (Source L V)
  pub max_concur : ℤ
  pub per_src_timeout : ℤ

-- The warnings of Without, for the names that match no Source.
unfoldable pub unmatched : List String → List String → List String
unmatched present [] = []
unmatched present (n ∷ names) =
    let rest = unmatched present names in if holds n present then rest else n ∷ rest

abbrev pub duplicate_text : String → Node
duplicate_text n = Node.text (str_append "gazetteer: duplicate Source name " n)

module _ {L V : Type 0} where
  -- The method With.
  unfoldable pub with_source : Config L V → Source L V → Config L V
  with_source b s = record {
    sources = b.sources ++ (s ∷ []);
    max_concur = b.max_concur;
    per_src_timeout = b.per_src_timeout;
  }

  abbrev pub names_of : List (Source L V) → List String
  names_of [] = []
  names_of (s ∷ rest) = s.name ∷ names_of rest

  unfoldable pub kept_of : List String → List (Source L V) → List (Source L V)
  kept_of drop [] = []
  kept_of drop (s ∷ rest) =
      let kept = kept_of drop rest in if holds s.name drop then kept else s ∷ kept

  -- The method Without, with the names it warns of.
  unfoldable pub without : Config L V → List String → Config L V × List String
  unfolding kept_of unmatched
  without b [] = (b, [])
  without b (n ∷ names) = (
    record {
      sources = kept_of (n ∷ names) b.sources;
      max_concur = b.max_concur;
      per_src_timeout = b.per_src_timeout;
    },
    unmatched (names_of b.sources) (n ∷ names),
  )

  -- The loop of Build over the Sources, with the names seen so far: a name that comes twice.
  unfoldable pub duplicate : List String → List (Source L V) → Option String
  duplicate seen [] = none
  duplicate seen (s ∷ rest) =
      let found = duplicate (s.name ∷ seen) rest in if holds s.name seen then some s.name else found

  -- The method Build: a Client has the same fields.
  unfoldable pub build : Config L V → Result (Config L V)
  build b = elim (duplicate [] b.sources) [ none ↦ ok b | some n ↦ err (leaf (duplicate_text n)) ]

  -- The Sources that CollectSome runs.
  unfoldable pub selected : List String → List (Source L V) → List (Source L V)
  selected want [] = []
  selected want (s ∷ rest) =
      let sel = selected want rest in if holds s.name want then s ∷ sel else sel
