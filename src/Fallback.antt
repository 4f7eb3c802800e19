-- ===== src/Fallback.antt =====
-- helpers/fallback/fallback.go: Walk over a ladder of tiers. The context is looked at before every
-- tier; `done` is what it answers before the tier of that index.
pub mod Winner
use gazetteer.Prelude.{
  ℕ, zero, suc, String, str_append, Bool, true, false, Option, none, some, List, [], ◌∷◌, ◌++◌,
  if◌then◌else◌,
}
use gazetteer.Prelude.Int.{ℤ}
use gazetteer.Errors.{Err, Node, leaf, wrap, join, Result, ok, err}

pub record Output : Type 0 where
  pub eur_per_m2_cents : ℤ
  pub level_used : String
  pub sample_size : ℤ
  pub source : String
  pub partial_err : Option Err

-- Over inputs I. `skip_on` may be nil.
pub record Tier (I : Type 0) : Type 0 where
  pub name : String
  pub description : String
  pub try : I → Result Output
  pub skip_on : Option (Output → Bool)

-- The field `outcome` of the event that is logged of every attempt.
pub data TierOutcome : Type 0 where
  won skipped failed : TierOutcome

abbrev pub no_output : Output
no_output = record {
  eur_per_m2_cents = ℤ.pos 0;
  level_used = "";
  sample_size = ℤ.pos 0;
  source = "";
  partial_err = none;
}

abbrev pub named : String → Output → Output
named name out = record {
  eur_per_m2_cents = out.eur_per_m2_cents;
  level_used = out.level_used;
  sample_size = out.sample_size;
  source = name;
  partial_err = out.partial_err;
}

abbrev pub is_skipped : Option (Output → Bool) → Output → Bool
is_skipped none out = false
is_skipped (some skip) out = skip out

abbrev pub tier_text : String → String
tier_text name = str_append "tier " name

-- errors.Join of what was collected.
abbrev pub join_all : List Err → Err
join_all [] = leaf (Node.text "")
join_all (e ∷ es) = join (Node.text "") e (join_all es)

-- The messages are shortened. What Walk returns, and the events that it logs.
pub record Walked : Type 0 where
  pub outcome : Result Output
  pub events : List (String × TierOutcome)

abbrev pub logged : String → TierOutcome → Walked → Walked
logged name o w = record { outcome = w.outcome; events = (name, o) ∷ w.events }

abbrev pub stopped : Err → Walked
stopped e = record { outcome = err e; events = [] }

-- The end of the loop: the errors collected, in their order.
abbrev pub exhausted : List Err → Walked
exhausted collected =
    stopped (join (Node.text "") (leaf Node.no_tier_succeeded) (join_all collected))

module _ {I : Type 0} (done : ℕ → Option Err) (input : I) where
  abbrev pub error_of : Tier I → Err → Err
  error_of t e = wrap (Node.context (tier_text t.name)) e

  abbrev pub skip_of : Tier I → Err
  skip_of t = leaf (Node.text (str_append (tier_text t.name) ": skipped"))

  -- The loop, from the tier of an index on, with what was collected before.
  unfoldable pub walk_from : ℕ → List (Tier I) → List Err → Walked
  walk_from i [] collected = exhausted collected
  walk_from i (t ∷ rest) collected =
      let skip = walk_from (suc i) rest (collected ++ (skip_of t ∷ [])) in
      elim (done i) [
        | some e ↦ stopped e
        | none ↦ elim (t.try input) [
          | err e ↦
              logged t.name TierOutcome.failed
                (walk_from (suc i) rest (collected ++ (error_of t e ∷ [])))
          | ok out ↦
              if is_skipped t.skip_on out
              then logged t.name TierOutcome.skipped skip
              else logged t.name TierOutcome.won
                  (record { outcome = ok (named t.name out); events = [] })
        ]
      ]

  -- The function Walk.
  unfoldable pub walk : List (Tier I) → Walked
  unfolding walk_from
  walk [] = stopped (wrap (Node.context "empty ladder") (leaf Node.no_tier_succeeded))
  walk (t ∷ rest) = walk_from 0 (t ∷ rest) []
