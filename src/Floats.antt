-- ===== src/Floats.antt =====
-- Go's `float64`, as far as the modelled code computes with it: a type with the operations and the
-- literals that the code uses. Nothing is assumed of them.
use gazetteer.Prelude.{ℕ, Bool}

pub record Floats : Type 1 where
  pub Float : Type 0
  -- float64(n)
  pub of_int : ℕ → Float
  pub div : Float → Float → Float
  -- a < b and a <= b
  pub lt : Float → Float → Bool
  pub le : Float → Float → Bool
  -- 0, 1, 0.50 and 0.30
  pub zero_float : Float
  pub one_float : Float
  pub half : Float
  pub three_tenths : Float
