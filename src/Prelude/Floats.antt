-- ===== src/Prelude/Floats.antt =====
-- JavaScript's numbers where the code computes with fractions: a type with the operations used.
-- Nothing is supposed of them; a theorem that needs a law has it as a hypothesis.
use Prim.Native.Nat.{ℕ}
use mathlib.Core.Bool.{Bool}

pub record Floats : Type 1 where
  pub Float : Type 0
  pub add : Float → Float → Float
  pub sub : Float → Float → Float
  pub mul : Float → Float → Float
  pub div : Float → Float → Float
  pub sqrt : Float → Float
  pub lt : Float → Float → Bool
  pub eq : Float → Float → Bool
  pub finite : Float → Bool
  pub of_nat : ℕ → Float
