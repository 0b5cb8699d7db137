-- ===== src/Prelude/Whole.antt =====
-- Whole numbers in the place of floating-point ones, for examples.
use Prim.Native.Nat.{ℕ, ◌+◌, ◌-◌, ◌*◌, ◌/◌}
use mathlib.Core.Bool.{true}
use tekbreed_oss.Prelude.Tests.{ltb, eqb}
use tekbreed_oss.Prelude.Floats.{Floats}

abbrev pub whole : Floats
whole = record {
  Float = ℕ;
  add = λ a b. a + b;
  sub = λ a b. a - b;
  mul = λ a b. a * b;
  div = λ a b. a / b;
  sqrt = λ a. a;
  lt = ltb;
  eq = eqb;
  finite = λ a. true;
  of_nat = λ n. n;
}
