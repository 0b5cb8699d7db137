-- ===== src/Prelude/Number.antt =====
-- A JavaScript number as an input check sees it: NaN, an infinity, or a finite value. The finite
-- values modelled are the integers; `negsuc n` is -(n + 1).
use Prim.Native.Nat.{ℕ, zero}
use mathlib.Core.Bool.{Bool, true, false}

pub data JsNumber : Type 0 where
  nan infinity neg_infinity : JsNumber
  pos : ℕ → JsNumber
  negsuc : ℕ → JsNumber

-- Number.isFinite(x)
unfoldable pub is_finite : JsNumber → Bool
is_finite (pos n) = true
is_finite (negsuc n) = true
is_finite _ = false

-- x <= 0
unfoldable pub le-zero : JsNumber → Bool
le-zero (pos zero) = true
le-zero (negsuc n) = true
le-zero neg_infinity = true
le-zero _ = false
