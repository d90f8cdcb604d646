-- ===== src/Machine/Functions.antt =====
-- The lambdas of sim/src/interpreter/operations.cpp on one number, and those that use <cmath>.
use bento_box.Base.{ℕ, Bool, false, ◌||◌, Option, none, some, if◌then◌else◌}
use bento_box.Base.Int.{pos, negsuc, ltb_ℤ, magnitude}
use bento_box.Exec.{Result, ok, err, undefined, arc_sin_domain, arc_cos_domain}
use bento_box.Proto.UserValue.{Scalar, int32_of, int64_of, float32_of, float64_of}
use bento_box.Machine.{Machine, FloatOps}
use bento_box.Machine.Arith.{int_result, long_result}

module _ (m : Machine) where
  unfoldable pub absolute : Scalar → Result Scalar
  absolute (int32_of n) = int_result (pos (magnitude n))
  absolute (int64_of n) = long_result (pos (magnitude n))
  absolute (float32_of x) = ok (float32_of (m.single.abs x))
  absolute (float64_of x) = ok (float64_of (m.double.abs x))
  absolute _ = undefined

  -- A function of <cmath>, which takes an integer as a `double`.
  unfoldable pub math : (FloatOps → ℕ → ℕ) → Scalar → Result Scalar
  math f (int32_of n) = ok (float64_of (f m.double (m.double.of_int n)))
  math f (int64_of n) = ok (float64_of (f m.double (m.double.of_int n)))
  math f (float32_of x) = ok (float32_of (f m.single x))
  math f (float64_of x) = ok (float64_of (f m.double x))
  math f _ = undefined

  -- `x < -1 || x > 1`
  unfoldable pub outside_unit : Scalar → Bool
  outside_unit (int32_of n) = ltb_ℤ n (negsuc 0) || ltb_ℤ (pos 1) n
  outside_unit (int64_of n) = ltb_ℤ n (negsuc 0) || ltb_ℤ (pos 1) n
  outside_unit (float32_of x) =
      m.single.lt x (m.single.of_int (negsuc 0)) || m.single.lt (m.single.of_int (pos 1)) x
  outside_unit (float64_of x) =
      m.double.lt x (m.double.of_int (negsuc 0)) || m.double.lt (m.double.of_int (pos 1)) x
  outside_unit _ = false

  unfoldable pub arc_sine : Scalar → Result Scalar
  unfolding math outside_unit
  arc_sine x = if outside_unit x then err arc_sin_domain else math (λ f. f.asin) x

  unfoldable pub arc_cosine : Scalar → Result Scalar
  unfolding math outside_unit
  arc_cosine x = if outside_unit x then err arc_cos_domain else math (λ f. f.acos) x

  -- `pow` is single only where both operands are
  abbrev as_double : Scalar → Option ℕ
  as_double (int32_of n) = some (m.double.of_int n)
  as_double (int64_of n) = some (m.double.of_int n)
  as_double (float32_of x) = some (m.widen x)
  as_double (float64_of x) = some x
  as_double _ = none

  abbrev pow_doubles : Option ℕ → Option ℕ → Result Scalar
  pow_doubles (some x) (some y) = ok (float64_of (m.double.pow x y))
  pow_doubles _ _ = undefined

  unfoldable pub power : Scalar → Scalar → Result Scalar
  power (float32_of x) (float32_of y) = ok (float32_of (m.single.pow x y))
  power x y = pow_doubles (as_double x) (as_double y)
