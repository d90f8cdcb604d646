-- ===== src/Machine/Arith.antt =====
-- The lambdas that sim/src/interpreter/operations.cpp runs on C++ values. Two operands are first
-- brought to their common type by the usual arithmetic conversions.
use bento_box.Base.{ℕ, Bool, ◌&&◌, ◌||◌, Option, none, some, if◌then◌else◌, not, str_eq}
use bento_box.Base.Int.{ℤ, pos, ◌+ℤ◌, ◌-ℤ◌, ◌*ℤ◌, quot_ℤ, rem_ℤ, ltb_ℤ, leb_ℤ, eqb_ℤ, fits}
use bento_box.Exec.{Result, ok, undefined}
use bento_box.Proto.UserValue.{Scalar, int32_of, int64_of, float32_of, float64_of, str_of, bool_of}
use bento_box.Machine.{Machine}

-- Two operands of one type; `mixed` for a pair of types with no arithmetic.
pub data Operands : Type 0 where
  ints longs : ℤ → ℤ → Operands
  floats doubles : ℕ → ℕ → Operands
  mixed : Operands

abbrev fit : ℕ → (ℤ → Scalar) → ℤ → Result Scalar
fit w make n = if fits w n then ok (make n) else undefined

abbrev pub int_result : ℤ → Result Scalar
int_result n = fit 32 int32_of n

abbrev pub long_result : ℤ → Result Scalar
long_result n = fit 64 int64_of n

module _ (m : Machine) where
  unfoldable pub operands : Scalar → Scalar → Operands
  operands (int32_of a) (int32_of b) = ints a b
  operands (int32_of a) (int64_of b) = longs a b
  operands (int32_of a) (float32_of y) = floats (m.single.of_int a) y
  operands (int32_of a) (float64_of y) = doubles (m.double.of_int a) y
  operands (int64_of a) (int32_of b) = longs a b
  operands (int64_of a) (int64_of b) = longs a b
  operands (int64_of a) (float32_of y) = floats (m.single.of_int a) y
  operands (int64_of a) (float64_of y) = doubles (m.double.of_int a) y
  operands (float32_of x) (int32_of b) = floats x (m.single.of_int b)
  operands (float32_of x) (int64_of b) = floats x (m.single.of_int b)
  operands (float32_of x) (float32_of y) = floats x y
  operands (float32_of x) (float64_of y) = doubles (m.widen x) y
  operands (float64_of x) (int32_of b) = doubles x (m.double.of_int b)
  operands (float64_of x) (int64_of b) = doubles x (m.double.of_int b)
  operands (float64_of x) (float32_of y) = doubles x (m.widen y)
  operands (float64_of x) (float64_of y) = doubles x y
  operands _ _ = mixed

  -- `x + y`
  unfoldable pub plus_at : Operands → Result Scalar
  unfolding ◌+ℤ◌
  plus_at (ints a b) = int_result (a +ℤ b)
  plus_at (longs a b) = long_result (a +ℤ b)
  plus_at (floats x y) = ok (float32_of (m.single.add x y))
  plus_at (doubles x y) = ok (float64_of (m.double.add x y))
  plus_at mixed = undefined

  unfoldable pub plus : Scalar → Scalar → Result Scalar
  unfolding plus_at operands
  plus x y = plus_at (operands x y)

  -- `x - y`
  unfoldable pub minus_at : Operands → Result Scalar
  unfolding ◌-ℤ◌
  minus_at (ints a b) = int_result (a -ℤ b)
  minus_at (longs a b) = long_result (a -ℤ b)
  minus_at (floats x y) = ok (float32_of (m.single.sub x y))
  minus_at (doubles x y) = ok (float64_of (m.double.sub x y))
  minus_at mixed = undefined

  unfoldable pub minus : Scalar → Scalar → Result Scalar
  unfolding minus_at operands
  minus x y = minus_at (operands x y)

  -- `x * y`
  unfoldable pub times_at : Operands → Result Scalar
  unfolding ◌*ℤ◌
  times_at (ints a b) = int_result (a *ℤ b)
  times_at (longs a b) = long_result (a *ℤ b)
  times_at (floats x y) = ok (float32_of (m.single.mul x y))
  times_at (doubles x y) = ok (float64_of (m.double.mul x y))
  times_at mixed = undefined

  unfoldable pub times : Scalar → Scalar → Result Scalar
  unfolding times_at operands
  times x y = times_at (operands x y)

  -- `x / y`
  unfoldable pub divide_at : Operands → Result Scalar
  unfolding quot_ℤ
  divide_at (ints a b) = if eqb_ℤ b (pos 0) then undefined else int_result (quot_ℤ a b)
  divide_at (longs a b) = if eqb_ℤ b (pos 0) then undefined else long_result (quot_ℤ a b)
  divide_at (floats x y) = ok (float32_of (m.single.div x y))
  divide_at (doubles x y) = ok (float64_of (m.double.div x y))
  divide_at mixed = undefined

  unfoldable pub divide : Scalar → Scalar → Result Scalar
  unfolding divide_at operands
  divide x y = divide_at (operands x y)

  -- `x % y`, undefined also where the quotient overflows
  unfoldable pub modulo_at : Operands → Result Scalar
  unfolding quot_ℤ rem_ℤ
  modulo_at (ints a b) =
      if eqb_ℤ b (pos 0)
      then undefined
      else if fits 32 (quot_ℤ a b)
      then ok (int32_of (rem_ℤ a b))
      else undefined
  modulo_at (longs a b) =
      if eqb_ℤ b (pos 0)
      then undefined
      else if fits 64 (quot_ℤ a b)
      then ok (int64_of (rem_ℤ a b))
      else undefined
  modulo_at _ = undefined

  unfoldable pub modulo : Scalar → Scalar → Result Scalar
  unfolding modulo_at operands
  modulo x y = modulo_at (operands x y)

  -- `x > y`
  unfoldable pub gt_at : Operands → Option Bool
  gt_at (ints a b) = some (ltb_ℤ b a)
  gt_at (longs a b) = some (ltb_ℤ b a)
  gt_at (floats x y) = some (m.single.lt y x)
  gt_at (doubles x y) = some (m.double.lt y x)
  gt_at mixed = none

  -- `x < y`
  unfoldable pub lt_at : Operands → Option Bool
  lt_at (ints a b) = some (ltb_ℤ a b)
  lt_at (longs a b) = some (ltb_ℤ a b)
  lt_at (floats x y) = some (m.single.lt x y)
  lt_at (doubles x y) = some (m.double.lt x y)
  lt_at mixed = none

  -- `x >= y`
  unfoldable pub ge_at : Operands → Option Bool
  ge_at (ints a b) = some (leb_ℤ b a)
  ge_at (longs a b) = some (leb_ℤ b a)
  ge_at (floats x y) = some (m.single.le y x)
  ge_at (doubles x y) = some (m.double.le y x)
  ge_at mixed = none

  -- `x <= y`
  unfoldable pub le_at : Operands → Option Bool
  le_at (ints a b) = some (leb_ℤ a b)
  le_at (longs a b) = some (leb_ℤ a b)
  le_at (floats x y) = some (m.single.le x y)
  le_at (doubles x y) = some (m.double.le x y)
  le_at mixed = none

  -- `x == y` on numbers
  unfoldable pub eq_at : Operands → Option Bool
  eq_at (ints a b) = some (eqb_ℤ a b)
  eq_at (longs a b) = some (eqb_ℤ a b)
  eq_at (floats x y) = some (m.single.eq x y)
  eq_at (doubles x y) = some (m.double.eq x y)
  eq_at mixed = none

  abbrev answer : Option Bool → Result Scalar
  answer none = undefined
  answer (some b) = ok (bool_of b)

  unfoldable pub gt : Scalar → Scalar → Result Scalar
  unfolding gt_at operands
  gt x y = answer (gt_at (operands x y))

  unfoldable pub lt : Scalar → Scalar → Result Scalar
  unfolding lt_at operands
  lt x y = answer (lt_at (operands x y))

  unfoldable pub ge : Scalar → Scalar → Result Scalar
  unfolding ge_at operands
  ge x y = answer (ge_at (operands x y))

  unfoldable pub le : Scalar → Scalar → Result Scalar
  unfolding le_at operands
  le x y = answer (le_at (operands x y))

  -- `x == y`; of a string or a Boolean with its like, too
  unfoldable pub eq : Scalar → Scalar → Result Scalar
  unfolding eq_at operands
  eq (str_of s) (str_of t) = ok (bool_of (str_eq s t))
  eq (bool_of a) (bool_of b) = ok (bool_of ((a && b) || (not a && not b)))
  eq x y = answer (eq_at (operands x y))

  -- one of two operands, in their common type
  abbrev left : Operands → Result Scalar
  left (ints a b) = ok (int32_of a)
  left (longs a b) = ok (int64_of a)
  left (floats x y) = ok (float32_of x)
  left (doubles x y) = ok (float64_of x)
  left mixed = undefined

  abbrev right : Operands → Result Scalar
  right (ints a b) = ok (int32_of b)
  right (longs a b) = ok (int64_of b)
  right (floats x y) = ok (float32_of y)
  right (doubles x y) = ok (float64_of y)
  right mixed = undefined

  abbrev choose : Option Bool → Operands → Result Scalar
  choose none o = undefined
  choose (some b) o = if b then left o else right o

  -- the lambdas of `maxOp` and `minOp`
  unfoldable pub maximum : Scalar → Scalar → Result Scalar
  unfolding gt_at operands
  maximum x y = choose (gt_at (operands x y)) (operands x y)

  unfoldable pub minimum : Scalar → Scalar → Result Scalar
  unfolding lt_at operands
  minimum x y = choose (lt_at (operands x y)) (operands x y)
