-- ===== src/Machine.antt =====
-- What the engine's code calls and the repository does not hold, and C++ arithmetic on the numeric
-- types of sim/include/proto/userValue.h. Integers are exact and their
-- overflow is undefined. Floating point, <cmath> and the random numbers are not code of the
-- repository: a float is its bit pattern, and the operations on patterns are a parameter.
pub mod Arith
pub mod Functions
use bento_box.Base.{ℕ, suc, ◌<◌, Bool, true, false, Option, none, some, ◌≡◌, ◌↔◌, if◌then◌else◌}
use bento_box.Base.Int.{ℤ, fits, wrap}
use bento_box.Exec.{Result, ok, undefined}
use bento_box.Proto.Value.{ProtoType}
use bento_box.Proto.UserValue.{
  Kind, int32_kind, int64_kind, float32_kind, float64_kind, str_kind, bool_kind, Scalar, int32_of,
  int64_of, float32_of, float64_of, str_of, bool_of,
}

-- One floating-point format.
pub record FloatOps : Type 0 where
  pub of_int : ℤ → ℕ
  -- truncation towards zero; `none` for a pattern that is no number
  pub to_int : ℕ → Option ℤ
  pub add : ℕ → ℕ → ℕ
  pub sub : ℕ → ℕ → ℕ
  pub mul : ℕ → ℕ → ℕ
  pub div : ℕ → ℕ → ℕ
  pub pow : ℕ → ℕ → ℕ
  pub lt : ℕ → ℕ → Bool
  pub le : ℕ → ℕ → Bool
  pub eq : ℕ → ℕ → Bool
  pub abs : ℕ → ℕ
  pub floor : ℕ → ℕ
  pub ceil : ℕ → ℕ
  pub sin : ℕ → ℕ
  pub asin : ℕ → ℕ
  pub cos : ℕ → ℕ
  pub acos : ℕ → ℕ
  pub tan : ℕ → ℕ
  pub atan : ℕ → ℕ

pub record Machine : Type 0 where
  pub single : FloatOps
  pub double : FloatOps
  -- conversions between `float` and `double`
  pub widen : ℕ → ℕ
  pub narrow : ℕ → ℕ
  -- what `std::uniform_real_distribution` over the given bounds returns at the n-th draw
  pub uniform_single : ℕ → ℕ → ℕ → ℕ
  pub uniform_double : ℕ → ℕ → ℕ → ℕ
  -- `MessageDifferencer::Compare` of protobuf on two `Type` messages
  pub compare_types : ProtoType → ProtoType → Bool

-- It holds of equal messages alone.
pub record ComparesTypes (m : Machine) : Type 0 where
  pub equal : (s t : ProtoType) → (m.compare_types s t ≡ true) ↔ (s ≡ t)

abbrev truncated : ℕ → (ℤ → Scalar) → Option ℤ → Result Scalar
truncated w make none = undefined
truncated w make (some n) = if fits w n then ok (make n) else undefined

module _ (m : Machine) where
  -- `(Y)x` between numeric types. Narrowing an integer wraps; a float must fit after truncation. No
  -- other pair of types is ever instantiated.
  unfoldable pub cast : Kind → Scalar → Result Scalar
  unfolding wrap
  cast int32_kind (int32_of n) = ok (int32_of n)
  cast int32_kind (int64_of n) = ok (int32_of (wrap 32 n))
  cast int32_kind (float32_of x) = truncated 32 int32_of (m.single.to_int x)
  cast int32_kind (float64_of x) = truncated 32 int32_of (m.double.to_int x)
  cast int64_kind (int32_of n) = ok (int64_of n)
  cast int64_kind (int64_of n) = ok (int64_of n)
  cast int64_kind (float32_of x) = truncated 64 int64_of (m.single.to_int x)
  cast int64_kind (float64_of x) = truncated 64 int64_of (m.double.to_int x)
  cast float32_kind (int32_of n) = ok (float32_of (m.single.of_int n))
  cast float32_kind (int64_of n) = ok (float32_of (m.single.of_int n))
  cast float32_kind (float32_of x) = ok (float32_of x)
  cast float32_kind (float64_of x) = ok (float32_of (m.narrow x))
  cast float64_kind (int32_of n) = ok (float64_of (m.double.of_int n))
  cast float64_kind (int64_of n) = ok (float64_of (m.double.of_int n))
  cast float64_kind (float32_of x) = ok (float64_of (m.widen x))
  cast float64_kind (float64_of x) = ok (float64_of x)
  cast _ _ = undefined
