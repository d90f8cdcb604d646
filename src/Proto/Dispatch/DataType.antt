-- ===== src/Proto/Dispatch/DataType.antt =====
-- Closed forms of the dispatch on the type that a message names, and of valHasCorrectDataType.
use bento_box.Base.{◌≡◌, refl, Bool, true, false, Option, none, some, arith}
use bento_box.Exec.{
  Exec, Result, ok, err, array_deduction, unhandled_type, invalid_value, raise, then_result,
}
use bento_box.Proto.Value.{
  TypePrimitive, ProtoType, type_not_set, primitive_type, array_type, Value, type_primitive,
}
use bento_box.Proto.UserValue.{
  Kind, int32_kind, int64_kind, float32_kind, float64_kind, str_kind, bool_kind, Scalar, int32_of,
  kind_of, same_kind, any_kind, numeric, type_in_types,
}
use bento_box.Proto.Dispatch.{
  compare_kinds, check_data_type, initialised, run_fn_with_val_type, val_has_correct_data_type,
}
use bento_box.Proto.Dispatch.Typed.{run_fn_with_val-run_typed, run_typed, scalar_of}

-- The type that a message names, among the six.
abbrev pub named_kind : TypePrimitive → Option Kind
named_kind TypePrimitive.int32 = some int32_kind
named_kind TypePrimitive.int64 = some int64_kind
named_kind TypePrimitive.float32 = some float32_kind
named_kind TypePrimitive.float64 = some float64_kind
named_kind TypePrimitive.bool = some bool_kind
named_kind TypePrimitive.string = some str_kind
named_kind _ = none

-- The numeric ones.
abbrev pub numeric_kind : TypePrimitive → Option Kind
numeric_kind TypePrimitive.int32 = some int32_kind
numeric_kind TypePrimitive.int64 = some int64_kind
numeric_kind TypePrimitive.float32 = some float32_kind
numeric_kind TypePrimitive.float64 = some float64_kind
numeric_kind _ = none

abbrev pub run_named : {S : Type 0} → Option Kind → (Kind → Exec S (Unit {0})) → Exec S (Unit {0})
run_named none fn = raise unhandled_type
run_named (some k) fn = fn k

abbrev pub agrees : Option Kind → Option Scalar → Result Bool
agrees none a = err unhandled_type
agrees (some k) none = err invalid_value
agrees (some k) (some a) = ok (same_kind k (kind_of a))

abbrev pub data_type_agrees : Option ProtoType → Option Scalar → Result Bool
data_type_agrees none a = ok false
data_type_agrees (some (array_type ds p)) a = err array_deduction
data_type_agrees (some t) a = agrees (named_kind (type_primitive t)) a

module _ {S : Type 0} where
  run_type_at :
      (p : TypePrimitive) (fn : Kind → Exec S (Unit {0})) (s : S)
      → run_fn_with_val_type any_kind (primitive_type p) fn s ≡ run_named (named_kind p) fn s
  unfolding run_fn_with_val_type
  run_type_at TypePrimitive.invalid fn s = refl
  run_type_at p fn s = ground arith

  pub run_type_numeric :
      (p : TypePrimitive) (fn : Kind → Exec S (Unit {0})) (s : S)
      → run_fn_with_val_type numeric (primitive_type p) fn s ≡ run_named (numeric_kind p) fn s
  unfolding run_fn_with_val_type
  run_type_numeric TypePrimitive.invalid fn s = refl
  run_type_numeric p fn s = ground arith

  -- `runFnWithValType` by the type that the message names.
  abbrev named : ProtoType → (Kind → Exec S (Unit {0})) → Exec S (Unit {0})
  named (array_type ds p) fn = raise array_deduction
  named t fn = run_named (named_kind (type_primitive t)) fn

  run_type :
      (t : ProtoType) (fn : Kind → Exec S (Unit {0})) (s : S)
      → run_fn_with_val_type any_kind t fn s ≡ named t fn s
  unfolding run_fn_with_val_type
  run_type (array_type ds p) fn s = refl
  run_type type_not_set fn s = refl
  run_type (primitive_type p) fn s = run_type_at p fn s

type_in_types-any_kind : (a : Scalar) → type_in_types (kind_of a) any_kind ≡ true
unfolding type_in_types kind_of
type_in_types-any_kind (int32_of n) = refl
type_in_types-any_kind a = refl

compare_at :
    (val : Value) (k : Kind) (a : Option Scalar) (r : Option Bool)
    → scalar_of val ≡ a
    → compare_kinds val k r ≡ (elim a [
      | none ↦ (err invalid_value, r)
      | some b ↦ (ok tt, some (same_kind k (kind_of b)))
    ])
unfolding compare_kinds run_typed
compare_at val k none r e = rw (run_fn_with_val-run_typed any_kind val _ r, e)
compare_at val k (some a) r e =
    rw (run_fn_with_val-run_typed any_kind val _ r, e) (ground (arith, type_in_types-any_kind a))

agrees_named :
    (val : Value) (k : Option Kind) (a : Option Scalar)
    → scalar_of val ≡ a
    → (let (r, result) = run_named k (compare_kinds val) none in
        then_result r λ _. initialised result)
      ≡ agrees k a
unfolding raise
agrees_named val none a e = refl
agrees_named val (some k) none e = rw (compare_at val k none none e)
agrees_named val (some k) (some a) e = rw (compare_at val k (some a) none e)

check_at :
    (val : Value) (t : Option ProtoType) (a : Option Scalar)
    → scalar_of val ≡ a
    → check_data_type val t ≡ data_type_agrees t a
unfolding check_data_type raise
check_at val none a f = refl
check_at val (some (array_type ds p)) a f = rw (run_type (array_type ds p) (compare_kinds val) none)
check_at val (some type_not_set) a f = rw (run_type type_not_set (compare_kinds val) none)
check_at val (some (primitive_type p)) a f =
    rw (run_type (primitive_type p) (compare_kinds val) none) (agrees_named val (named_kind p) a f)

-- valHasCorrectDataType never reads an uninitialised result. It is false without a data type,
-- raises for an array type, for a type that is none of the six and for a value that is none of
-- them, and otherwise says whether the value is of the type that the data type names.
pub val_has_correct_data_type-data_type_agrees :
    (val : Value) → val_has_correct_data_type val ≡ data_type_agrees val.data_type (scalar_of val)
unfolding val_has_correct_data_type
val_has_correct_data_type-data_type_agrees val = check_at val val.data_type (scalar_of val) refl
