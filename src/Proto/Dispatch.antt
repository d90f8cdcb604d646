-- ===== src/Proto/Dispatch.antt =====
-- `runFnWithValType` and `runFnWithVal` of sim/include/proto/userValue.h: code that is run at the
-- type that a message names, or that a value turns out to have. Each is a row of tests, one for each
-- of the six types, that the template parameters switch on; here the row is a loop over the types.
pub mod Typed
pub mod DataType
use bento_box.Base.{Bool, true, false, ◌&&◌, List, [], ◌∷◌, Option, none, some, if◌then◌else◌}
use bento_box.Base.Int.{pos}
use bento_box.Exec.{
  Exec, Result, ok, undefined, array_deduction, unhandled_type, invalid_value, no_value, raise,
  pure, modify, then_result, map_result, ◌>>=◌, ◌>>◌,
}
use bento_box.Proto.Value.{ProtoType, Value, default_value, has_array_type}
use bento_box.Proto.UserValue.{
  Kind, Scalar, int32_of, kind_of, same_kind, any_kind, set_val, get_val, is_val_of_type,
  is_val_of_types, is_proto_type_of_type, type_in_types,
}

module _ {S : Type 0} where
  -- One test of `runFnWithValType`, with `fnCalled`.
  type_test : List Kind → ProtoType → (Kind → Exec S (Unit {0})) → Kind → Bool → Exec S Bool
  unfolding type_in_types is_proto_type_of_type ◌>>=◌
  type_test allowed type fn k called =
      if type_in_types k allowed && is_proto_type_of_type k type
      then (do fn k; pure true)
      else pure called

  type_tests : List Kind → List Kind → ProtoType → (Kind → Exec S (Unit {0})) → Bool → Exec S Bool
  unfolding type_test ◌>>=◌
  type_tests [] allowed type fn called = pure called
  type_tests (k ∷ ks) allowed type fn called = do
    called' ← type_test allowed type fn k called
    type_tests ks allowed type fn called'

  unfoldable pub run_fn_with_val_type :
      List Kind → ProtoType → (Kind → Exec S (Unit {0})) → Exec S (Unit {0})
  unfolding type_tests
  run_fn_with_val_type allowed type fn = if has_array_type type then raise array_deduction else do
    called ← type_tests any_kind allowed type fn false
    if called then pure tt else raise unhandled_type

  -- One test of `runFnWithVal`, with `val` and `valSet`.
  val_test :
      List Kind → Value → (Scalar → Exec S Scalar) → Kind → Value × Bool → Exec S (Value × Bool)
  unfolding type_in_types is_val_of_type get_val set_val ◌>>=◌
  val_test allowed x fn k (val, done) =
      if type_in_types k allowed && is_val_of_type k x
      then (do result ← fn (get_val k x); pure (set_val val result, true))
      else pure (val, done)

  val_tests :
      List Kind
      → List Kind
      → Value
      → (Scalar → Exec S Scalar)
      → Value × Bool
      → Exec S (Value × Bool)
  unfolding val_test ◌>>=◌
  val_tests [] allowed x fn done = pure done
  val_tests (k ∷ ks) allowed x fn done = do
    done' ← val_test allowed x fn k done
    val_tests ks allowed x fn done'

  abbrev finish : Value × Bool → Exec S Value
  finish (val, done) = if done then pure val else raise no_value

  unfoldable pub run_fn_with_val : List Kind → Value → (Scalar → Exec S Scalar) → Exec S Value
  unfolding val_tests is_val_of_types
  run_fn_with_val allowed x fn =
      if is_val_of_types allowed x
      then (do done ← val_tests any_kind allowed x fn (default_value, false); finish done)
      else raise invalid_value

-- The outer lambda of `runFnWithVal` on two values: it stores the inner result in the captured `val`
-- and returns a dummy.
abbrev stored : Result Value → Value → Value
stored (ok v) val = v
stored _ val = val

module _ {S : Type 0} where
  inner : List Kind → Value → (Scalar → Scalar → Exec S Scalar) → Scalar → Exec (S × Value) Scalar
  inner allowed y fn a (s, val) =
      let (r, s') = run_fn_with_val allowed y (fn a) s in
      (map_result (λ _. int32_of (pos 3)) r, (s', stored r val))

  unfoldable pub run_fn_with_vals :
      List Kind → Value → Value → (Scalar → Scalar → Exec S Scalar) → Exec S Value
  unfolding inner
  run_fn_with_vals allowed x y fn s =
      let (r, (s', val)) = run_fn_with_val allowed x (inner allowed y fn) (s, default_value) in
      (map_result (λ _. val) r, s')

-- `valHasCorrectDataType`, with the local `result`, which starts out uninitialised: reading it then
-- would be undefined.
compare_kinds : Value → Kind → Exec (Option Bool) (Unit {0})
unfolding ◌>>=◌
compare_kinds val k = do
  run_fn_with_val any_kind val
      λ y. do modify (λ _. some (same_kind k (kind_of y))); pure (int32_of (pos 3))
  pure tt

abbrev initialised : Option Bool → Result Bool
initialised none = undefined
initialised (some b) = ok b

check_data_type : Value → Option ProtoType → Result Bool
unfolding compare_kinds
check_data_type val none = ok false
check_data_type val (some t) =
    let (r, result) = run_fn_with_val_type any_kind t (compare_kinds val) none in
    then_result r λ _. initialised result

unfoldable pub val_has_correct_data_type : Value → Result Bool
unfolding check_data_type
val_has_correct_data_type val = check_data_type val val.data_type
