-- ===== src/Proto/Dispatch/Typed.antt =====
-- Closed forms of the dispatch: what runs, once the type is known.
use bento_box.Base.{
  ◌≡◌, refl, Bool, false, ◌&&◌, List, [], ◌∷◌, Option, none, some, if◌then◌else◌, arith, ◌∙◌,
  Bool-cases, inl, inr,
}
use mathlib.Core.Bool.{and-false}
use bento_box.Exec.{Exec, Result, ok, err, undefined, invalid_value, raise, pure, ◌>>=◌}
use bento_box.Proto.Value.{
  TypePrimitive, int32, int64, float32, float64, bool, string, ProtoType, primitive_type,
  ValuePrimitive, value_not_set, int_8, int_32, int_64, float_32, float_64, str_val, boolean,
  kind_not_set, of_primitive, of_array, Value, ValueKind, default_value, primitive, primitive_of,
}
use bento_box.Proto.UserValue.{
  Kind, Scalar, int32_of, int64_of, float32_of, float64_of, str_of, bool_of, kind_of, set_val,
  is_val_of_types, type_in_types,
}
use bento_box.Proto.Dispatch.{inner, run_fn_with_val, run_fn_with_vals}

-- The C++ value that a primitive holds, if it is of one of the six types.
abbrev pub scalar_in : ValuePrimitive → Option Scalar
scalar_in (int_32 n) = some (int32_of n)
scalar_in (int_64 n) = some (int64_of n)
scalar_in (float_32 x) = some (float32_of x)
scalar_in (float_64 x) = some (float64_of x)
scalar_in (str_val s) = some (str_of s)
scalar_in (boolean b) = some (bool_of b)
scalar_in _ = none

abbrev pub scalar_of : Value → Option Scalar
scalar_of v = scalar_in (primitive v)

abbrev pub allows : List Kind → Option Scalar → Bool
allows ks none = false
allows ks (some a) = type_in_types (kind_of a) ks

pub is_val_of_types_at :
    (ks : List Kind) (v : Value) (p : ValuePrimitive)
    → primitive v ≡ p
    → is_val_of_types ks v ≡ allows ks (scalar_in p)
unfolding is_val_of_types type_in_types kind_of
is_val_of_types_at [] v p e = ground arith
is_val_of_types_at (k ∷ ks) v p e = ground (arith, is_val_of_types_at ks v p e)

module _ {S : Type 0} where
  -- What `runFnWithVal` does with a value of one of the six types.
  unfoldable pub run_typed : List Kind → Option Scalar → (Scalar → Exec S Scalar) → Exec S Value
  run_typed ks none fn = raise invalid_value
  run_typed ks (some a) fn =
      if type_in_types (kind_of a) ks
      then (do r ← fn a; pure (set_val default_value r))
      else raise invalid_value

  run_at :
      (ks : List Kind) (d : Option ProtoType) (p : ValuePrimitive) (fn : Scalar → Exec S Scalar)
      (s : S)
      → run_fn_with_val ks (record { data_type = d; kind = of_primitive p }) fn s
        ≡ run_typed ks (scalar_in p) fn s
  unfolding run_fn_with_val run_typed kind_of
  run_at ks d value_not_set fn s = rw (
      is_val_of_types_at ks (record { data_type = d; kind = of_primitive value_not_set })
        value_not_set refl)
  run_at ks d (int_8 n) fn s = rw (
      is_val_of_types_at ks (record { data_type = d; kind = of_primitive (int_8 n) }) (int_8 n)
        refl)
  run_at ks d p fn s =
      rw (is_val_of_types_at ks (record { data_type = d; kind = of_primitive p }) p refl)
        (simp and-false (ground arith))

  run_at_kind :
      (ks : List Kind) (d : Option ProtoType) (k : ValueKind) (fn : Scalar → Exec S Scalar) (s : S)
      → run_fn_with_val ks (record { data_type = d; kind = k }) fn s
        ≡ run_typed ks (scalar_in (primitive_of k)) fn s
  unfolding run_fn_with_val run_typed
  run_at_kind ks d (of_primitive p) fn s = run_at ks d p fn s
  run_at_kind ks d kind_not_set fn s =
      rw (is_val_of_types_at ks (record { data_type = d; kind = kind_not_set }) value_not_set refl)
  run_at_kind ks d (of_array ps) fn s =
      rw (is_val_of_types_at ks (record { data_type = d; kind = of_array ps }) value_not_set refl)

  -- The dispatch runs its function once, at the type that the value holds, if that type is allowed.
  pub run_fn_with_val-run_typed :
      (ks : List Kind) (v : Value) (fn : Scalar → Exec S Scalar) (s : S)
      → run_fn_with_val ks v fn s ≡ run_typed ks (scalar_of v) fn s
  run_fn_with_val-run_typed ks v fn s = run_at_kind ks v.data_type v.kind fn s

-- A value that holds one result, under the type of that result.
abbrev pub held_as : TypePrimitive → ValuePrimitive → Value
held_as t p = record { data_type = some (primitive_type t); kind = of_primitive p }

abbrev pub own_value : Scalar → Value
own_value (int32_of n) = held_as int32 (int_32 n)
own_value (int64_of n) = held_as int64 (int_64 n)
own_value (float32_of x) = held_as float32 (float_32 x)
own_value (float64_of x) = held_as float64 (float_64 x)
own_value (str_of s) = held_as string (str_val s)
own_value (bool_of b) = held_as bool (boolean b)

set_val-own_value : (r : Scalar) → set_val default_value r ≡ own_value r
unfolding set_val
set_val-own_value (int32_of n) = refl
set_val-own_value (int64_of n) = refl
set_val-own_value (float32_of x) = refl
set_val-own_value (float64_of x) = refl
set_val-own_value (str_of s) = refl
set_val-own_value (bool_of b) = refl

module _ {S : Type 0} where
  -- The function's outcome, with its result as a value of the result's own type.
  abbrev pub own_result : Result Scalar × S → Result Value × S
  own_result (ok r, s) = (ok (own_value r), s)
  own_result (err e, s) = (err e, s)
  own_result (undefined, s) = (undefined, s)

  abbrev pub run_own : List Kind → Option Scalar → (Scalar → Exec S Scalar) → Exec S Value
  run_own ks none fn s = (err invalid_value, s)
  run_own ks (some a) fn s =
      if type_in_types (kind_of a) ks then own_result (fn a s) else (err invalid_value, s)

  then_own :
      (r : Result Scalar × S) (a : Scalar) (fn : Scalar → Exec S Scalar) (s : S)
      → fn a s ≡ r
      → (do x ← fn a; pure (set_val default_value x)) s ≡ own_result r
  unfolding ◌>>=◌ pure
  then_own (ok x, t) a fn s e = rw (e, set_val-own_value x) refl
  then_own (err x, t) a fn s e = rw e refl
  then_own (undefined, t) a fn s e = rw e refl

  typed_own :
      (ks : List Kind) (o : Option Scalar) (fn : Scalar → Exec S Scalar) (s : S)
      → run_typed ks o fn s ≡ run_own ks o fn s
  unfolding run_typed raise
  typed_own ks none fn s = refl
  typed_own ks (some a) fn s = elim (Bool-cases (type_in_types (kind_of a) ks)) [
    | inl h ↦ rw h (then_own (fn a s) a fn s refl)
    | inr h ↦ rw h refl
  ]

  -- runFnWithVal runs its function once, at the type that the value holds, if that type is allowed,
  -- and gives the result as a value of the result's own type; any other value raises, and the
  -- function does not run. The error for a value that no test caught is never reached.
  pub run_fn_with_val-run_own :
      (ks : List Kind) (v : Value) (fn : Scalar → Exec S Scalar) (s : S)
      → run_fn_with_val ks v fn s ≡ run_own ks (scalar_of v) fn s
  run_fn_with_val-run_own ks v fn s =
      run_fn_with_val-run_typed ks v fn s ∙ typed_own ks (scalar_of v) fn s

module _ {S : Type 0} where
  unfoldable pub run_both :
      List Kind → Option Scalar → Option Scalar → (Scalar → Scalar → Exec S Scalar) → Exec S Value
  run_both ks none y fn = raise invalid_value
  run_both ks (some a) none fn = raise invalid_value
  run_both ks (some a) (some b) fn =
      if type_in_types (kind_of a) ks && type_in_types (kind_of b) ks
      then (do r ← fn a b; pure (set_val default_value r))
      else raise invalid_value

  both_at :
      (ks : List Kind) (x y : Value) (fn : Scalar → Scalar → Exec S Scalar) (s : S)
      (a b : Option Scalar)
      → scalar_of x ≡ a
      → scalar_of y ≡ b
      → run_fn_with_vals ks x y fn s ≡ run_both ks a b fn s
  unfolding run_fn_with_vals run_both run_typed ◌>>=◌
  both_at ks x y fn s none b e f =
      rw (run_fn_with_val-run_typed ks x (inner ks y fn) (s, default_value), e)
  both_at ks x y fn s (some a) none e f =
      rw (run_fn_with_val-run_typed ks x (inner ks y fn) (s, default_value), e)
        (ground (arith, run_fn_with_val-run_typed ks y (fn a) s))
  both_at ks x y fn s (some a) (some b) e f =
      rw (run_fn_with_val-run_typed ks x (inner ks y fn) (s, default_value), e)
        (ground (arith, run_fn_with_val-run_typed ks y (fn a) s))

  -- On two values runFnWithVal runs its function once, if both types are allowed, and gives its
  -- result; otherwise it does not run and raises.
  pub run_fn_with_vals-run_both :
      (ks : List Kind) (x y : Value) (fn : Scalar → Scalar → Exec S Scalar) (s : S)
      → run_fn_with_vals ks x y fn s ≡ run_both ks (scalar_of x) (scalar_of y) fn s
  run_fn_with_vals-run_both ks x y fn s = both_at ks x y fn s (scalar_of x) (scalar_of y) refl refl
