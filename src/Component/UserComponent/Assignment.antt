-- ===== src/Component/UserComponent/Assignment.antt =====
-- What `setValue` stores, and when it raises.
use bento_box.Base.{
  ◌≡◌, refl, Bool, true, false, ◌&&◌, String, Option, none, some, if◌then◌else◌, arith, ◌∙◌,
}
use bento_box.Base.Int.{pos}
use bento_box.Base.Classes.{string_eq}
use bento_box.Exec.{
  Exec, Result, ok, err, undefined, no_such_attribute, missing_data_type, data_mismatch,
  schema_mismatch, map_result, then_result, pure, ◌>>=◌, ◌>>◌,
}
use bento_box.Std.Map.{lookup, contains, is_some, at as map_find}
use bento_box.Proto.Value.{
  TypePrimitive, ProtoType, type_not_set, primitive_type, array_type, Value, default_value,
  type_primitive, primitive,
}
use bento_box.Proto.UserValue.{
  Kind, Scalar, int32_of, str_of, bool_of, numeric, set_val, kind_of, type_in_types,
  is_val_of_types, is_proto_type_of_types,
}
use bento_box.Proto.Dispatch.{run_fn_with_val, run_fn_with_val_type, val_has_correct_data_type}
use bento_box.Proto.Dispatch.Typed.{
  scalar_of, allows, run_typed, run_fn_with_val-run_typed, is_val_of_types_at,
}
use bento_box.Proto.Dispatch.DataType.{numeric_kind, run_type_numeric, data_type_agrees}
use bento_box.Machine.{Machine, cast}
use bento_box.Component.UserComponent.{
  UserComponent, touch, set_value, assign, set_by_type, set_converted, stored, type_or_default,
}

-- The C++ value, where it is a number.
abbrev pub numeric_scalar : Option Scalar → Option Scalar
numeric_scalar (some (str_of s)) = none
numeric_scalar (some (bool_of b)) = none
numeric_scalar a = a

set_val_any : (v w : Value) (a : Scalar) → set_val v a ≡ set_val w a
unfolding set_val
set_val_any v w (int32_of n) = refl
set_val_any v w a = refl

module _ (m : Machine) where
  abbrev pub by_kind : Option Kind → Option Scalar → ProtoType → Value → Result Value
  by_kind (some k) (some a) t v = map_result (set_val default_value) (cast m k a)
  by_kind k a t v =
      if m.compare_types (type_or_default v.data_type) t then ok v else err schema_mismatch

  -- The value that an attribute of schema type `t` takes from `v`: `v` itself for an array type,
  -- the converted number for a number in a numeric attribute, and otherwise `v` where its data type
  -- is the schema's.
  abbrev pub by_schema : ProtoType → Value → Result Value
  by_schema (array_type ds p) v = ok v
  by_schema t v = by_kind (numeric_kind (type_primitive t)) (numeric_scalar (scalar_of v)) t v

  abbrev pub checked : ProtoType → Value → Bool → Result Value
  checked t v b = if b then by_schema t v else err data_mismatch

  abbrev pub of_schema : Option ProtoType → Value → Result Value
  of_schema none v = err no_such_attribute
  of_schema (some t) v =
      if is_some v.data_type
      then then_result (data_type_agrees v.data_type (scalar_of v)) (checked t v)
      else err missing_data_type

  -- What `setValue` is to store under a name.
  abbrev pub assigned : UserComponent → String → Value → Result Value
  assigned c name v = of_schema (lookup name c.comp_def.schema) v

  abbrev pub stored_by : String → Result Value → UserComponent → UserComponent
  stored_by name (ok w) c = assign name w c
  stored_by name r c = c

  abbrev pub outcome : String → Result Value → UserComponent → Result (Unit {0}) × UserComponent
  outcome name r c = (map_result (λ _. tt) r, stored_by name r c)

  converted_lem :
      (name : String) (a : Scalar) (k : Kind) (c : UserComponent) (r : Result Scalar)
      → cast m k a ≡ r
      → set_converted m name a k c ≡ outcome name (map_result (set_val default_value) r) c
  unfolding set_converted ◌>>=◌
  converted_lem name a k c (ok b) e = rw (e, set_val_any (stored name c) default_value b)
  converted_lem name a k c (err x) e = rw e
  converted_lem name a k c undefined e = rw e

  -- The numeric branch of `setValue`.
  numeric_block : String → Value → ProtoType → Exec UserComponent (Unit {0})
  numeric_block name value schema_type = do
    run_fn_with_val numeric value λ x. do
      run_fn_with_val_type numeric schema_type (set_converted m name x)
      pure (int32_of (pos 3))
    pure tt

  numeric_block_lem :
      (name : String) (v : Value) (p : TypePrimitive) (k : Kind) (a : Scalar) (c : UserComponent)
      (r : Result Scalar)
      → scalar_of v ≡ some a
      → type_in_types (kind_of a) numeric ≡ true
      → numeric_kind p ≡ some k
      → cast m k a ≡ r
      → numeric_block name v (primitive_type p) c
        ≡ outcome name (map_result (set_val default_value) r) c
  unfolding numeric_block run_typed ◌>>=◌
  numeric_block_lem name v p k a c (ok b) ea ta ek er = rw (
    run_fn_with_val-run_typed numeric v _ c,
    ea,
    ta,
    run_type_numeric p (set_converted m name a) c,
    ek,
    converted_lem name a k c (ok b) er,
  )
  numeric_block_lem name v p k a c (err x) ea ta ek er = rw (
    run_fn_with_val-run_typed numeric v _ c,
    ea,
    ta,
    run_type_numeric p (set_converted m name a) c,
    ek,
    converted_lem name a k c (err x) er,
  )
  numeric_block_lem name v p k a c undefined ea ta ek er = rw (
    run_fn_with_val-run_typed numeric v _ c,
    ea,
    ta,
    run_type_numeric p (set_converted m name a) c,
    ek,
    converted_lem name a k c undefined er,
  )

  is_numeric_type :
      (p : TypePrimitive)
      → is_proto_type_of_types numeric (primitive_type p) ≡ is_some (numeric_kind p)
  unfolding is_proto_type_of_types
  is_numeric_type TypePrimitive.int32 = refl
  is_numeric_type p = refl

  allows-numeric : (a : Option Scalar) → allows numeric a ≡ is_some (numeric_scalar a)
  unfolding type_in_types kind_of
  allows-numeric none = refl
  allows-numeric (some (int32_of n)) = refl
  allows-numeric (some a) = refl

  is_numeric_value :
      (v : Value) → is_val_of_types numeric v ≡ is_some (numeric_scalar (scalar_of v))
  is_numeric_value v =
      is_val_of_types_at numeric v (primitive v) refl ∙ allows-numeric (scalar_of v)

  numeric_scalar-some :
      (o : Option Scalar) (a : Scalar)
      → numeric_scalar o ≡ some a
      → (o ≡ some a) × (type_in_types (kind_of a) numeric ≡ true)
  unfolding type_in_types kind_of
  numeric_scalar-some none a e = cc
  numeric_scalar-some (some (int32_of n)) a e = ground arith
  numeric_scalar-some (some b) a e = ground arith

  not_converted :
      (name : String) (v : Value) (p : TypePrimitive) (c : UserComponent)
      → (is_some (numeric_kind p) && is_some (numeric_scalar (scalar_of v))) ≡ false
      → set_by_type m name v (primitive_type p) c
        ≡ outcome name
            (if m.compare_types (type_or_default v.data_type) (primitive_type p)
              then ok v
              else err schema_mismatch)
            c
  unfolding set_by_type ◌>>=◌
  not_converted name v p c h = rw (is_numeric_type p, is_numeric_value v, h) (ground arith)

  primitive_at :
      (name : String) (v : Value) (p : TypePrimitive) (c : UserComponent) (k : Option Kind)
      (a : Option Scalar)
      → numeric_kind p ≡ k
      → numeric_scalar (scalar_of v) ≡ a
      → set_by_type m name v (primitive_type p) c
        ≡ outcome name (by_kind k a (primitive_type p) v) c
  unfolding set_by_type numeric_block
  primitive_at name v p c (some k) (some a) ek ea =
      let (es, et) = numeric_scalar-some (scalar_of v) a ea in
      rw (is_numeric_type p, is_numeric_value v, ek, ea)
        (numeric_block_lem name v p k a c (cast m k a) es et ek refl)
  primitive_at name v p c none a ek ea = not_converted name v p c (rw ek)
  primitive_at name v p c (some k) none ek ea = not_converted name v p c (rw (ek, ea))

  not_set_lem :
      (name : String) (v : Value) (c : UserComponent)
      → set_by_type m name v type_not_set c ≡ outcome name (by_schema type_not_set v) c
  unfolding set_by_type ◌>>=◌ is_proto_type_of_types
  not_set_lem name v c = ground arith

  pub set_by_type_lem :
      (name : String) (v : Value) (t : ProtoType) (c : UserComponent)
      → set_by_type m name v t c ≡ outcome name (by_schema t v) c
  unfolding set_by_type ◌>>=◌
  set_by_type_lem name v (array_type ds p) c = refl
  set_by_type_lem name v type_not_set c = not_set_lem name v c
  set_by_type_lem name v (primitive_type p) c =
      primitive_at name v p c (numeric_kind p) (numeric_scalar (scalar_of v)) refl refl

  pub checked_lem :
      (name : String) (v : Value) (c : UserComponent) (t : ProtoType) (r : Result Bool)
      → lookup name c.comp_def.schema ≡ some t
      → is_some v.data_type ≡ true
      → val_has_correct_data_type v ≡ r
      → set_value m name v c ≡ (elim r [
        | ok b ↦ if b then set_by_type m name v t (touch name c) else (err data_mismatch, c)
        | err x ↦ (err x, c)
        | undefined ↦ (undefined, c)
      ])
  unfolding set_value ◌>>=◌ map_find contains
  checked_lem name v c t (ok b) e h f = rw (e, h, f) (ground arith)
  checked_lem name v c t (err x) e h f = rw (e, h, f) (ground arith)
  checked_lem name v c t undefined e h f = rw (e, h, f) (ground arith)

  pub unchecked_lem :
      (name : String) (v : Value) (c : UserComponent)
      → (lookup name c.comp_def.schema ≡ none → set_value m name v c ≡ (err no_such_attribute, c))
        × (is_some (lookup name c.comp_def.schema) ≡ true
            → is_some v.data_type ≡ false
            → set_value m name v c ≡ (err missing_data_type, c))
  unfolding set_value ◌>>=◌ contains
  unchecked_lem name v c = (λ e. rw e (ground arith), λ e h. rw (e, h) (ground arith))
