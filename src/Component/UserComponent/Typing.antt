-- ===== src/Component/UserComponent/Typing.antt =====
-- The type of the value that `setValue` stores.
use bento_box.Base.{
  ◌≡◌, refl, Bool, true, false, String, Option, none, some, if◌then◌else◌, arith, str_eq_iff, ◌∙◌,
  ap, Bool-cases, inl, inr,
}
use mathlib.Core.Path.{subst}
use bento_box.Base.Classes.{string_eq}
use bento_box.Exec.{Result, ok, err, undefined, schema_mismatch, map_result, then_result}
use bento_box.Std.Map.{lookup, is_some}
use bento_box.Proto.Value.{
  TypePrimitive, ProtoType, type_not_set, primitive_type, array_type, Value, default_value,
  has_array_type,
}
use bento_box.Proto.UserValue.{Kind, int32_kind, Scalar, int32_of, kind_of, set_val}
use bento_box.Proto.Dispatch.Typed.{scalar_of}
use bento_box.Proto.Dispatch.DataType.{numeric_kind, data_type_agrees}
use bento_box.Machine.{Machine, ComparesTypes, cast}
use bento_box.Component.UserComponent.{UserComponent, set_value, type_or_default}
use bento_box.Component.UserComponent.Attributes.{attribute}
use bento_box.Component.UserComponent.Assignment.{
  assigned, checked, by_schema, by_kind, numeric_scalar,
}
use bento_box.Component.UserComponent.Setting.{Stores, set_value-Stores}

-- The value has the data type `t` and holds a C++ value of that type.
pub record HasType (t : ProtoType) (w : Value) : Type 0 where
  pub data_type : w.data_type ≡ some t
  pub scalar : data_type_agrees w.data_type (scalar_of w) ≡ ok true

cast-kind_of : (m : Machine) (k : Kind) (a b : Scalar) → cast m k a ≡ ok b → kind_of b ≡ k
unfolding cast kind_of
cast-kind_of m int32_kind (int32_of n) b e = ground arith
cast-kind_of m int32_kind a b e = ground arith
cast-kind_of m k a b e = ground arith

converted-HasType :
    (p : TypePrimitive) (k : Kind) (b : Scalar)
    → numeric_kind p ≡ some k
    → kind_of b ≡ k
    → HasType (primitive_type p) (set_val default_value b)
unfolding set_val kind_of
converted-HasType TypePrimitive.int32 k (int32_of n) e f = record {
  data_type = refl;
  scalar = refl;
}
converted-HasType p k b e f = record { data_type = ground arith; scalar = ground arith }

module _ (m : Machine) (c : ComparesTypes m) where
  converted :
      (p : TypePrimitive) (k : Kind) (r : Result Scalar) (w : Value)
      → ((b : Scalar) → r ≡ ok b → kind_of b ≡ k)
      → numeric_kind p ≡ some k
      → map_result (set_val default_value) r ≡ ok w
      → HasType (primitive_type p) w
  converted p k (ok b) w kinds n e =
      subst (HasType (primitive_type p)) (ground arith) (converted-HasType p k b n (kinds b refl))
  converted p k (err x) w kinds n e = absurd (ground arith)
  converted p k undefined w kinds n e = absurd (ground arith)

  -- A value that is stored as it is.
  as_it_is :
      (t : ProtoType) (v w : Value) (d : Option ProtoType)
      → v.data_type ≡ d
      → data_type_agrees d (scalar_of v) ≡ ok true
      → (if m.compare_types (type_or_default d) t then ok v else err schema_mismatch) ≡ ok w
      → HasType t w
  as_it_is t v w none e h f = absurd (ground arith)
  as_it_is t v w (some s) e h f = elim (Bool-cases (m.compare_types s t)) [
    | inr differs ↦ absurd (ground arith)
    | inl same ↦
        let st : s ≡ t = (c.equal s t).0 same in
        let kept : HasType t v = record { data_type = e ∙ ap some st; scalar = rw e h } in
        subst (HasType t) {x = v} {y = w} (ground arith) kept
  ]

  by_kind_typed :
      (p : TypePrimitive) (k : Option Kind) (a : Option Scalar) (v w : Value)
      → numeric_kind p ≡ k
      → data_type_agrees v.data_type (scalar_of v) ≡ ok true
      → by_kind m k a (primitive_type p) v ≡ ok w
      → HasType (primitive_type p) w
  by_kind_typed p (some k) (some a) v w n h e =
      converted p k (cast m k a) w (λ b. cast-kind_of m k a b) n e
  by_kind_typed p none a v w n h e = as_it_is (primitive_type p) v w v.data_type refl h e
  by_kind_typed p (some k) none v w n h e = as_it_is (primitive_type p) v w v.data_type refl h e

  by_schema-HasType :
      (t : ProtoType) (v w : Value)
      → has_array_type t ≡ false
      → data_type_agrees v.data_type (scalar_of v) ≡ ok true
      → by_schema m t v ≡ ok w
      → HasType t w
  by_schema-HasType (array_type ds p) v w n h e = absurd (ground arith)
  by_schema-HasType type_not_set v w n h e = as_it_is type_not_set v w v.data_type refl h e
  by_schema-HasType (primitive_type p) v w n h e =
      by_kind_typed p (numeric_kind p) (numeric_scalar (scalar_of v)) v w refl h e

  checked-HasType :
      (t : ProtoType) (v w : Value) (r : Result Bool)
      → has_array_type t ≡ false
      → data_type_agrees v.data_type (scalar_of v) ≡ r
      → then_result r (checked m t v) ≡ ok w
      → HasType t w
  checked-HasType t v w (ok true) n h e = by_schema-HasType t v w n h e
  checked-HasType t v w (ok false) n h e = absurd (ground arith)
  checked-HasType t v w (err x) n h e = absurd (ground arith)
  checked-HasType t v w undefined n h e = absurd (ground arith)

  assigned-HasType :
      (comp : UserComponent) (name : String) (t : ProtoType) (v w : Value)
      → lookup name comp.comp_def.schema ≡ some t
      → has_array_type t ≡ false
      → assigned m comp name v ≡ ok w
      → HasType t w
  assigned-HasType comp name t v w found n e = elim (Bool-cases (is_some v.data_type)) [
    | inl set ↦
        checked-HasType t v w (data_type_agrees v.data_type (scalar_of v)) n refl
          (rw (found, set) at e)
    | inr unset ↦ absurd (ground (arith, (rw (found, unset) at e)))
  ]

  typed_by :
      (name : String) (t : ProtoType) (r : Result Value) (comp : UserComponent)
      (run : Result (Unit {0}) × UserComponent)
      → Stores name r comp run
      → ((w : Value) → r ≡ ok w → HasType t w)
      → run.0 ≡ ok tt
      → (w : Value) × (attribute run.1 name ≡ some w) × HasType t w
  typed_by name t (ok w) comp run s typed done =
      (w, ground (arith, s.attributes name, str_eq_iff name name), typed w refl)
  typed_by name t (err x) comp run s typed done = absurd (ground (arith, s.result))
  typed_by name t undefined comp run s typed done = absurd (ground (arith, s.result))

  -- After a setValue that returns, on an attribute whose schema type is no array, the attribute
  -- reads a value of the schema's type: its data type is the schema's and it holds a C++ value of
  -- that type, numbers having been converted. (The comparison of types is assumed to hold of equal
  -- types alone.)
  pub set_value-HasType :
      (comp : UserComponent) (name : String) (t : ProtoType) (v : Value)
      → lookup name comp.comp_def.schema ≡ some t
      → has_array_type t ≡ false
      → (set_value m name v comp).0 ≡ ok tt
      → (w : Value) × (attribute (set_value m name v comp).1 name ≡ some w) × HasType t w
  set_value-HasType comp name t v found n done =
      typed_by name t (assigned m comp name v) comp (set_value m name v comp)
        (set_value-Stores m name v comp) (λ w. assigned-HasType comp name t v w found n) done
