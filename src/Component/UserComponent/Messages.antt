-- ===== src/Component/UserComponent/Messages.antt =====
-- The texts of the exceptions that `setValue` throws for a value of the wrong type. They are made
-- before the exception is, from functions that follow a null pointer for some values.
use bento_box.Base.{
  ◌≡◌, ◌≢◌, sym, ◌∙◌, refl, Bool, true, false, String, Option, none, some, arith, [], ◌∷◌,
  Bool-cases, inl, inr,
}
use bento_box.Base.Text.{joined}
use bento_box.Base.Classes.{string_eq}
use bento_box.Exec.{Result, ok, err, undefined, Error, data_mismatch, map_result, then_result}
use bento_box.Std.Map.{lookup, is_some}
use bento_box.Proto.Value.{
  ProtoType, type_not_set, primitive_type, array_type, value_not_set, Value, ValueKind,
  of_primitive, primitive_of,
}
use bento_box.Proto.UserValue.{Kind, Scalar, int32_kind, int32_of, set_val}
use bento_box.Proto.TypeNames.{val_stored_type_name, val_data_type_name}
use bento_box.Proto.Dispatch.Typed.{scalar_of, scalar_in}
use bento_box.Proto.Dispatch.DataType.{numeric_kind, data_type_agrees}
use bento_box.Proto.Value.{default_value}
use bento_box.Machine.{Machine, cast}
use bento_box.Component.UserComponent.{UserComponent, set_value, type_or_default}
use bento_box.Component.UserComponent.Assignment.{
  assigned, of_schema, checked, by_schema, by_kind, numeric_scalar,
}
use bento_box.Component.UserComponent.Setting.{set_value-Stores}

-- the message for a value that is not of its own data type
unfoldable pub data_mismatch_message : Value → Result String
unfolding val_data_type_name val_stored_type_name
data_mismatch_message value =
    map_result
      (λ stored. joined (
        "Data stored in value and data type stored in value do not match. Data stored type: "
        ∷ stored
        ∷ ", data type: "
        ∷ val_data_type_name (type_or_default value.data_type)
        ∷ []))
      (val_stored_type_name value)

-- the message for a value that is not of the schema's type
unfoldable pub schema_mismatch_message : String → ProtoType → Value → String
unfolding val_data_type_name
schema_mismatch_message attr_name schema_type value = joined (
    "Data type of given value does not match component's schemaType for attribute "
    ∷ attr_name
    ∷ ". Expected: "
    ∷ val_data_type_name schema_type
    ∷ ", Got: "
    ∷ val_data_type_name (type_or_default value.data_type)
    ∷ "."
    ∷ [])

abbrev pub IsGiven : Result String → Type 0
IsGiven r = (text : String) × (r ≡ ok text)

message_of_scalar :
    (d : Option ProtoType) (k : ValueKind)
    → is_some (scalar_in (primitive_of k)) ≡ true
    → IsGiven (data_mismatch_message (record { data_type = d; kind = k }))
unfolding data_mismatch_message
message_of_scalar d (of_primitive value_not_set) h = cc
message_of_scalar d (of_primitive p) h = (_, refl)
message_of_scalar d k h = cc

module _ (m : Machine) where
  cast_never_raises : (k : Kind) (a : Scalar) (e : Error) (A : Type 0) → cast m k a ≡ err e → A
  unfolding cast
  cast_never_raises int32_kind (int32_of n) e A h = absurd (ground arith)
  cast_never_raises int32_kind a e A h = absurd (ground arith)
  cast_never_raises k a e A h = absurd (ground arith)

  converted_fits :
      (r : Result Scalar) (A : Type 0)
      → ((e : Error) → r ≡ err e → A)
      → map_result (set_val default_value) r ≡ err data_mismatch
      → A
  converted_fits (ok a) A h e = absurd (ground arith)
  converted_fits (err x) A h e = h x refl
  converted_fits undefined A h e = absurd (ground arith)

  by_kind_agrees :
      (k : Option Kind) (a : Option Scalar) (t : ProtoType) (v : Value) (A : Type 0)
      → by_kind m k a t v ≡ err data_mismatch
      → A
  by_kind_agrees (some k) (some a) t v A e =
      converted_fits (cast m k a) A (λ x. cast_never_raises k a x A) e
  by_kind_agrees (some k) none t v A e = absurd (ground arith)
  by_kind_agrees none a t v A e = absurd (ground arith)

  by_schema_agrees :
      (t : ProtoType) (v : Value) (A : Type 0) → by_schema m t v ≡ err data_mismatch → A
  by_schema_agrees (array_type ds p) v A e = absurd (ground arith)
  by_schema_agrees type_not_set v A e =
      by_kind_agrees none (numeric_scalar (scalar_of v)) type_not_set v A e
  by_schema_agrees (primitive_type p) v A e =
      by_kind_agrees (numeric_kind p) (numeric_scalar (scalar_of v)) (primitive_type p) v A e

  -- A value that does not agree with its data type holds one of the six C++ types.
  differs-is_some :
      (d : Option ProtoType) (a : Option Scalar)
      → is_some d ≡ true
      → data_type_agrees d a ≡ ok false
      → is_some a ≡ true
  differs-is_some none a s h = absurd (ground arith)
  differs-is_some (some (array_type ds p)) a s h = absurd (ground arith)
  differs-is_some (some type_not_set) a s h = absurd (ground arith)
  differs-is_some (some (primitive_type p)) none s h = absurd (ground arith)
  differs-is_some (some (primitive_type p)) (some a) s h = refl

  checked-is_some :
      (t : ProtoType) (v : Value) (r : Result Bool)
      → is_some v.data_type ≡ true
      → data_type_agrees v.data_type (scalar_of v) ≡ r
      → then_result r (checked m t v) ≡ err data_mismatch
      → ((x : Error) → r ≡ err x → x ≢ data_mismatch)
      → is_some (scalar_of v) ≡ true
  checked-is_some t v (ok true) s a e n = by_schema_agrees t v _ e
  checked-is_some t v (ok false) s a e n = differs-is_some v.data_type (scalar_of v) s a
  checked-is_some t v (err x) s a e n = absurd (n x refl (ground arith))
  checked-is_some t v undefined s a e n = absurd (ground arith)

  agrees_error :
      (d : Option ProtoType) (a : Option Scalar) (x : Error)
      → data_type_agrees d a ≡ err x
      → x ≢ data_mismatch
  agrees_error none a x e f = absurd (ground arith)
  agrees_error (some (array_type ds p)) a x e f = absurd (ground arith)
  agrees_error (some type_not_set) a x e f = absurd (ground arith)
  agrees_error (some (primitive_type p)) none x e f = absurd (ground arith)
  agrees_error (some (primitive_type p)) (some a) x e f = absurd (ground arith)

  of_schema-is_some :
      (o : Option ProtoType) (v : Value)
      → of_schema m o v ≡ err data_mismatch
      → is_some (scalar_of v) ≡ true
  of_schema-is_some none v e = absurd (ground arith)
  of_schema-is_some (some t) v e = elim (Bool-cases (is_some v.data_type)) [
    | inl s ↦
        checked-is_some t v (data_type_agrees v.data_type (scalar_of v)) s refl (rw s at e)
          (λ x. agrees_error v.data_type (scalar_of v) x)
    | inr s ↦ absurd (ground (arith, rw s at e))
  ]

  raised : (r : Result Value) (e : Error) → map_result (λ v. tt {0}) r ≡ err e → r ≡ err e
  raised (ok w) e h = absurd (ground arith)
  raised (err x) e h = ground arith
  raised undefined e h = absurd (ground arith)

  -- Whenever setValue throws because a value is not of its own data type, the text of the exception
  -- is defined: building it follows no null pointer.
  pub set_value-data_mismatch_message :
      (name : String) (v : Value) (c : UserComponent)
      → (set_value m name v c).0 ≡ err data_mismatch
      → IsGiven (data_mismatch_message v)
  set_value-data_mismatch_message name v c h = message_of_scalar v.data_type v.kind (
      of_schema-is_some (lookup name c.comp_def.schema) v
        (raised (assigned m c name v) data_mismatch (sym (set_value-Stores m name v c).result ∙ h)))
