-- ===== src/Component/UserComponent/Setting.antt =====
-- `setValue` against its specification, which is `assigned` of Assignment.
use bento_box.Base.{
  ◌≡◌, refl, Bool, true, false, String, Option, none, some, if◌then◌else◌, arith, str_eq, ◌∙◌, sym,
  Bool-cases, inl, inr,
}
use bento_box.Base.Classes.{string_eq}
use bento_box.Exec.{
  Result, ok, err, undefined, no_such_attribute, missing_data_type, data_mismatch, schema_mismatch,
  map_result, then_result,
}
use bento_box.Std.Map.{lookup, is_some}
use bento_box.Proto.Value.{
  ProtoType, type_not_set, primitive_type, array_type, Value, ValueKind, of_primitive, kind_not_set,
  of_array, default_value, primitive_of,
}
use bento_box.Proto.UserValue.{Kind, Scalar, int32_of, set_val}
use bento_box.Proto.Dispatch.Typed.{scalar_of, scalar_in}
use bento_box.Proto.Dispatch.DataType.{
  numeric_kind, data_type_agrees, val_has_correct_data_type-data_type_agrees,
}
use bento_box.Machine.{Machine, cast}
use bento_box.Component.UserComponent.{UserComponent, is_set, touch, set_value, assign}
use bento_box.Component.UserComponent.Attributes.{attribute, attribute-touch, attribute-assign}
use bento_box.Component.UserComponent.Assignment.{
  assigned, of_schema, checked, by_schema, by_kind, outcome, set_by_type_lem, checked_lem,
  unchecked_lem, numeric_scalar,
}

-- What the attributes are once `name` was to take the value `r`.
abbrev pub attribute_after : String → Result Value → UserComponent → String → Option Value
attribute_after name (ok w) c j = if str_eq name j then some w else attribute c j
attribute_after name r c j = attribute c j

-- A run that stored `r` under `name` in `c`, and changed nothing else that can be seen.
pub record Stores (name : String) (r : Result Value) (c : UserComponent)
    (run : Result (Unit {0}) × UserComponent) : Type 0 where
  pub result : run.0 ≡ map_result (λ _. tt) r
  pub active : run.1.is_active ≡ c.is_active
  pub type_name : run.1.type_name ≡ c.type_name
  pub def : run.1.comp_def ≡ c.comp_def
  pub attributes : (j : String) → attribute run.1 j ≡ attribute_after name r c j

abbrev AllSet : Result Value → Type 0
AllSet (ok w) = is_set w ≡ true
AllSet r = Unit

scalar_set :
    (k : ValueKind) (d : Option ProtoType)
    → is_some (scalar_in (primitive_of k)) ≡ true
    → is_set (record { data_type = d; kind = k }) ≡ true
scalar_set (of_primitive p) d h = refl
scalar_set kind_not_set d h = cc
scalar_set (of_array ps) d h = refl

set_val-is_set : (a : Scalar) → is_set (set_val default_value a) ≡ true
unfolding set_val
set_val-is_set (int32_of n) = refl
set_val-is_set a = refl

module _ (m : Machine) where
  converted_set : (r : Result Scalar) → AllSet (map_result (set_val default_value) r)
  converted_set (ok a) = set_val-is_set a
  converted_set (err x) = tt
  converted_set undefined = tt

  same_set :
      (b : Bool) (v : Value) → is_set v ≡ true → AllSet (if b then ok v else err schema_mismatch)
  same_set true v h = h
  same_set false v h = tt

  by_kind_set :
      (k : Option Kind) (a : Option Scalar) (t : ProtoType) (v : Value)
      → is_set v ≡ true
      → AllSet (by_kind m k a t v)
  by_kind_set (some k) (some a) t v h = converted_set (cast m k a)
  by_kind_set (some k) none t v h = same_set _ v h
  by_kind_set none a t v h = same_set _ v h

  by_schema_set : (t : ProtoType) (v : Value) → is_set v ≡ true → AllSet (by_schema m t v)
  by_schema_set (array_type ds p) v h = h
  by_schema_set type_not_set v h = by_kind_set none (numeric_scalar (scalar_of v)) type_not_set v h
  by_schema_set (primitive_type p) v h =
      by_kind_set (numeric_kind p) (numeric_scalar (scalar_of v)) (primitive_type p) v h

  stored_attribute :
      (name : String) (c : UserComponent) (w : Value)
      → is_set w ≡ true
      → (j : String)
      → attribute (assign name w (touch name c)) j
        ≡ (if str_eq name j then some w else attribute c j)
  stored_attribute name c w h j =
      ground (arith, attribute-assign (touch name c) name j w h, attribute-touch c name j)

  Stores-by :
      (name : String) (c : UserComponent) (r : Result Value)
      → AllSet r
      → Stores name r c (outcome m name r (touch name c))
  unfolding touch assign
  Stores-by name c (ok w) h = record {
    result = refl;
    active = refl;
    type_name = refl;
    def = refl;
    attributes = stored_attribute name c w h;
  }
  Stores-by name c (err x) h = record {
    result = refl;
    active = refl;
    type_name = refl;
    def = refl;
    attributes = λ j. attribute-touch c name j;
  }
  Stores-by name c undefined h = record {
    result = refl;
    active = refl;
    type_name = refl;
    def = refl;
    attributes = λ j. attribute-touch c name j;
  }

  Stores-none :
      (name : String) (c : UserComponent) (r : Result Value) (x : Result (Unit {0}))
      → x ≡ map_result (λ _. tt) r
      → ((j : String) → attribute_after name r c j ≡ attribute c j)
      → Stores name r c (x, c)
  Stores-none name c r x e h = record {
    result = e;
    active = refl;
    type_name = refl;
    def = refl;
    attributes = λ j. sym (h j);
  }

  agrees_set :
      (d : Option ProtoType) (a : Option Scalar) → data_type_agrees d a ≡ ok true → is_some a ≡ true
  agrees_set none a h = absurd (ground arith)
  agrees_set (some (array_type ds p)) a h = absurd (ground arith)
  agrees_set (some type_not_set) a h = absurd (ground arith)
  agrees_set (some (primitive_type p)) none h = absurd (ground arith)
  agrees_set (some (primitive_type p)) (some a) h = refl

  with_data_type :
      (name : String) (v : Value) (c : UserComponent) (t : ProtoType) (r : Result Bool)
      → lookup name c.comp_def.schema ≡ some t
      → is_some v.data_type ≡ true
      → data_type_agrees v.data_type (scalar_of v) ≡ r
      → Stores name (then_result r (checked m t v)) c (set_value m name v c)
  with_data_type name v c t (ok true) e h f =
      rw
        (
          checked_lem m name v c t (ok true) e h (val_has_correct_data_type-data_type_agrees v ∙ f),
          set_by_type_lem m name v t (touch name c),
        )
        (Stores-by name c (by_schema m t v) (
          by_schema_set t v
            (scalar_set v.kind v.data_type (agrees_set v.data_type (scalar_of v) f))))
  with_data_type name v c t (ok false) e h f =
      rw
        (checked_lem m name v c t (ok false) e h (val_has_correct_data_type-data_type_agrees v ∙ f))
        (Stores-none name c (err data_mismatch) (err data_mismatch) refl (λ j. refl))
  with_data_type name v c t (err x) e h f =
      rw (checked_lem m name v c t (err x) e h (val_has_correct_data_type-data_type_agrees v ∙ f))
        (Stores-none name c (err x) (err x) refl (λ j. refl))
  with_data_type name v c t undefined e h f =
      rw (checked_lem m name v c t undefined e h (val_has_correct_data_type-data_type_agrees v ∙ f))
        (Stores-none name c undefined undefined refl (λ j. refl))

  with_schema :
      (name : String) (v : Value) (c : UserComponent) (o : Option ProtoType)
      → lookup name c.comp_def.schema ≡ o
      → Stores name (of_schema m o v) c (set_value m name v c)
  with_schema name v c none e =
      rw ((unchecked_lem m name v c).0 e)
        (Stores-none name c (err no_such_attribute) (err no_such_attribute) refl (λ j. refl))
  with_schema name v c (some t) e = elim (Bool-cases (is_some v.data_type)) [
    | inl h ↦ rw h (with_data_type name v c t _ e h refl)
    | inr h ↦
        rw (h, (unchecked_lem m name v c).1 (rw e) h)
          (Stores-none name c (err missing_data_type) (err missing_data_type) refl (λ j. refl))
  ]

  -- setValue stores the value that its specification gives, so that the attribute reads it
  -- afterwards, or raises the exception that it gives and leaves every attribute as it was.
  pub set_value-Stores :
      (name : String) (v : Value) (c : UserComponent)
      → Stores name (assigned m c name v) c (set_value m name v c)
  set_value-Stores name v c = with_schema name v c (lookup name c.comp_def.schema) refl
