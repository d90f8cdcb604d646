-- ===== src/Component/UserComponent.antt =====
-- sim/include/component/userComponent.h and sim/src/component/userComponent.cpp: a component whose
-- attributes are named by strings.
pub mod Attributes
pub mod Assignment
pub mod Setting
pub mod Typing
pub mod Messages
use bento_box.Base.{
  ◌≡◌, refl, Bool, true, false, ◌&&◌, ◌||◌, not, String, Option, none, some, List, [],
  if◌then◌else◌,
}
use bento_box.Base.Int.{pos}
use bento_box.Base.Classes.{string_eq}
use bento_box.Exec.{
  Exec, Result, ok, err, unset_value, no_such_attribute, missing_data_type, data_mismatch,
  schema_mismatch, pure, raise, lift, gets, asks, modify, ◌>>=◌, ◌>>◌,
}
use bento_box.Std.Map.{Map, lookup, contains, insert, put, is_some, at as map_find}
use bento_box.Core.Component.{Component}
use bento_box.Proto.Value.{
  ProtoType, type_not_set, Value, default_value, has_array_type, is_primitive, is_array,
}
use bento_box.Proto.Messages.{ComponentDef}
use bento_box.Proto.UserValue.{
  Kind, Scalar, int32_of, numeric, set_val, is_proto_type_of_types, is_val_of_types,
}
use bento_box.Proto.Dispatch.{run_fn_with_val, run_fn_with_val_type, val_has_correct_data_type}
use bento_box.Machine.{Machine, cast}

pub record UserComponent : Type 0 where
  pub is_active : Bool
  pub values : Map String Value
  pub type_name : String
  pub comp_def : ComponentDef

pub deactivate : UserComponent → UserComponent
deactivate c = record c { is_active = false }

pub is_active-deactivate : (c : UserComponent) → (deactivate c).is_active ≡ false
unfolding deactivate
is_active-deactivate c = refl

instance abbrev pub user_component : Component UserComponent
user_component = record {
  is_active = λ c. c.is_active;
  deactivate = deactivate;
  deactivated = is_active-deactivate;
}

-- the constructor
abbrev pub make : String → ComponentDef → UserComponent
make type_name comp_def = record {
  is_active = true;
  values = [];
  type_name = type_name;
  comp_def = comp_def;
}

-- `val.has_primitive() || val.has_array()`
abbrev pub is_set : Value → Bool
is_set v = is_primitive v.kind || is_array v.kind

-- `values[attrName]` makes a default value where there is none.
unfoldable pub touch : String → UserComponent → UserComponent
touch attr_name c = record c { values = insert attr_name default_value c.values }

abbrev value_or_default : Option Value → Value
value_or_default none = default_value
value_or_default (some v) = v

-- The value behind the reference that `values[attrName]` gives.
unfoldable pub stored : String → UserComponent → Value
stored attr_name c = value_or_default (lookup attr_name c.values)

unfoldable pub get_mutable_value : String → Exec UserComponent Value
unfolding touch stored
get_mutable_value attr_name = do
  modify (touch attr_name)
  val ← gets (stored attr_name)
  if is_set val then pure val else raise unset_value

unfoldable pub get_value : String → Exec UserComponent Value
unfolding get_mutable_value
get_value attr_name = get_mutable_value attr_name

-- an assignment through that reference
unfoldable pub assign : String → Value → UserComponent → UserComponent
assign attr_name v c = record c { values = put attr_name v c.values }

-- `value.data_type()`
abbrev type_or_default : Option ProtoType → ProtoType
type_or_default none = type_not_set
type_or_default (some t) = t

module _ (m : Machine) where
  -- `proto::setVal(valToSet, (Y)x)`
  unfoldable pub set_converted : String → Scalar → Kind → Exec UserComponent (Unit {0})
  unfolding assign stored
  set_converted attr_name x y = do
    converted ← lift (cast m y x)
    val_to_set ← gets (stored attr_name)
    modify (assign attr_name (set_val val_to_set converted))

  unfoldable pub set_by_type : String → Value → ProtoType → Exec UserComponent (Unit {0})
  unfolding set_converted assign
  set_by_type attr_name value schema_type =
      if has_array_type schema_type
      then modify (assign attr_name value)
      else if is_proto_type_of_types numeric schema_type && is_val_of_types numeric value
      then (do
        run_fn_with_val numeric value λ x. do
          run_fn_with_val_type numeric schema_type (set_converted attr_name x)
          pure (int32_of (pos 3))
        pure tt)
      else if not (m.compare_types (type_or_default value.data_type) schema_type)
      then raise schema_mismatch
      else modify (assign attr_name value)

  unfoldable pub set_value : String → Value → Exec UserComponent (Unit {0})
  unfolding touch
  set_value attr_name value = do
    known ← gets (λ c. contains attr_name c.comp_def.schema)
    if not known then raise no_such_attribute else pure tt
    if not (is_some value.data_type) then raise missing_data_type else pure tt
    correct ← lift (val_has_correct_data_type value)
    if not correct then raise data_mismatch else pure tt
    modify (touch attr_name)
    schema_type ← asks (λ c. map_find attr_name c.comp_def.schema)
    set_by_type attr_name value schema_type
