-- ===== src/Proto/Value.antt =====
-- protos/bento/protos/types.proto and values.proto. A `oneof` is a data type with one more
-- constructor for "not set"; an enum of proto3 is open. A getter of a field that is not set gives
-- its default.
use bento_box.Base.{ℕ, Bool, true, false, String, List, Option, none}
use bento_box.Base.Int.{ℤ}

-- `Type.Primitive`
pub data TypePrimitive : Type 0 where
  invalid byte int32 int64 float32 float64 bool string : TypePrimitive
  unrecognized : ℕ → TypePrimitive

-- `Type`
pub data ProtoType : Type 0 where
  type_not_set : ProtoType
  primitive_type : TypePrimitive → ProtoType
  array_type : List ℤ → TypePrimitive → ProtoType

-- `Value.Primitive`. The floats are their bit patterns.
pub data ValuePrimitive : Type 0 where
  value_not_set : ValuePrimitive
  int_8 int_32 int_64 : ℤ → ValuePrimitive
  float_32 float_64 : ℕ → ValuePrimitive
  str_val : String → ValuePrimitive
  boolean : Bool → ValuePrimitive

-- the `oneof kind` of `Value`
pub data ValueKind : Type 0 where
  kind_not_set : ValueKind
  of_primitive : ValuePrimitive → ValueKind
  of_array : List ValuePrimitive → ValueKind

pub record Value : Type 0 where
  pub data_type : Option ProtoType
  pub kind : ValueKind

-- `Value()`
abbrev pub default_value : Value
default_value = record { data_type = none; kind = kind_not_set }

abbrev pub primitive_of : ValueKind → ValuePrimitive
primitive_of (of_primitive p) = p
primitive_of _ = value_not_set

-- `value.primitive()`
abbrev pub primitive : Value → ValuePrimitive
primitive v = primitive_of v.kind

abbrev pub is_primitive : ValueKind → Bool
is_primitive (of_primitive p) = true
is_primitive _ = false

abbrev pub is_array : ValueKind → Bool
is_array (of_array ps) = true
is_array _ = false

-- `type.primitive()`
abbrev pub type_primitive : ProtoType → TypePrimitive
type_primitive (primitive_type p) = p
type_primitive _ = TypePrimitive.invalid

-- `type.has_array()`
abbrev pub has_array_type : ProtoType → Bool
has_array_type (array_type ds p) = true
has_array_type _ = false
