-- ===== src/ValueNames.antt =====
-- sim/include/userValue.h and sim/src/userValue.cpp: the older names of types, which no code calls
-- any more. Unlike those of Proto/TypeNames they are given for every value.
use bento_box.Base.{String, List, [], ◌∷◌}
use bento_box.Base.Int.{ℤ}
use bento_box.Base.Text.{joined}
use bento_box.Proto.Value.{
  TypePrimitive, ProtoType, type_not_set, primitive_type, array_type, ValuePrimitive, value_not_set,
  int_8, int_32, int_64, float_32, float_64, str_val, boolean, ValueKind, kind_not_set,
  of_primitive, of_array, Value,
}
use bento_box.Proto.TypeNames.{dimensions_text}

abbrev value_label : ValuePrimitive → String
value_label (int_8 n) = "8-bit Integer"
value_label (int_32 n) = "32-bit Integer"
value_label (int_64 n) = "64-bit Integer"
value_label (float_32 x) = "32-bit Float"
value_label (float_64 x) = "64-bit Float"
value_label (str_val s) = "String"
value_label (boolean b) = "Boolean"
value_label value_not_set = "None"

unfoldable pub primitive_stored_type_name : ValuePrimitive → String
primitive_stored_type_name val = joined ("Primitive[" ∷ value_label val ∷ "]" ∷ [])

unfoldable pub array_stored_type_name : List ValuePrimitive → String
unfolding primitive_stored_type_name
array_stored_type_name [] = "Array[Unknown]"
array_stored_type_name (first ∷ rest) =
    joined ("Array[Probably " ∷ primitive_stored_type_name first ∷ "]" ∷ [])

abbrev kind_stored_type_name : ValueKind → String
kind_stored_type_name (of_primitive p) = primitive_stored_type_name p
kind_stored_type_name (of_array values) = array_stored_type_name values
kind_stored_type_name kind_not_set = "None"

unfoldable pub val_stored_type_name : Value → String
unfolding primitive_stored_type_name array_stored_type_name
val_stored_type_name val = kind_stored_type_name val.kind

abbrev type_label : TypePrimitive → String
type_label TypePrimitive.invalid = "Invalid"
type_label TypePrimitive.byte = "Byte"
type_label TypePrimitive.int32 = "32-bit Integer"
type_label TypePrimitive.int64 = "64-bit Integer"
type_label TypePrimitive.float32 = "32-bit Float"
type_label TypePrimitive.float64 = "64-bit Float"
type_label TypePrimitive.bool = "Boolean"
type_label TypePrimitive.string = "String"
type_label (TypePrimitive.unrecognized n) = "Unknown"

unfoldable pub primitive_data_type_name : TypePrimitive → String
primitive_data_type_name val_type = joined ("Primitive.DataType[" ∷ type_label val_type ∷ "]" ∷ [])

unfoldable pub array_data_type_name : List ℤ → TypePrimitive → String
unfolding dimensions_text primitive_data_type_name
array_data_type_name dimensions element_type = joined (
    "Array[("
    ∷ dimensions_text dimensions
    ∷ "), dtype="
    ∷ primitive_data_type_name element_type
    ∷ "]"
    ∷ [])

unfoldable pub val_data_type_name : ProtoType → String
unfolding primitive_data_type_name array_data_type_name
val_data_type_name (primitive_type p) = primitive_data_type_name p
val_data_type_name (array_type dimensions p) = array_data_type_name dimensions p
val_data_type_name type_not_set = "None"
