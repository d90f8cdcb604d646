-- ===== src/Proto/TypeNames.antt =====
-- sim/include/proto/valueType.h and sim/src/proto/valueType.cpp: names of the type that a value is
-- stored under and of the type that it says it has, for the messages of exceptions. The names of
-- fields and of enumerators are those of values.proto and types.proto.
use bento_box.Base.{String, List, [], ◌∷◌}
use bento_box.Base.Int.{ℤ}
use bento_box.Base.Text.{joined, to_string}
use bento_box.Exec.{Result, ok, undefined, map_result}
use bento_box.Proto.Value.{
  TypePrimitive, ProtoType, type_not_set, primitive_type, array_type, ValuePrimitive, value_not_set,
  int_8, int_32, int_64, float_32, float_64, str_val, boolean, ValueKind, kind_not_set,
  of_primitive, of_array, Value,
}

-- `descriptor()->FindFieldByNumber(value_case())->name()`: there is no field with the number of
-- VALUE_NOT_SET, and the null pointer is followed.
abbrev pub field_name : ValuePrimitive → Result String
field_name value_not_set = undefined
field_name (int_8 n) = ok "int_8"
field_name (int_32 n) = ok "int_32"
field_name (int_64 n) = ok "int_64"
field_name (float_32 x) = ok "float_32"
field_name (float_64 x) = ok "float_64"
field_name (str_val s) = ok "str_val"
field_name (boolean b) = ok "boolean"

-- the three overloads of `valStoredTypeName`
unfoldable pub primitive_stored_type_name : ValuePrimitive → Result String
primitive_stored_type_name val =
    map_result (λ name. joined ("Primitive[" ∷ name ∷ "]" ∷ [])) (field_name val)

unfoldable pub array_stored_type_name : List ValuePrimitive → Result String
unfolding primitive_stored_type_name
array_stored_type_name [] = ok "Array[Unknown]"
array_stored_type_name (first ∷ rest) =
    map_result (λ name. joined ("Array[Probably " ∷ name ∷ "]" ∷ []))
      (primitive_stored_type_name first)

abbrev kind_stored_type_name : ValueKind → Result String
kind_stored_type_name (of_primitive p) = primitive_stored_type_name p
kind_stored_type_name (of_array values) = array_stored_type_name values
kind_stored_type_name kind_not_set = ok "None"

unfoldable pub val_stored_type_name : Value → Result String
unfolding primitive_stored_type_name array_stored_type_name
val_stored_type_name val = kind_stored_type_name val.kind

-- `Type_Primitive_Name`, which is empty for a number that is no enumerator
abbrev pub enumerator_name : TypePrimitive → String
enumerator_name TypePrimitive.invalid = "INVALID"
enumerator_name TypePrimitive.byte = "BYTE"
enumerator_name TypePrimitive.int32 = "INT32"
enumerator_name TypePrimitive.int64 = "INT64"
enumerator_name TypePrimitive.float32 = "FLOAT32"
enumerator_name TypePrimitive.float64 = "FLOAT64"
enumerator_name TypePrimitive.bool = "BOOL"
enumerator_name TypePrimitive.string = "STRING"
enumerator_name (TypePrimitive.unrecognized n) = ""

-- the three overloads of `valDataTypeName`
unfoldable pub primitive_data_type_name : TypePrimitive → String
primitive_data_type_name val_type =
    joined ("Primitive.DataType[" ∷ enumerator_name val_type ∷ "]" ∷ [])

-- the dimensions after the first one
more_dimensions : List ℤ → String
unfolding to_string
more_dimensions [] = ""
more_dimensions (d ∷ rest) = joined (", " ∷ to_string d ∷ more_dimensions rest ∷ [])

unfoldable pub dimensions_text : List ℤ → String
unfolding more_dimensions to_string
dimensions_text [] = ""
dimensions_text (d ∷ rest) = joined (to_string d ∷ more_dimensions rest ∷ [])

unfoldable pub array_data_type_name : List ℤ → TypePrimitive → String
unfolding dimensions_text primitive_data_type_name
array_data_type_name dimensions element_type = joined (
    "Array[("
    ∷ dimensions_text dimensions
    ∷ "), dtype="
    ∷ primitive_data_type_name element_type
    ∷ "]"
    ∷ [])

unfoldable pub val_data_type_name : ProtoType → String
unfolding primitive_data_type_name array_data_type_name
val_data_type_name (primitive_type p) = primitive_data_type_name p
val_data_type_name (array_type dimensions p) = array_data_type_name dimensions p
val_data_type_name type_not_set = "None"
