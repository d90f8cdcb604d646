-- ===== src/Proto/UserValue.antt =====
-- sim/include/proto/userValue.h and sim/src/proto/userValue.cpp: the six C++ types that a value may
-- hold, and code that is run at the type that a value turns out to have.
use bento_box.Base.{ℕ, Bool, true, false, ◌||◌, String, List, [], ◌∷◌, some}
use bento_box.Base.Int.{ℤ, pos}
use bento_box.Proto.Value.{
  TypePrimitive, ProtoType, primitive_type, ValuePrimitive, int_32, int_64, float_32, float_64,
  str_val, boolean, of_primitive, Value, primitive, type_primitive,
}

-- `ProtobufType`: INT32, INT64, FLOAT32, FLOAT64, STR, BOOL
pub data Kind : Type 0 where
  int32_kind int64_kind float32_kind float64_kind str_kind bool_kind : Kind

-- A C++ value of one of these types.
pub data Scalar : Type 0 where
  int32_of int64_of : ℤ → Scalar
  float32_of float64_of : ℕ → Scalar
  str_of : String → Scalar
  bool_of : Bool → Scalar

unfoldable pub kind_of : Scalar → Kind
kind_of (int32_of n) = int32_kind
kind_of (int64_of n) = int64_kind
kind_of (float32_of x) = float32_kind
kind_of (float64_of x) = float64_kind
kind_of (str_of s) = str_kind
kind_of (bool_of b) = bool_kind

-- `std::is_same_v`
abbrev pub same_kind : Kind → Kind → Bool
same_kind int32_kind int32_kind = true
same_kind int64_kind int64_kind = true
same_kind float32_kind float32_kind = true
same_kind float64_kind float64_kind = true
same_kind str_kind str_kind = true
same_kind bool_kind bool_kind = true
same_kind _ _ = false

-- `proto_NUMERIC` and `proto_ANY`
abbrev pub numeric : List Kind
numeric = int32_kind ∷ int64_kind ∷ float32_kind ∷ float64_kind ∷ []

abbrev pub any_kind : List Kind
any_kind = int32_kind ∷ int64_kind ∷ float32_kind ∷ float64_kind ∷ str_kind ∷ bool_kind ∷ []

-- the overloads of `setVal`
unfoldable pub set_val : Value → Scalar → Value
set_val v (int32_of n) = record v {
  data_type = some (primitive_type TypePrimitive.int32);
  kind = of_primitive (int_32 n);
}
set_val v (int64_of n) = record v {
  data_type = some (primitive_type TypePrimitive.int64);
  kind = of_primitive (int_64 n);
}
set_val v (float32_of x) = record v {
  data_type = some (primitive_type TypePrimitive.float32);
  kind = of_primitive (float_32 x);
}
set_val v (float64_of x) = record v {
  data_type = some (primitive_type TypePrimitive.float64);
  kind = of_primitive (float_64 x);
}
set_val v (str_of s) = record v {
  data_type = some (primitive_type TypePrimitive.string);
  kind = of_primitive (str_val s);
}
set_val v (bool_of b) = record v {
  data_type = some (primitive_type TypePrimitive.bool);
  kind = of_primitive (boolean b);
}

-- The getters of `Value.Primitive`, with the default of a field that is not set.
abbrev get_int_32 : ValuePrimitive → ℤ
get_int_32 (int_32 n) = n
get_int_32 _ = pos 0

abbrev get_int_64 : ValuePrimitive → ℤ
get_int_64 (int_64 n) = n
get_int_64 _ = pos 0

abbrev get_float_32 : ValuePrimitive → ℕ
get_float_32 (float_32 x) = x
get_float_32 _ = 0

abbrev get_float_64 : ValuePrimitive → ℕ
get_float_64 (float_64 x) = x
get_float_64 _ = 0

abbrev get_str_val : ValuePrimitive → String
get_str_val (str_val s) = s
get_str_val _ = ""

abbrev pub get_boolean : ValuePrimitive → Bool
get_boolean (boolean b) = b
get_boolean _ = false

-- the specialisations of `getVal`
unfoldable pub get_val : Kind → Value → Scalar
get_val int32_kind v = int32_of (get_int_32 (primitive v))
get_val int64_kind v = int64_of (get_int_64 (primitive v))
get_val float32_kind v = float32_of (get_float_32 (primitive v))
get_val float64_kind v = float64_of (get_float_64 (primitive v))
get_val str_kind v = str_of (get_str_val (primitive v))
get_val bool_kind v = bool_of (get_boolean (primitive v))

abbrev pub is_primitive_of_type : Kind → ValuePrimitive → Bool
is_primitive_of_type int32_kind (int_32 n) = true
is_primitive_of_type int64_kind (int_64 n) = true
is_primitive_of_type float32_kind (float_32 x) = true
is_primitive_of_type float64_kind (float_64 x) = true
is_primitive_of_type str_kind (str_val s) = true
is_primitive_of_type bool_kind (boolean b) = true
is_primitive_of_type _ _ = false

-- the specialisations of `isValOfType`
unfoldable pub is_val_of_type : Kind → Value → Bool
is_val_of_type k v = is_primitive_of_type k (primitive v)

unfoldable pub is_val_of_types : List Kind → Value → Bool
unfolding is_val_of_type
is_val_of_types [] v = false
is_val_of_types (k ∷ ks) v = is_val_of_type k v || is_val_of_types ks v

abbrev is_enumerator_of : Kind → TypePrimitive → Bool
is_enumerator_of int32_kind TypePrimitive.int32 = true
is_enumerator_of int64_kind TypePrimitive.int64 = true
is_enumerator_of float32_kind TypePrimitive.float32 = true
is_enumerator_of float64_kind TypePrimitive.float64 = true
is_enumerator_of str_kind TypePrimitive.string = true
is_enumerator_of bool_kind TypePrimitive.bool = true
is_enumerator_of _ _ = false

-- the specialisations of `isProtoTypeOfType`
unfoldable pub is_proto_type_of_type : Kind → ProtoType → Bool
is_proto_type_of_type k t = is_enumerator_of k (type_primitive t)

unfoldable pub is_proto_type_of_types : List Kind → ProtoType → Bool
unfolding is_proto_type_of_type
is_proto_type_of_types [] t = false
is_proto_type_of_types (k ∷ ks) t = is_proto_type_of_type k t || is_proto_type_of_types ks t

unfoldable pub type_in_types : Kind → List Kind → Bool
type_in_types k [] = false
type_in_types k (j ∷ ks) = same_kind k j || type_in_types k ks
