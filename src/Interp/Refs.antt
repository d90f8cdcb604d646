-- ===== src/Interp/Refs.antt =====
-- sim/include/interpreter/util.h and sim/src/interpreter/util.cpp
use bento_box.Base.{ℕ, String, List, [], ◌∷◌}
use bento_box.Base.Classes.{string_eq}
use bento_box.Std.Map.{Map, put}
use bento_box.Proto.Value.{TypePrimitive, ProtoType, primitive_type}
use bento_box.Proto.Messages.{AttributeRef, ComponentDef}

unfoldable pub create_attr_ref : String → ℕ → String → AttributeRef
create_attr_ref comp_name entity_id attr_name = record {
  entity_id = entity_id;
  component = comp_name;
  attribute = attr_name;
}

-- `compSchema[pair.first] = type`, for each pair in turn
unfoldable pub fill_schema :
    List (String × TypePrimitive) → Map String ProtoType → Map String ProtoType
unfolding put
fill_schema [] schema = schema
fill_schema ((attr_name, type) ∷ rest) schema =
    fill_schema rest (put attr_name (primitive_type type) schema)

unfoldable pub create_simple_comp_def : String → List (String × TypePrimitive) → ComponentDef
unfolding fill_schema
create_simple_comp_def name schema = record { name = name; schema = fill_schema schema [] }
