-- ===== src/Component/Predefined.antt =====
-- sim/include/component/pos1DComponent.h, pos2DComponent.h and textureComponent.h: components that
-- the engine defines by itself.
use bento_box.Base.{String, []}
use bento_box.Base.Classes.{string_eq}
use bento_box.Std.Map.{Map, put}
use bento_box.Proto.Value.{TypePrimitive, ProtoType, primitive_type}
use bento_box.Proto.Messages.{ComponentDef}
use bento_box.Component.UserComponent.{UserComponent, make}

-- `schema[name] = Type()` and `schema[name].set_primitive(INT64)`
abbrev int64_attribute : String → Map String ProtoType → Map String ProtoType
int64_attribute name schema = put name (primitive_type TypePrimitive.int64) schema

abbrev pub pos1d_component_name : String
pos1d_component_name = "Pos1DComponent"

unfoldable pub pos1d_comp_def : ComponentDef
unfolding put
pos1d_comp_def = record { name = pos1d_component_name; schema = int64_attribute "x" [] }

unfoldable pub pos1d_component : UserComponent
unfolding pos1d_comp_def
pos1d_component = make pos1d_component_name pos1d_comp_def

abbrev pub pos2d_component_name : String
pos2d_component_name = "Pos2DComponent"

unfoldable pub pos2d_comp_def : ComponentDef
unfolding put
pos2d_comp_def = record {
  name = pos2d_component_name;
  schema = int64_attribute "y" (int64_attribute "x" []);
}

unfoldable pub pos2d_component : UserComponent
unfolding pos2d_comp_def
pos2d_component = make pos2d_component_name pos2d_comp_def

abbrev pub texture2d_component_name : String
texture2d_component_name = "Texture2DComponent"

unfoldable pub texture2d_comp_def : ComponentDef
unfolding put
texture2d_comp_def = record {
  name = texture2d_component_name;
  schema = int64_attribute "texture" [];
}

unfoldable pub texture2d_component : UserComponent
unfolding texture2d_comp_def
texture2d_component = make texture2d_component_name texture2d_comp_def
