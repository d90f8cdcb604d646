-- ===== src/Simulation/Definitions.antt =====
-- The map from component name to definition that the constructor of a simulation makes.
use bento_box.Base.{
  ◌≡◌, refl, true, String, List, [], ◌∷◌, Option, none, some, if◌then◌else◌, arith, str_eq,
}
use mathlib.Core.Path.{fun_ext}
use bento_box.Base.Classes.{string_eq}
use bento_box.Std.Map.{Map, lookup, put}
use bento_box.Std.Map.Laws.{lookup-put}
use bento_box.Proto.Messages.{ComponentDef}
use bento_box.Component.UserComponent.{UserComponent}
use bento_box.Simulation.Building.{component_for}
use bento_box.Simulation.{comp_def_map, def_or_default}

abbrev or_else : Option ComponentDef → Option ComponentDef → Option ComponentDef
or_else none o = o
or_else (some def) o = some def

-- The last definition of a name.
abbrev pub last_named : String → List ComponentDef → Option ComponentDef
last_named name [] = none
last_named name (def ∷ rest) =
    or_else (last_named name rest) (if str_eq def.name name then some def else none)

abbrev or_empty : Option ComponentDef → ComponentDef
or_empty none = record { name = ""; schema = [] }
or_empty (some def) = def

-- The definition that a name stands for: the last of that name, or else an empty one.
abbrev pub def_named : String → List ComponentDef → ComponentDef
def_named name defs = or_empty (last_named name defs)

lookup-comp_def_map :
    (name : String) (defs : List ComponentDef) (m : Map String ComponentDef)
    → lookup name (comp_def_map defs m) ≡ or_else (last_named name defs) (lookup name m)
unfolding comp_def_map
lookup-comp_def_map name [] m = refl
lookup-comp_def_map name (def ∷ rest) m =
    ground
      (arith, lookup-comp_def_map name rest (put def.name def m), lookup-put def.name name def m)

pub found-def_named :
    (name : String) (defs : List ComponentDef)
    → def_or_default (lookup name (comp_def_map defs [])) ≡ def_named name defs
unfolding lookup
found-def_named name defs = ground (arith, lookup-comp_def_map name defs [])

-- The component that is made for a name: without values, under the definition of that name.
abbrev pub component_named : List ComponentDef → String → UserComponent
component_named defs name = record {
  is_active = true;
  values = [];
  type_name = name;
  comp_def = def_named name defs;
}

pub component_for-component_named :
    (defs : List ComponentDef) → component_for (comp_def_map defs []) ≡ component_named defs
component_for-component_named defs = fun_ext λ name. rw (found-def_named name defs) refl
