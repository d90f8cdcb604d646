-- ===== src/TestSimulation.antt =====
-- sim/test_include/test_simulation.h and sim/src/test_simulation.cpp: the small simulation that the
-- engine's tests share. One component counts up to 101 and starts again.
pub mod Cycle
pub mod Liveness
use bento_box.Base.{ℕ, String, List, [], ◌∷◌, some}
use bento_box.Base.Int.{ℤ, pos}
use bento_box.Exec.{Exec, Result, ◌>>=◌, ◌>>◌}
use bento_box.Proto.Value.{TypePrimitive, primitive_type, Value, of_primitive, int_64}
use bento_box.Proto.Messages.{
  AttributeRef, Node, const_op, retrieve_op, switch_op, add_op, gt_op, Graph, ComponentDef,
  EntityDef, SystemDef, SimulationDef,
}
use bento_box.Machine.{Machine}
use bento_box.Component.UserComponent.{UserComponent, make, set_value}
use bento_box.Interp.Refs.{create_attr_ref, create_simple_comp_def}

abbrev pub test_component_name : String
test_component_name = "TestComponent"

unfoldable pub create_comp_def : ComponentDef
unfolding create_simple_comp_def
create_comp_def =
    create_simple_comp_def test_component_name
      (("height", TypePrimitive.int64) ∷ ("width", TypePrimitive.int64) ∷ [])

-- `set_int_64(n)` and the data type INT64
abbrev pub int64_value : ℤ → Value
int64_value n = record {
  data_type = some (primitive_type TypePrimitive.int64);
  kind = of_primitive (int_64 n);
}

-- `TestComponent(width, height)`
unfoldable pub test_component : Machine → ℤ → ℤ → Result (Unit {0}) × UserComponent
unfolding create_comp_def ◌>>=◌ set_value
test_component m width height =
    (set_value m "width" (int64_value width) >> set_value m "height" (int64_value height))
      (make test_component_name create_comp_def)

-- the node that `cycle100System` stores: 0 above 100, and otherwise one more
unfoldable pub next_height : AttributeRef → Node
next_height attr_ref =
    switch_op (gt_op (retrieve_op attr_ref) (const_op (int64_value (pos 100))))
      (add_op (retrieve_op attr_ref) (const_op (int64_value (pos 1))))
      (const_op (int64_value (pos 0)))

unfoldable pub cycle100_system : AttributeRef → SystemDef
unfolding next_height
cycle100_system attr_ref = record {
  id = 1;
  graph = record {
    inputs = attr_ref ∷ [];
    outputs = record { to_node = next_height attr_ref; mutate_attr = attr_ref } ∷ [];
  };
}

abbrev pub sim_name : String
sim_name = "Test Simulation"

abbrev pub comp_start_val : ℤ
comp_start_val = pos 30

abbrev pub entity_id : ℕ
entity_id = 1

unfoldable pub height_ref : AttributeRef
unfolding create_attr_ref create_comp_def
height_ref = create_attr_ref create_comp_def.name entity_id "height"

unfoldable pub width_ref : AttributeRef
unfolding create_attr_ref create_comp_def
width_ref = create_attr_ref create_comp_def.name entity_id "width"

abbrev pub entity_def : EntityDef
entity_def = record { id = entity_id; components = test_component_name ∷ [] }

abbrev start_val_node : Node
start_val_node = const_op (int64_value comp_start_val)

unfoldable pub init_graph : Graph
unfolding height_ref width_ref
init_graph = record {
  inputs = height_ref ∷ width_ref ∷ [];
  outputs =
      record { to_node = start_val_node; mutate_attr = height_ref }
      ∷ record { to_node = start_val_node; mutate_attr = width_ref }
      ∷ [];
}

-- the `simDef` that the constructor of `TestSimulation` fills
unfoldable pub sim_def : SimulationDef
unfolding create_comp_def cycle100_system height_ref init_graph
sim_def = record {
  name = sim_name;
  components = create_comp_def ∷ [];
  entities = entity_def ∷ [];
  systems = cycle100_system height_ref ∷ [];
  init_graph = init_graph;
}
