-- ===== src/Proto/Messages.antt =====
-- protos/bento/protos/references.proto, graph.proto, ecs.proto and sim.proto. A message field that is
-- not set reads as the default message.
use bento_box.Base.{ℕ, String, List}
use bento_box.Std.Map.{Map}
use bento_box.Proto.Value.{ProtoType, Value}

pub record AttributeRef : Type 0 where
  pub entity_id : ℕ
  pub component : String
  pub attribute : String

-- `Node`, by its `oneof op`; a node that is not set is `op_not_set`
pub data Node : Type 0 where
  op_not_set : Node
  const_op : Value → Node
  retrieve_op : AttributeRef → Node
  mutate_op : Node → AttributeRef → Node
  -- condition, false and true node
  switch_op : Node → Node → Node → Node
  add_op sub_op mul_op div_op max_op min_op : Node → Node → Node
  abs_op floor_op ceil_op : Node → Node
  pow_op mod_op : Node → Node → Node
  sin_op arcsin_op cos_op arccos_op tan_op arctan_op : Node → Node
  -- low and high
  random_op : Node → Node → Node
  and_op or_op : Node → Node → Node
  not_op : Node → Node
  eq_op gt_op lt_op ge_op le_op : Node → Node → Node

-- `Node.Mutate`
pub record Mutate : Type 0 where
  pub to_node : Node
  pub mutate_attr : AttributeRef

pub record Graph : Type 0 where
  pub inputs : List AttributeRef
  pub outputs : List Mutate

pub record ComponentDef : Type 0 where
  pub name : String
  pub schema : Map String ProtoType

pub record EntityDef : Type 0 where
  pub id : ℕ
  pub components : List String

pub record SystemDef : Type 0 where
  pub id : ℕ
  pub graph : Graph

pub record SimulationDef : Type 0 where
  pub name : String
  pub entities : List EntityDef
  pub components : List ComponentDef
  pub systems : List SystemDef
  pub init_graph : Graph
