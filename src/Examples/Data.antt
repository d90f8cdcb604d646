-- ===== src/Examples/Data.antt =====
-- Concrete data: a machine, and a simulation of one counter.
use bento_box.Base.{
  ℕ, ◌+◌, ◌-◌, ◌*◌, ◌/◌, ◌^◌, Bool, true, false, ◌&&◌, List, [], ◌∷◌, some, nat_eqb, ltb, leb,
}
use bento_box.Base.Int.{ℤ, pos, eqb_ℤ, magnitude}
use bento_box.Core.CompVec.{CompVec}
use bento_box.Core.ComponentStore.{ComponentStore}
use bento_box.Index.TypeIndex.{TypeIndex}
use bento_box.Proto.Value.{
  TypePrimitive, ProtoType, type_not_set, primitive_type, array_type, Value, of_primitive, int_32,
  int_64, of_array,
}
use bento_box.Proto.Messages.{
  AttributeRef, Node, const_op, retrieve_op, add_op, ComponentDef, SimulationDef,
}
use bento_box.Machine.{FloatOps, Machine}
use bento_box.World.{World}
use bento_box.Component.UserComponent.{UserComponent, make}
use bento_box.Simulation.{Simulation}
use bento_box.Service.{Engine}

-- A format whose patterns are the natural numbers themselves.
abbrev whole_numbers : FloatOps
whole_numbers = record {
  of_int = λ n. magnitude n;
  to_int = λ x. some (pos x);
  add = λ x y. x + y;
  sub = λ x y. x - y;
  mul = λ x y. x * y;
  div = λ x y. x / y;
  pow = λ x y. x ^ y;
  lt = λ x y. ltb x y;
  le = λ x y. leb x y;
  eq = λ x y. nat_eqb x y;
  abs = λ x. x;
  floor = λ x. x;
  ceil = λ x. x;
  sin = λ x. x;
  asin = λ x. x;
  cos = λ x. x;
  acos = λ x. x;
  tan = λ x. x;
  atan = λ x. x;
}

abbrev pub number_of : TypePrimitive → ℕ
number_of TypePrimitive.invalid = 0
number_of TypePrimitive.byte = 1
number_of TypePrimitive.int32 = 2
number_of TypePrimitive.int64 = 3
number_of TypePrimitive.float32 = 4
number_of TypePrimitive.float64 = 5
number_of TypePrimitive.bool = 6
number_of TypePrimitive.string = 7
number_of (TypePrimitive.unrecognized n) = 8 + n

abbrev pub same_dimensions : List ℤ → List ℤ → Bool
same_dimensions [] [] = true
same_dimensions (x ∷ xs) (y ∷ ys) = eqb_ℤ x y && same_dimensions xs ys
same_dimensions _ _ = false

abbrev pub same_type : ProtoType → ProtoType → Bool
same_type type_not_set type_not_set = true
same_type (primitive_type p) (primitive_type q) = nat_eqb (number_of p) (number_of q)
same_type (array_type ds p) (array_type es q) =
    same_dimensions ds es && nat_eqb (number_of p) (number_of q)
same_type _ _ = false

abbrev pub machine : Machine
machine = record {
  single = whole_numbers;
  double = whole_numbers;
  widen = λ x. x;
  narrow = λ x. x;
  uniform_single = λ n low high. low;
  uniform_double = λ n low high. low;
  compare_types = same_type;
}

abbrev pub int32_value : ℤ → Value
int32_value n = record {
  data_type = some (primitive_type TypePrimitive.int32);
  kind = of_primitive (int_32 n);
}

abbrev pub int64_value : ℤ → Value
int64_value n = record {
  data_type = some (primitive_type TypePrimitive.int64);
  kind = of_primitive (int_64 n);
}

abbrev pub array_value : Value
array_value = record {
  data_type = some (array_type (pos 2 ∷ []) TypePrimitive.int32);
  kind = of_array (int_32 (pos 1) ∷ int_32 (pos 2) ∷ []);
}

abbrev pub counter_def : ComponentDef
counter_def = record {
  name = "counter";
  schema =
      ("count", primitive_type TypePrimitive.int32)
      ∷ ("history", array_type (pos 2 ∷ []) TypePrimitive.int32)
      ∷ [];
}

abbrev pub count : AttributeRef
count = record { entity_id = 1; component = "counter"; attribute = "count" }

-- count + 1, with the one as an int64
abbrev pub next_count : Node
next_count = add_op (retrieve_op count) (const_op (int64_value (pos 1)))

abbrev pub counting : SimulationDef
counting = record {
  name = "counting";
  entities = record { id = 1; components = "counter" ∷ [] } ∷ [];
  components = counter_def ∷ [];
  systems =
      record {
        id = 1;
        graph = record {
          inputs = count ∷ [];
          outputs = record { to_node = next_count; mutate_attr = count } ∷ [];
        };
      }
      ∷ [];
  init_graph = record {
    inputs = [];
    outputs = record { to_node = const_op (int32_value (pos 40)); mutate_attr = count } ∷ [];
  };
}

-- A counter that was set, one that was not, and a vector of both.
abbrev pub fresh_counter : UserComponent
fresh_counter = make "counter" counter_def

abbrev pub set_counter : UserComponent
set_counter = record fresh_counter { values = ("count", int32_value (pos 40)) ∷ [] }

abbrev pub two_counters : CompVec UserComponent
two_counters = record {
  last_id = 2;
  id_to_index = (2, 1) ∷ (1, 0) ∷ [];
  inactive_comp_idx = [];
  vec = set_counter ∷ fresh_counter ∷ [];
}

abbrev pub two_counters_store : ComponentStore UserComponent
two_counters_store = (0, two_counters) ∷ []

abbrev pub one_type : TypeIndex
one_type = record { type_name_group_map = ("counter", 0) ∷ []; comp_group = 1 }

abbrev pub counting_world : World
counting_world = record {
  comp_store = two_counters_store;
  index_store = record {
    component_type = one_type;
    entity = record {
      next_entity_id = 3;
      entity_comp_map = (1, (0, 1) ∷ []) ∷ (2, (0, 2) ∷ []) ∷ [];
    };
  };
  draws = 0;
}

abbrev pub locked_counting : Simulation
locked_counting = record {
  sim_def = counting;
  comp_store = counting_world.comp_store;
  index_store = counting_world.index_store;
  locked = true;
}

abbrev pub stepped_engine : Engine
stepped_engine = record { sims = ("counting", locked_counting) ∷ []; draws = 0 }
