-- ===== src/Examples/Cycles.antt =====
-- The theorems on reading, writing and stepping, at concrete inputs; the engine of the last one
-- holds the test simulation after it was built.
use bento_box.Base.{
  ℕ, zero, suc, ◌≡◌, ◌≤◌, refl, true, false, ◌&&◌, [], ◌∷◌, arith, leb, nat_eqb, Bool-cases, inl,
  inr, if◌then◌else◌,
}
use mathlib.Core.Path.{subst}
use bento_box.Base.Int.{pos}
use bento_box.Base.Classes.{string_eq, nat_eq, pair_eq, pair_beq}
use bento_box.Exec.{ok, err, or_raise, unset_value, data_mismatch, map_result, pure, ◌>>=◌}
use bento_box.Std.Map.{lookup, is_some, contains}
use bento_box.Std.Set
use bento_box.Core.CompVec
use bento_box.Core.CompVec.{CompVec}
use bento_box.Core.CompVec.Invariant.{IsWellFormed}
use bento_box.Core.CompVec.Refinement.{view}
use bento_box.Core.CompVec.Dense.{IsDense}
use bento_box.Core.ComponentStore.{ComponentStore, CompStoreId}
use bento_box.Core.ComponentStore.Listing.{IsDenseStore}
use bento_box.Proto.Value.{Value, of_primitive, boolean}
use bento_box.Proto.Dispatch.{val_has_correct_data_type, run_fn_with_val_type, run_fn_with_val}
use bento_box.Proto.UserValue.{kind_of}
use bento_box.Component.UserComponent.{UserComponent, user_component, make, set_value}
use bento_box.Component.UserComponent.Assignment.{assigned}
use bento_box.Component.UserComponent.Attributes.{attribute}
use bento_box.Component.UserComponent.Setting.{attribute_after}
use bento_box.Component.UserComponent.Messages.{
  data_mismatch_message, IsGiven, set_value-data_mismatch_message,
}
use bento_box.World.{World, locate}
use bento_box.World.Locating.{is_match, is_match-locate}
use bento_box.World.Attributes.{Names}
use bento_box.Interp.Operations as Op
use bento_box.Interp.RoundTrip.{mutate_op-retrieve_op}
use bento_box.Simulation.{Simulation}
use bento_box.Service.{Engine, done, get_attribute}
use bento_box.TestSimulation
use bento_box.TestSimulation.{test_component_name, create_comp_def, sim_name, height_ref, sim_def}
use bento_box.TestSimulation.Cycle.{Counts}
use bento_box.TestSimulation.Liveness.{Cycling, steps, rounds, steps-get_attribute}
use bento_box.Examples.Data.{
  machine, count, int32_value, set_counter, fresh_counter, counting_world,
}
use bento_box.Examples.Stores.{two_counters_store-IsDenseStore, first_counter-located}

abbrev five : Value
five = int32_value (pos 5)

count-Names : Names counting_world count (0, 1) set_counter
unfolding lookup
count-Names = record { located = first_counter-located; found = refl }

mutate_op-retrieve_op_example :
    ((Op.mutate_op machine (Op.const_op five) count counting_world).0
      ≡ map_result (λ _. tt) (assigned machine set_counter "count" five))
    × ((Op.retrieve_op count (Op.mutate_op machine (Op.const_op five) count counting_world).1).0
        ≡ or_raise unset_value (
            if pair_beq (0, 1) (0, 1)
            then attribute_after "count"
                (assigned machine set_counter "count" five)
                set_counter
                "count"
            else attribute set_counter "count"))
unfolding Op.const_op pure
mutate_op-retrieve_op_example =
    mutate_op-retrieve_op machine (Op.const_op five) count count counting_world counting_world five
      (0, 1) (0, 1) set_counter set_counter refl two_counters_store-IsDenseStore count-Names
      count-Names

-- a Boolean that says it is an int32
abbrev mislabelled : Value
mislabelled = record five { kind = of_primitive (boolean true) }

set_refuses : (set_value machine "count" mislabelled fresh_counter).0 ≡ err data_mismatch
unfolding set_value ◌>>=◌ contains lookup val_has_correct_data_type run_fn_with_val_type
    run_fn_with_val kind_of
set_refuses = refl

set_value-data_mismatch_message_example : IsGiven (data_mismatch_message mislabelled)
set_value-data_mismatch_message_example =
    set_value-data_mismatch_message machine "count" mislabelled fresh_counter set_refuses

-- the component of the test simulation, at its start
abbrev start_component : UserComponent
start_component = record (make test_component_name create_comp_def) {
  values =
      ("width", TestSimulation.int64_value (pos 30))
      ∷ ("height", TestSimulation.int64_value (pos 30))
      ∷ [];
}

abbrev one_component : CompVec UserComponent
one_component = record {
  last_id = 1;
  id_to_index = (1, 0) ∷ [];
  inactive_comp_idx = [];
  vec = start_component ∷ [];
}

abbrev one_store : ComponentStore UserComponent
one_store = (0, one_component) ∷ []

abbrev start_world : World
start_world = record {
  comp_store = one_store;
  index_store = record {
    component_type = record { type_name_group_map = (test_component_name, 0) ∷ []; comp_group = 1 };
    entity = record { next_entity_id = 2; entity_comp_map = (1, (0, 1) ∷ []) ∷ [] };
  };
  draws = 0;
}

one_component-IsWellFormed : IsWellFormed one_component
unfolding lookup
one_component-IsWellFormed = record {
  given = λ id i h. ground arith;
  placed = λ id i h. ground arith;
  apart = λ id j i h g. ground arith;
  free = λ i q. absurd q;
  unused = λ id i q h. q;
  distinct = tt;
  unique = (ground arith, tt);
}

one_component_in_use : (id : ℕ) → is_some (view one_component id) ≡ (leb 1 id && leb id 1)
unfolding lookup
one_component_in_use zero = refl
one_component_in_use (suc zero) = refl
one_component_in_use (suc (suc n)) = ground arith

one_component-IsDense : IsDense one_component
unfolding CompVec.size
one_component-IsDense = record {
  well_formed = one_component-IsWellFormed;
  counted = refl;
  in_use = one_component_in_use;
}

one_store-IsDenseStore : IsDenseStore one_store
unfolding lookup
one_store-IsDenseStore = record {
  unique = (refl, tt);
  dense = λ g vec e. elim (Bool-cases (nat_eqb 0 g)) [
    | inl same ↦ subst IsDense (ground arith) one_component-IsDense
    | inr other ↦ absurd (ground arith)
  ];
}

start_is_match : (j : CompStoreId) → is_match start_world "TestComponent" 1 j ≡ pair_beq (0, 1) j
unfolding lookup Set.member
start_is_match (g, id) = ground arith

start_located : locate start_world "TestComponent" 1 ≡ ok (0, 1)
unfolding CompVec.size
start_located =
    is_match-locate start_world "TestComponent" 1 (0, 1) one_store-IsDenseStore refl start_is_match

start-Counts : Counts height_ref 30 start_world
unfolding lookup height_ref create_comp_def
start-Counts = record {
  id = (0, 1);
  comp = start_component;
  dense = one_store-IsDenseStore;
  names = record { located = start_located; found = refl };
  value = refl;
  typed = refl;
}

abbrev test_simulation : Simulation
test_simulation = record {
  sim_def = sim_def;
  comp_store = start_world.comp_store;
  index_store = start_world.index_store;
  locked = false;
}

abbrev test_engine : Engine
test_engine = record { sims = (sim_name, test_simulation) ∷ []; draws = 0 }

test_engine-Cycling : Cycling sim_name height_ref 30 test_engine
unfolding lookup sim_def
test_engine-Cycling = record {
  sim = test_simulation;
  found = refl;
  systems = refl;
  counts = start-Counts;
}

steps-get_attribute_example :
    (rounds 30 ≤ 102)
    × ((get_attribute sim_name height_ref (steps machine sim_name (rounds 30) test_engine)).0
        ≡ done (TestSimulation.int64_value (pos 0)))
steps-get_attribute_example =
    steps-get_attribute machine sim_name height_ref 30 test_engine test_engine-Cycling
