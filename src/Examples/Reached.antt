-- ===== src/Examples/Reached.antt =====
-- The theorems on every engine that calls can lead to, at concrete inputs.
use bento_box.Base.{ℕ, ◌≡◌, refl, true, false, List, [], ◌∷◌, some, arith}
use bento_box.Base.Classes.{string_eq, nat_eq, pair_eq, pair_beq}
use bento_box.Base.Int.{pos}
use bento_box.Exec.{ok}
use bento_box.Std.Map.{lookup, contains, put, insert, update}
use bento_box.Std.Set
use bento_box.Core.CompVec
use bento_box.Core.ComponentStore
use bento_box.Core.ComponentStore.{CompStoreId}
use bento_box.Core.ComponentStore.Listing.{store_view}
use bento_box.Index.TypeIndex
use bento_box.Index.EntityIndex
use bento_box.Interp.Evaluate.{evaluate_node, run_graph}
use bento_box.Interp.Meaning.{Ground, meaning, run}
use bento_box.Interp.Agreement.{Agrees}
use bento_box.Interp.Refinement.{evaluate_node-meaning, run_graph-run}
use bento_box.Proto.Messages.{Graph, const_op}
use bento_box.World.Table.{table}
use bento_box.Index.EntityIndex.Entities.{has}
use bento_box.Component.UserComponent.{UserComponent, user_component}
use bento_box.World
use bento_box.World.{World, locate}
use bento_box.World.Locating.{is_match, is_match-locate}
use bento_box.World.Soundness.{IsSound}
use bento_box.Simulation.Placing.{times_in}
use bento_box.Simulation.Definitions.{component_named}
use bento_box.Simulation.Rows.{IsNewRow, construct-IsNewRow}
use bento_box.Simulation.Construction.{AllBuilt, construct-AllBuilt}
use bento_box.Simulation.{Simulation, world_of, construct}
use bento_box.Service.{no_simulations, apply_simulation}
use bento_box.Service.Steps.{Request, apply, step, drop, get, set, serve_all}
use bento_box.Service.Queries.{Query, request, describe, responses}
use bento_box.Service.Contract.{nothing_held, promises}
use bento_box.Service.Refinement.{responses-promises}
use bento_box.Service.Soundness.{IsSoundEngine, serve_all-IsSoundEngine, locate-serve_all}
use bento_box.Examples.Data.{machine, fresh_counter, counting, count, next_count, int32_value}

abbrev some_calls : List Request
some_calls = apply counting ∷ set "counting" count (int32_value (pos 3)) ∷ step "counting" ∷ []

pub nothing-IsSoundEngine : IsSoundEngine no_simulations
unfolding lookup
nothing-IsSoundEngine = record { sound = λ name sim e. absurd (ground arith) }

serve_all-IsSoundEngine_example : IsSoundEngine (serve_all machine some_calls no_simulations)
serve_all-IsSoundEngine_example =
    serve_all-IsSoundEngine machine some_calls no_simulations (omega arith, tt)
      nothing-IsSoundEngine

abbrev pub calls : List Request
calls = apply (record counting { init_graph = record { inputs = []; outputs = [] } }) ∷ []

abbrev pub built : Simulation
built = record {
  sim_def = record counting { init_graph = record { inputs = []; outputs = [] } };
  comp_store =
      (
        0,
        record {
          last_id = 1;
          id_to_index = (1, 0) ∷ [];
          inactive_comp_idx = [];
          vec = fresh_counter ∷ [];
        },
      )
      ∷ [];
  index_store = record {
    component_type = record { type_name_group_map = ("counter", 0) ∷ []; comp_group = 1 };
    entity = record { next_entity_id = 2; entity_comp_map = (1, (0, 1) ∷ []) ∷ [] };
  };
  locked = false;
}

pub reached : lookup "counting" (serve_all machine calls no_simulations).sims ≡ some built
unfolding serve_all apply_simulation construct lookup contains World.add_component
    TypeIndex.add_component_type ComponentStore.add_component insert CompVec.add CompVec.add_to_vec
    EntityIndex.add_component EntityIndex.set_entity_ids put run_graph update Set.add
reached = refl

built-is_match : (j : CompStoreId) → is_match (world_of built 0) "counter" 1 j ≡ pair_beq (0, 1) j
unfolding lookup Set.member
built-is_match (g, id) = ground arith

pub located : locate (world_of built 0) "counter" 1 ≡ ok (0, 1)
unfolding CompVec.size
located =
    let engine =
      serve_all-IsSoundEngine machine calls no_simulations (omega arith, tt)
        nothing-IsSoundEngine in
    is_match-locate (world_of built 0) "counter" 1 (0, 1)
      (engine.sound "counting" built reached).dense refl built-is_match

locate-serve_all_example :
    (comp : UserComponent) × (store_view built.comp_store (0, 1) ≡ some comp)
    × (comp.type_name ≡ "counter")
    × (has built.index_store.entity 1 (0, 1) ≡ true)
    × ((other : ℕ) → has built.index_store.entity other (0, 1) ≡ true → 1 ≡ other)
locate-serve_all_example =
    locate-serve_all machine calls "counting" "counter" built 1 (0, 1) (omega arith, tt) reached
      located

construct-AllBuilt_example :
    (sim : Simulation) × (construct counting ≡ ok sim)
    × (sim.locked ≡ false)
    × IsSound (world_of sim 0)
    × AllBuilt
        (component_named counting.components)
        (world_of sim 0)
        counting.entities
        sim.sim_def.entities
construct-AllBuilt_example = construct-AllBuilt counting (omega arith)

-- The rows of the built simulation.
abbrev rows_of_built : Ground
rows_of_built = record { rows = table (world_of built 0); draws = 0 }

built-Agrees : Agrees (world_of built 0) rows_of_built
built-Agrees =
    let engine =
      serve_all-IsSoundEngine machine calls no_simulations (omega arith, tt)
        nothing-IsSoundEngine in
    record { sound = engine.sound "counting" built reached; rows = λ t n. refl; draws = refl }

abbrev count_up : Graph
count_up = record {
  inputs = [];
  outputs =
      record { mutate_attr = count; to_node = const_op (int32_value (pos 3)) }
      ∷ record { mutate_attr = count; to_node = next_count }
      ∷ [];
}

run_graph-run_example :
    ((run_graph machine count_up (world_of built 0)).0
      ≡ (run machine count_up.outputs rows_of_built).0)
    × Agrees
        (run_graph machine count_up (world_of built 0)).1
        (run machine count_up.outputs rows_of_built).1
run_graph-run_example = run_graph-run machine count_up (world_of built 0) rows_of_built built-Agrees

evaluate_node-meaning_example :
    ((evaluate_node machine next_count (world_of built 0)).0
      ≡ (meaning machine next_count rows_of_built).0)
    × Agrees
        (evaluate_node machine next_count (world_of built 0)).1
        (meaning machine next_count rows_of_built).1
evaluate_node-meaning_example =
    evaluate_node-meaning machine next_count (world_of built 0) rows_of_built built-Agrees

abbrev queries : List Query
queries =
    request (apply counting)
    ∷ request (set "counting" count (int32_value (pos 3)))
    ∷ request (step "counting")
    ∷ request (get "counting" count)
    ∷ describe "counting"
    ∷ request (drop "counting")
    ∷ request (step "counting")
    ∷ []

responses-promises_example :
    responses machine queries no_simulations ≡ promises machine queries nothing_held
responses-promises_example =
    responses-promises machine queries (omega arith, (tt, (tt, (tt, (tt, (tt, (tt, tt)))))))

construct-IsNewRow_example :
    (sim : Simulation) × (construct counting ≡ ok sim)
    × IsNewRow counting.components "counter"
        (times_in "counter" 1 sim.sim_def.entities)
        (table (world_of sim 0) "counter" 1)
construct-IsNewRow_example = construct-IsNewRow counting "counter" 1 (omega arith)
