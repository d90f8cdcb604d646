-- ===== src/Examples/Frames.antt =====
-- The theorems on entities, systems, types and the other simulations, at concrete inputs.
use bento_box.Base.{ℕ, ◌<◌, ◌≡◌, refl, true, false, ◌&&◌, ◌||◌, List, [], ◌∷◌, some, arith, nat_eqb}
use bento_box.Base.Int.{pos}
use bento_box.Base.Classes.{string_eq, nat_eq, pair_eq, pair_beq}
use bento_box.Exec.{ok, err, map_at, ◌>>=◌}
use bento_box.Std.Map.{lookup, contains, at as map_find}
use bento_box.Std.Set
use bento_box.Core.CompVec
use bento_box.Core.ComponentStore.{CompStoreId}
use bento_box.Index.EntityIndex
use bento_box.Index.EntityIndex.{
  EntityIndex, set_intersection, add_component, remove_component, set_entity_ids,
}
use bento_box.Index.EntityIndex.Entities.{has, is_known, add_component_lem}
use bento_box.Proto.Value.{Value, TypePrimitive, primitive_type}
use bento_box.Proto.Messages.{SystemDef}
use bento_box.Component.UserComponent.{set_value, set_by_type}
use bento_box.Component.UserComponent.Attributes.{attribute}
use bento_box.Component.UserComponent.Typing.{HasType, set_value-HasType}
use bento_box.Proto.UserValue.{kind_of, is_proto_type_of_types}
use bento_box.Proto.Dispatch.{run_fn_with_val, run_fn_with_val_type, val_has_correct_data_type}
use bento_box.Machine.{cast}
use bento_box.World.{locate}
use bento_box.World.Locating.{is_match, locate-is_match, is_match-locate}
use bento_box.Simulation.{Simulation, max_system_id, set_system_ids, fresh_entity_id, fresh_fuel}
use bento_box.Simulation.Systems.{ids_of, set_system_ids-IsDistinct}
use bento_box.Simulation.Entities.{
  Fresh, fresh_entity_id-Fresh, Configured, set_entity_ids-Configured, fresh_entity_id_wraps,
}
use bento_box.Service.Steps.{Request, apply, step, set, serve_all}
use bento_box.Service.Frame.{serve_all_others}
use bento_box.Service.{Engine, apply_simulation, step_simulation, already_exists}
use bento_box.Service.Locking.{apply_after_step}
use bento_box.Examples.Data.{
  locked_counting, machine, counting, count, int32_value, int64_value, fresh_counter,
  counting_world, stepped_engine,
}
use bento_box.Examples.Types.{machine-ComparesTypes}
use bento_box.Examples.Stores.{
  two_counters_store-IsDenseStore, first_counter-is_match, first_counter-located,
}

abbrev two_entities : EntityIndex
two_entities = counting_world.index_store.entity

add_component_lem_example :
    (is_known two_entities 5 ≡ false
      → add_component 5 (1, 1) two_entities ≡ (err map_at, two_entities))
    × (is_known two_entities 5 ≡ true
        → ((add_component 5 (1, 1) two_entities).0 ≡ ok tt)
          × ((add_component 5 (1, 1) two_entities).1.next_entity_id ≡ two_entities.next_entity_id)
          × ((j : ℕ) → is_known (add_component 5 (1, 1) two_entities).1 j ≡ is_known two_entities j)
          × ((j : ℕ) (d : CompStoreId)
              → has (add_component 5 (1, 1) two_entities).1 j d
                ≡ ((nat_eqb 5 j && pair_beq (1, 1) d) || has two_entities j d)))
add_component_lem_example = add_component_lem 5 (1, 1) two_entities

locate-is_match_example : is_match counting_world "counter" 1 (0, 2) ≡ pair_beq (0, 1) (0, 2)
locate-is_match_example =
    locate-is_match counting_world "counter" 1 (0, 1) two_counters_store-IsDenseStore
      first_counter-located (0, 2)

is_match-locate_example : locate counting_world "counter" 1 ≡ ok (0, 1)
unfolding CompVec.size
is_match-locate_example =
    is_match-locate counting_world "counter" 1 (0, 1) two_counters_store-IsDenseStore refl
      first_counter-is_match

abbrev systems : List SystemDef
systems =
    record { id = 7; graph = record { inputs = []; outputs = [] } }
    ∷ record { id = 0; graph = record { inputs = []; outputs = [] } }
    ∷ []

set_system_ids-IsDistinct_example :
    Set.IsDistinct (ids_of (set_system_ids systems (max_system_id systems 0)))
    × (Set.member 0 (ids_of (set_system_ids systems (max_system_id systems 0))) ≡ false)
unfolding max_system_id Set.member
set_system_ids-IsDistinct_example = set_system_ids-IsDistinct systems (ground arith) (refl, tt)

two_small : (j : ℕ) → Set.member j (3 ∷ 1 ∷ []) ≡ true → j < 4294967295
unfolding Set.member
two_small j h = ground arith

configured : Configured (3 ∷ 1 ∷ []) (set_entity_ids (3 ∷ 1 ∷ []) EntityIndex.empty)
configured = set_entity_ids-Configured (3 ∷ 1 ∷ []) two_small

set_entity_ids-Configured_example :
    Configured (3 ∷ 1 ∷ []) (set_entity_ids (3 ∷ 1 ∷ []) EntityIndex.empty)
set_entity_ids-Configured_example = set_entity_ids-Configured (3 ∷ 1 ∷ []) two_small

fresh_entity_id-Fresh_example :
    Fresh
      (set_entity_ids (3 ∷ 1 ∷ []) EntityIndex.empty)
      (fresh_entity_id fresh_fuel (set_entity_ids (3 ∷ 1 ∷ []) EntityIndex.empty))
unfolding set_entity_ids
fresh_entity_id-Fresh_example =
    fresh_entity_id-Fresh (set_entity_ids (3 ∷ 1 ∷ []) EntityIndex.empty) configured.above_known
      (ground arith)

abbrev full_ids : List ℕ
full_ids = 4294967295 ∷ 1 ∷ []

fresh_entity_id_wraps_example :
    (is_known (set_entity_ids full_ids EntityIndex.empty) 1 ≡ true)
    × (next : EntityIndex) × (fresh_entity_id fresh_fuel (set_entity_ids full_ids EntityIndex.empty)
        ≡ some (1, next))
unfolding EntityIndex.set_ids_loop Set.member
fresh_entity_id_wraps_example = fresh_entity_id_wraps full_ids (ground arith) (ground arith)

serve_all_others_example :
    lookup "counting"
      (serve_all machine
        (step "other"
          ∷ set "third" count (int32_value (pos 1))
          ∷ apply (record counting { name = "other" })
          ∷ [])
        stepped_engine).sims
    ≡ lookup "counting" stepped_engine.sims
serve_all_others_example =
    serve_all_others machine "counting"
      (step "other"
        ∷ set "third" count (int32_value (pos 1))
        ∷ apply (record counting { name = "other" })
        ∷ [])
      stepped_engine (refl, (refl, (refl, tt)))

set_returns : (set_value machine "count" (int64_value (pos 7)) fresh_counter).0 ≡ ok tt
unfolding set_value ◌>>=◌ contains lookup val_has_correct_data_type run_fn_with_val_type
    run_fn_with_val kind_of map_find set_by_type is_proto_type_of_types cast
set_returns = refl

set_value-HasType_example :
    (w : Value) × (attribute
        (set_value machine "count" (int64_value (pos 7)) fresh_counter).1
        "count"
      ≡ some w)
    × HasType (primitive_type TypePrimitive.int32) w
unfolding lookup
set_value-HasType_example =
    set_value-HasType machine machine-ComparesTypes fresh_counter "count"
      (primitive_type TypePrimitive.int32) (int64_value (pos 7)) refl refl set_returns

abbrev new_counting : Simulation
new_counting = record locked_counting { locked = false }

abbrev new_engine : Engine
new_engine = record { sims = ("counting", new_counting) ∷ []; draws = 0 }

abbrev two_calls : List Request
two_calls = set "counting" count (int32_value (pos 1)) ∷ step "counting" ∷ []

apply_after_step_example :
    apply_simulation machine counting
      (serve_all machine two_calls (step_simulation machine "counting" new_engine).1)
    ≡ (
      already_exists,
      serve_all machine two_calls (step_simulation machine "counting" new_engine).1,
    )
unfolding lookup
apply_after_step_example =
    apply_after_step machine counting new_counting two_calls new_engine refl tt
