-- ===== src/Simulation.antt =====
-- sim/include/simulation.h: a simulation made from its definition.
pub mod Systems
pub mod Entities
pub mod Growing
pub mod Soundness
pub mod Building
pub mod Construction
pub mod Placing
pub mod Rows
pub mod Definitions
use bento_box.Base.{
  ℕ, zero, suc, ◌+◌, ◌%◌, Bool, false, ◌&&◌, not, String, List, [], ◌∷◌, Option, none, some,
  if◌then◌else◌, ltb, nat_eqb,
}
use bento_box.Base.Classes.{string_eq, nat_eq}
use bento_box.Exec.{Exec, Result, ok, undefined, pure, map_result, ◌>>=◌, ◌>>◌}
use bento_box.Std.Map.{Map, lookup, put}
use bento_box.Core.ComponentStore.{ComponentStore, CompStoreId}
use bento_box.Index
use bento_box.Index.EntityIndex
use bento_box.Index.EntityIndex.{EntityIndex, entity_mod}
use bento_box.Proto.Messages.{ComponentDef, EntityDef, SystemDef, SimulationDef}
use bento_box.Component.UserComponent.{UserComponent, make}
use bento_box.World
use bento_box.World.{World}

pub record Simulation : Type 0 where
  pub sim_def : SimulationDef
  pub comp_store : ComponentStore UserComponent
  pub index_store : Index.IndexStore
  pub locked : Bool

-- The stores of the simulation, once `draws` random numbers were drawn.
abbrev pub world_of : Simulation → ℕ → World
world_of sim draws = record {
  comp_store = sim.comp_store;
  index_store = sim.index_store;
  draws = draws;
}

abbrev pub unset_entity_id : ℕ
unset_entity_id = 0

abbrev pub unset_system_id : ℕ
unset_system_id = 0

-- the map from component name to component def
pub comp_def_map : List ComponentDef → Map String ComponentDef → Map String ComponentDef
comp_def_map [] m = m
comp_def_map (def ∷ rest) m = comp_def_map rest (put def.name def m)

-- `compDefMap[compName]`, which is an empty definition for a name that is not there
abbrev pub def_or_default : Option ComponentDef → ComponentDef
def_or_default none = record { name = ""; schema = [] }
def_or_default (some def) = def

-- the ids that the definition sets, the last one first
unfoldable pub configured_ids : List EntityDef → List ℕ → List ℕ
configured_ids [] ids = ids
configured_ids (entity ∷ rest) ids =
    configured_ids rest (if nat_eqb entity.id unset_entity_id then ids else entity.id ∷ ids)

-- `do entityId = addEntityId(); while (entityId == UNSET_ENTITY_ID)`, with fuel for its rounds
unfoldable pub fresh_entity_id : ℕ → EntityIndex → Option (ℕ × EntityIndex)
fresh_entity_id zero index = none
fresh_entity_id (suc fuel) index =
    let (entity_id, index') = EntityIndex.add_entity_id index in
    let again = fresh_entity_id fuel index' in
    if nat_eqb entity_id unset_entity_id then again else some (entity_id, index')

-- Two rounds are enough: the id after 0 is 1.
abbrev pub fresh_fuel : ℕ
fresh_fuel = 2

abbrev pub with_entity : World → EntityIndex → World
with_entity w index = record w { index_store = record w.index_store { entity = index } }

abbrev pub taken_id : Option (ℕ × EntityIndex) → Exec World ℕ
taken_id none w = (undefined, w)
taken_id (some (id, index)) w = (ok id, with_entity w index)

-- The id of an entity, made where it is unset.
unfoldable pub entity_id_of : EntityDef → Exec World ℕ
unfolding fresh_entity_id
entity_id_of entity w =
    if nat_eqb entity.id unset_entity_id
    then taken_id (fresh_entity_id fresh_fuel w.index_store.entity) w
    else (ok entity.id, w)

-- `indexStore.entity.addComponent(entity.id(), compStoreId)`
unfoldable pub index_component : ℕ → CompStoreId → Exec World (Unit {0})
index_component entity_id comp_store_id w =
    let (r, index) = EntityIndex.add_component entity_id comp_store_id w.index_store.entity in
    (r, with_entity w index)

unfoldable pub build_components : Map String ComponentDef → ℕ → List String → Exec World (Unit {0})
unfolding ◌>>=◌ index_component
build_components defs entity_id [] = pure tt
build_components defs entity_id (comp_name ∷ rest) = do
  comp_store_id ← World.add_component (make comp_name (def_or_default (lookup comp_name defs)))
  index_component entity_id comp_store_id
  build_components defs entity_id rest

-- The entities, with their ids set.
unfoldable pub build_entities :
    Map String ComponentDef → List EntityDef → Exec World (List EntityDef)
unfolding ◌>>=◌ entity_id_of build_components
build_entities defs [] = pure []
build_entities defs (entity ∷ rest) = do
  id ← entity_id_of entity
  build_components defs id entity.components
  built ← build_entities defs rest
  pure ((record entity { id = id }) ∷ built)

-- the largest id that the systems have
unfoldable pub max_system_id : List SystemDef → ℕ → ℕ
max_system_id [] max_id = max_id
max_system_id (system ∷ rest) max_id =
    max_system_id rest (
      if not (nat_eqb system.id unset_system_id) && ltb max_id system.id then system.id else max_id)

-- the systems, with their ids set; `maxId` is a `uint32_t`
unfoldable pub set_system_ids : List SystemDef → ℕ → List SystemDef
set_system_ids [] max_id = []
set_system_ids (system ∷ rest) max_id =
    let unset = nat_eqb system.id unset_system_id in
    let max_id' = if unset then (max_id + 1) % entity_mod else max_id in
    (record system { id = if unset then max_id' else system.id }) ∷ set_system_ids rest max_id'

abbrev pub finished : SimulationDef → Result (List EntityDef) × World → Result Simulation
finished def (r, w) =
    map_result
      (λ entities. record {
        sim_def = record def {
          entities = entities;
          systems = set_system_ids def.systems (max_system_id def.systems 0);
        };
        comp_store = w.comp_store;
        index_store = w.index_store;
        locked = false;
      })
      r

-- the world before the first entity is built
unfoldable pub configured : SimulationDef → World
unfolding configured_ids
configured def =
    with_entity World.empty
      (EntityIndex.set_entity_ids (configured_ids def.entities []) EntityIndex.empty)

-- the constructor of `Simulation`
unfoldable pub construct : SimulationDef → Result Simulation
unfolding build_entities comp_def_map configured set_system_ids max_system_id
construct def =
    finished def (build_entities (comp_def_map def.components []) def.entities (configured def))
