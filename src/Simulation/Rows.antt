-- ===== src/Simulation/Rows.antt =====
-- The table of rows of a new simulation, from its definition.
use bento_box.Base.{
  List, ℕ, zero, suc, ◌+◌, ◌<◌, ◌≡◌, refl, ◌∙◌, ◌⊎◌, true, false, String, [], ◌∷◌, none, arith,
  length, ap, str_eq_iff, Option-cases, inl, inr,
}
use mathlib.Core.Path.{subst}
use bento_box.Base.Classes.{string_eq, nat_eq, pair_eq, pair_beq_iff}
use bento_box.Exec.{Result, ok, err, map_at, no_component, many_components}
use bento_box.Std.Map.{lookup}
use bento_box.Std.Set
use bento_box.Core.ComponentStore.{CompStoreId, ComponentSet}
use bento_box.Core.ComponentStore.Listing.{store_view}
use bento_box.Proto.Messages.{ComponentDef, SimulationDef}
use bento_box.Component.UserComponent.{user_component}
use bento_box.World.{World, locate}
use bento_box.World.Soundness.{IsSound}
use bento_box.Core.ComponentStore.{int_max}
use bento_box.Core.ComponentStore.Listing.{is_countable}
use bento_box.World.Growth.{Within-is_countable}
use bento_box.Simulation.Definitions.{def_named, found-def_named}
use bento_box.World.Placing.{is_placed, Places, Finds, locate-Places}
use bento_box.World.Table.{Row, table, row_at, row_of}
use bento_box.Simulation.{
  Simulation, world_of, build_entities, comp_def_map, configured, max_system_id, set_system_ids,
  construct,
}
use bento_box.Simulation.Growing.{configured-Within}
use bento_box.Simulation.Soundness.{component_count, construct-IsSound, build_entities-Within}
use bento_box.Simulation.Building.{component_for, Succeeds}
use bento_box.Simulation.Construction.{configured-Known}
use bento_box.Simulation.Placing.{times_in, Placed}
use bento_box.Simulation.Placing.Entities.{build_entities-Placed, configured-Placed}

-- What a new simulation holds for a component type and an entity that lists it so many times: the
-- row without values of its definition where that is once.
abbrev pub new_row : List ComponentDef → String → Row
new_row defs type_name = record {
  schema = (def_named type_name defs).schema;
  attributes = λ name. none;
}

abbrev pub IsNewRow : List ComponentDef → String → ℕ → Result Row → Type 0
IsNewRow defs type_name zero r = (r ≡ err map_at) ⊎ (r ≡ err no_component)
IsNewRow defs type_name (suc zero) r = r ≡ ok (new_row defs type_name)
IsNewRow defs type_name (suc (suc k)) r = r ≡ err many_components

row_of-component_for :
    (defs : List ComponentDef) (type_name : String)
    → row_of (component_for (comp_def_map defs []) type_name) ≡ new_row defs type_name
unfolding lookup
row_of-component_for defs type_name = rw (found-def_named type_name defs) refl

-- The row of the only component of a type that an entity has.
only_row :
    (defs : List ComponentDef) (type_name : String) (entity_id k : ℕ) (w : World) (id : CompStoreId)
    → Placed (comp_def_map defs []) type_name entity_id k w
    → is_placed w type_name entity_id id ≡ true
    → row_at w (ok id) ≡ ok (new_row defs type_name)
only_row defs t n k w id p here = elim (Option-cases (store_view w.comp_store id)) [
  | inl e ↦ absurd (ground (arith, here, e))
  | inr (comp, e) ↦
      let named : comp.type_name ≡ t = ground (arith, here, e, str_eq_iff comp.type_name t) in
      let made : comp ≡ component_for (comp_def_map defs []) t =
        p.fresh id comp e ∙ ap (component_for (comp_def_map defs [])) named in
      rw e (ap (λ c. ok (row_of c)) made ∙ ap ok (row_of-component_for defs t))
]

Placed-IsNewRow :
    (defs : List ComponentDef) (type_name : String) (entity_id k : ℕ) (w : World)
    → IsSound w
    → is_countable w.comp_store ≡ true
    → Placed (comp_def_map defs []) type_name entity_id k w
    → IsNewRow defs type_name k (table w type_name entity_id)
unfolding Set.member
Placed-IsNewRow defs t n k w s small p =
    subst (λ j. IsNewRow defs t j (table w t n)) p.size
      (by_ids p.ids p.places (locate-Places w t n p.ids s small p.places))
  where
    by_ids :
        (ids : ComponentSet)
        → Places w t n ids
        → Finds ids (locate w t n)
        → IsNewRow defs t (length ids) (table w t n)
    by_ids [] q (inl e) = inl (rw e refl)
    by_ids [] q (inr e) = inr (rw e refl)
    by_ids (id ∷ []) q e =
        rw e (only_row defs t n k w id p (q.members id ∙ ground (arith, pair_beq_iff id id)))
    by_ids (id ∷ other ∷ rest) q e = rw e refl

-- In a simulation made from a definition with fewer than 2^31 − 1 components, what getComponent
-- finds for a type and an entity depends on how often the built entities of that id list the type:
-- where once, the component has the schema of the last definition of that name in the list of
-- definitions, or an empty one where there is none, and no values; where never, it throws that the
-- type or the entity is not known or that there is no component; where more often, that there are
-- many.
pub construct-IsNewRow :
    (def : SimulationDef) (type_name : String) (entity_id : ℕ)
    → component_count def.entities < int_max
    → (sim : Simulation) × (construct def ≡ ok sim)
      × IsNewRow def.components type_name
          (times_in type_name entity_id sim.sim_def.entities)
          (table (world_of sim 0) type_name entity_id)
unfolding construct locate
construct-IsNewRow def t n small =
    let defs = comp_def_map def.components [] in
    let run = build_entities defs def.entities (configured def) in
    let s : Succeeds (configured def) (λ built v. Placed defs t n (0 + times_in t n built) v) run =
      build_entities-Placed defs t n 0 0 def.entities (configured def) (omega arith)
        (configured-Within def) (configured-Known def) (configured-Placed defs t n def) in
    let sim : Simulation = record {
      sim_def = record def {
        entities = s.answer;
        systems = set_system_ids def.systems (max_system_id def.systems 0);
      };
      comp_store = run.1.comp_store;
      index_store = run.1.index_store;
      locked = false;
    } in
    let returned : construct def ≡ ok sim = rw s.returned refl in
    (
      sim,
      returned,
      Placed-IsNewRow def.components t n (times_in t n s.answer) (world_of sim 0)
          (construct-IsSound def sim 0 (omega arith) returned)
          (Within-is_countable (0 + component_count def.entities) run.1
            (build_entities-Within defs 0 def.entities (configured def) (omega arith)
              (configured-Within def))
            (omega arith))
          (record {
            ids = s.holds.ids;
            places = record {
              distinct = s.holds.places.distinct;
              members = s.holds.places.members;
            };
            size = s.holds.size ∙ omega arith;
            fresh = s.holds.fresh;
          }),
    )
