-- ===== src/World.antt =====
-- sim/include/ics.h and sim/src/ics.cpp: components found by type and entity. The state is the
-- component store, the index store and the number of random numbers drawn so far.
pub mod Same
pub mod Reading
pub mod Locating
pub mod Attributes
pub mod Soundness
pub mod Placing
pub mod Table
pub mod Growth
pub mod Extending
use bento_box.Base.{ℕ, String, List, [], ◌∷◌, if◌then◌else◌}
use bento_box.Exec.{
  Exec, Result, ok, err, undefined, many_components, no_component, map_result, then_result, asks,
  ◌>>=◌,
}
use bento_box.Core.ComponentStore
use bento_box.Core.ComponentStore.{ComponentStore, CompStoreId, ComponentSet}
use bento_box.Index
use bento_box.Index.TypeIndex
use bento_box.Index.EntityIndex
use bento_box.Component.UserComponent.{UserComponent, user_component}

pub record World : Type 0 where
  pub comp_store : ComponentStore UserComponent
  pub index_store : Index.IndexStore
  pub draws : ℕ

abbrev pub empty : World
empty = record { comp_store = []; index_store = Index.empty; draws = 0 }

-- the tests on `components.data.size()`, and `*components.data.begin()`
unfoldable pub only_one : ComponentSet → Result CompStoreId
only_one [] = err no_component
only_one (id ∷ []) = ok id
only_one (id ∷ other ∷ rest) = err many_components

-- The store id that `getComponent` finds for a component type and an entity.
unfoldable pub locate : World → String → ℕ → Result CompStoreId
unfolding only_one
locate w type_name entity_id = then_result (ComponentStore.as_comp_set w.comp_store) λ all.
    then_result (TypeIndex.filter_comp_type w.index_store.component_type type_name) λ of_type.
      then_result (EntityIndex.filter_entity_id w.index_store.entity entity_id (of_type all))
        only_one

-- Code that runs on the component behind the reference that `getComponent` returns.
module _ {A : Type 0} where
  abbrev with_store : Result A → Result (ComponentStore UserComponent) → Exec World A
  with_store r (ok store) w = (r, record w { comp_store = store })
  with_store r (err e) w = (err e, w)
  with_store r undefined w = (undefined, w)

  abbrev write_back : CompStoreId → Result A × UserComponent → Exec World A
  write_back id (r, comp) w = with_store r (ComponentStore.set_component w.comp_store id comp) w

  abbrev on_found : CompStoreId → Exec UserComponent A → Result UserComponent → Exec World A
  on_found id action (ok comp) w = write_back id (action comp) w
  on_found id action (err e) w = (err e, w)
  on_found id action undefined w = (undefined, w)

  unfoldable pub on_component : CompStoreId → Exec UserComponent A → Exec World A
  on_component id action w = on_found id action (ComponentStore.get_component w.comp_store id) w

-- `ics::addComponent`
abbrev add_to_group : UserComponent → Result ℕ → Exec World CompStoreId
add_to_group comp (ok group) w =
    let (r, store) = ComponentStore.add_component comp group w.comp_store in
    (r, record w { comp_store = store })
add_to_group comp (err e) w = (err e, w)
add_to_group comp undefined w = (undefined, w)

unfoldable pub add_component : UserComponent → Exec World CompStoreId
add_component comp w =
    let (group, types) = TypeIndex.add_component_type comp.type_name w.index_store.component_type in
    add_to_group comp group
      (record w { index_store = record w.index_store { component_type = types } })
