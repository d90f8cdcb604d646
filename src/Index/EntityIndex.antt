-- ===== src/Index/EntityIndex.antt =====
-- sim/include/index/entityIndex.h and sim/src/index/entityIndex.cpp: the components of each entity;
-- and sim/lib/core/include/core/ics/util/setIntersection.h.
pub mod Entities
use bento_box.Base.{ℕ, ◌+◌, ◌%◌, ◌^◌, List, [], ◌∷◌, if◌then◌else◌, ltb}
use bento_box.Base.Classes.{Key, nat_eq, pair_eq}
use bento_box.Exec.{Exec, Result, map_result, asks, modify, ◌>>◌}
use bento_box.Std.Map.{Map, insert, update, at as map_find}
use bento_box.Std.Set
use bento_box.Core.ComponentStore.{CompStoreId, ComponentSet}

-- The values of `EntityId`, an `unsigned int`.
abbrev pub entity_mod : ℕ
entity_mod = 2 ^ 32

pub record EntityIndex : Type 0 where
  pub next_entity_id : ℕ
  pub entity_comp_map : Map ℕ ComponentSet

abbrev pub empty : EntityIndex
empty = record { next_entity_id = 0; entity_comp_map = [] }

module _ {ℓ} {A : Type ℓ} ⦃e : Key A⦄ where
  intersection_loop : List A → List A → List A → List A
  intersection_loop [] b new_set = new_set
  intersection_loop (x ∷ rest) b new_set =
      intersection_loop rest b (if Set.member x b then Set.add x new_set else new_set)

  pub set_intersection : List A → List A → List A
  unfolding intersection_loop
  set_intersection a b = intersection_loop a b []

unfoldable pub add_entity_id : EntityIndex → ℕ × EntityIndex
add_entity_id index = (
  index.next_entity_id,
  record {
    next_entity_id = (index.next_entity_id + 1) % entity_mod;
    entity_comp_map = insert index.next_entity_id [] index.entity_comp_map;
  },
)

-- The loop of `setEntityIds`: the largest id so far, and the map.
unfoldable pub set_ids_loop : List ℕ → ℕ → Map ℕ ComponentSet → ℕ × Map ℕ ComponentSet
set_ids_loop [] max_id m = (max_id, m)
set_ids_loop (id ∷ rest) max_id m =
    set_ids_loop rest (if ltb max_id id then id else max_id) (insert id [] m)

unfoldable pub set_entity_ids : List ℕ → EntityIndex → EntityIndex
unfolding set_ids_loop
set_entity_ids ids index =
    let (max_id, m) = set_ids_loop ids 0 index.entity_comp_map in
    record { next_entity_id = (max_id + 1) % entity_mod; entity_comp_map = m }

unfoldable pub get_components : EntityIndex → ℕ → Result ComponentSet
unfolding map_find
get_components index entity_id = map_find entity_id index.entity_comp_map

write_set : ℕ → (ComponentSet → ComponentSet) → EntityIndex → EntityIndex
write_set entity_id f index = record index {
  entity_comp_map = update entity_id f index.entity_comp_map;
}

unfoldable pub add_component : ℕ → CompStoreId → Exec EntityIndex (Unit {0})
unfolding write_set get_components
add_component entity_id comp_store_id = do
  asks (λ index. get_components index entity_id)
  modify (write_set entity_id (Set.add comp_store_id))

unfoldable pub remove_component : ℕ → CompStoreId → Exec EntityIndex (Unit {0})
unfolding write_set get_components
remove_component entity_id comp_store_id = do
  asks (λ index. get_components index entity_id)
  modify (write_set entity_id (Set.erase comp_store_id))

-- The lambda that `filterEntityId` returns; it looks the entity up when it is called.
unfoldable pub filter_entity_id : EntityIndex → ℕ → ComponentSet → Result ComponentSet
unfolding set_intersection get_components
filter_entity_id index entity_id comp_set =
    map_result (λ ids. set_intersection ids comp_set) (get_components index entity_id)
