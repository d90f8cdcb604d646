-- ===== src/Index/TypeIndex.antt =====
-- sim/include/index/componentTypeIndex.h and sim/src/index/componentTypeIndex.cpp: the group of
-- each component type.
pub mod Groups
pub mod Adding
use bento_box.Base.{
  ℕ, ◌+◌, ◌%◌, ◌^◌, Bool, String, List, [], ◌∷◌, if◌then◌else◌, nat_eqb, none, some,
}
use bento_box.Base.Classes.{string_eq, pair_eq}
use bento_box.Exec.{Result, ok, map_result, or_raise, map_at}
use bento_box.Std.Map.{Map, lookup, contains, insert, at as map_find}
use bento_box.Std.Set
use bento_box.Core.ComponentStore.{ComponentSet}

-- The values of `CompGroup`, a `size_t`.
abbrev pub group_mod : ℕ
group_mod = 2 ^ 64

-- `ComponentTypeIndex`
pub record TypeIndex : Type 0 where
  pub type_name_group_map : Map String ℕ
  pub comp_group : ℕ

abbrev pub empty : TypeIndex
empty = record { type_name_group_map = []; comp_group = 0 }

pub has_component_type : TypeIndex → String → Bool
has_component_type index name = contains name index.type_name_group_map

-- The answer and the index afterwards; `at` is only reached where the name is there.
unfoldable pub add_component_type : String → TypeIndex → Result ℕ × TypeIndex
unfolding map_find contains
add_component_type name index =
    if contains name index.type_name_group_map
    then (map_find name index.type_name_group_map, index)
    else (
      ok index.comp_group,
      record {
        type_name_group_map = insert name index.comp_group index.type_name_group_map;
        comp_group = (index.comp_group + 1) % group_mod;
      },
    )

unfoldable pub get_component_type : TypeIndex → String → Result ℕ
unfolding map_find
get_component_type index name = map_find name index.type_name_group_map

-- The loop of the filter, with the set made so far.
filter_loop : ℕ → ComponentSet → ComponentSet → ComponentSet
filter_loop group [] new_set = new_set
filter_loop group ((g, id) ∷ rest) new_set =
    filter_loop group rest (if nat_eqb g group then Set.add (g, id) new_set else new_set)

pub filter_group : ℕ → ComponentSet → ComponentSet
unfolding filter_loop
filter_group group set = filter_loop group set []

-- The lambda that `filterCompType` returns, or its exception.
unfoldable pub filter_comp_type : TypeIndex → String → Result (ComponentSet → ComponentSet)
unfolding map_find
filter_comp_type index name = map_result filter_group (map_find name index.type_name_group_map)
