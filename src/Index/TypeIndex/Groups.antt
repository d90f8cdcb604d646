-- ===== src/Index/TypeIndex/Groups.antt =====
-- Component types and groups: each type has one group, and no two types share one.
use bento_box.Base.{
  ℕ, ◌+◌, ◌<◌, ◌≡◌, refl, false, ◌&&◌, ◌||◌, String, [], ◌∷◌, Option, none, some, if◌then◌else◌,
  arith, nat_eqb, str_eq, str_eq_iff, Option-cases, inl, inr,
}
use bento_box.Base.Classes.{string_eq, nat_eq, pair_eq}
use bento_box.Exec.{ok}
use bento_box.Std.Map.{lookup}
use bento_box.Std.Map.Laws.{lookup-insert_new}
use bento_box.Std.Set
use bento_box.Core.ComponentStore.{ComponentSet}
use bento_box.Index.TypeIndex.{
  TypeIndex, empty, group_mod, add_component_type, get_component_type, filter_loop, filter_group,
}

abbrev pub group_of : TypeIndex → String → Option ℕ
group_of index name = lookup name index.type_name_group_map

pub record IsValid (index : TypeIndex) : Type 0 where
  pub below : (name : String) (g : ℕ) → group_of index name ≡ some g → g < index.comp_group
  pub apart :
      (name other : String) (g : ℕ)
      → group_of index name ≡ some g
      → group_of index other ≡ some g
      → name ≡ other

pub empty-IsValid : IsValid empty
unfolding lookup
empty-IsValid = record {
  below = λ name g e. absurd (ground arith);
  apart = λ name other g e f. absurd (ground arith);
}

-- A new name gets the next group.
pub group_of-add :
    (name other : String) (index : TypeIndex)
    → group_of index name ≡ none
    → group_of (add_component_type name index).1 other
      ≡ (if str_eq name other then some index.comp_group else group_of index other)
unfolding add_component_type
group_of-add name other index missing =
    ground (arith, lookup-insert_new name other index.comp_group index.type_name_group_map missing)

-- A name that is there keeps its group and the index.
pub add_component_type_again :
    (name : String) (index : TypeIndex) (g : ℕ)
    → group_of index name ≡ some g
    → add_component_type name index ≡ (ok g, index)
unfolding add_component_type
add_component_type_again name index g e = ground arith

pub add_component_type_new :
    (name : String) (index : TypeIndex)
    → group_of index name ≡ none
    → ((add_component_type name index).0 ≡ ok index.comp_group)
unfolding add_component_type
add_component_type_new name index e = ground arith

pub comp_group-add :
    (name : String) (index : TypeIndex)
    → group_of index name ≡ none
    → index.comp_group + 1 < group_mod
    → (add_component_type name index).1.comp_group ≡ index.comp_group + 1
unfolding add_component_type
comp_group-add name index e small = ground arith

-- Adding a type, new or old, to an index in which no two types share a group keeps it so, while
-- there are groups left.
pub add_component_type-IsValid :
    (name : String) (index : TypeIndex)
    → IsValid index
    → index.comp_group + 1 < group_mod
    → IsValid (add_component_type name index).1
add_component_type-IsValid name index v small = elim (Option-cases (group_of index name)) [
  | inr (g, e) ↦ rw (add_component_type_again name index g e) v
  | inl e ↦ record {
    below = λ other g h. ground (
      arith,
      group_of-add name other index e,
      comp_group-add name index e small,
      v.below other g,
    );
    apart = λ other third g h h'. ground (
      arith,
      group_of-add name other index e,
      group_of-add name third index e,
      v.below other g,
      v.below third g,
      v.apart other third g,
      str_eq_iff name other,
      str_eq_iff name third,
    );
  }
]

-- The group that adding a type returns is the one that it is found under afterwards, and adding it
-- changes no other type's group.
pub get_component_type-add :
    (name other : String) (index : TypeIndex)
    → (get_component_type (add_component_type name index).1 name
        ≡ (add_component_type name index).0)
      × (str_eq name other ≡ false
          → get_component_type (add_component_type name index).1 other
            ≡ get_component_type index other)
unfolding get_component_type
get_component_type-add name other index = elim (Option-cases (group_of index name)) [
  | inr (g, e) ↦ rw (add_component_type_again name index g e) (rw e refl, λ _. refl)
  | inl e ↦ (
    ground (
      arith,
      group_of-add name name index e,
      add_component_type_new name index e,
      str_eq_iff name name,
    ),
    λ h. ground (arith, group_of-add name other index e),
  )
]

member-filter_loop :
    (group : ℕ) (set new : ComponentSet) (g id : ℕ)
    → Set.member (g, id) (filter_loop group set new)
      ≡ ((nat_eqb g group && Set.member (g, id) set) || Set.member (g, id) new)
unfolding filter_loop Set.member
member-filter_loop group [] new g id = ground arith
member-filter_loop group ((h, i) ∷ rest) new g id = ground (
  arith,
  member-filter_loop group rest new g id,
  member-filter_loop group rest (Set.add (h, i) new) g id,
  Set.member-add (h, i) (g, id) new,
)

-- The filter of a type keeps exactly the ids of its group.
pub member-filter_group :
    (group : ℕ) (set : ComponentSet) (g id : ℕ)
    → Set.member (g, id) (filter_group group set) ≡ (nat_eqb g group && Set.member (g, id) set)
unfolding filter_group Set.member
member-filter_group group set g id = ground (arith, member-filter_loop group set [] g id)
