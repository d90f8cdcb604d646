-- ===== src/Index/TypeIndex/Adding.antt =====
-- What `addComponentType` answers and leaves, for a type that is new and for one that is not.
use bento_box.Base.{
  ℕ, ◌+◌, ◌≤◌, ◌<◌, ◌≡◌, refl, String, some, arith, str_eq_iff, Option-cases, inl, inr,
}
use bento_box.Exec.{Result, ok}
use bento_box.Index.TypeIndex.{TypeIndex, add_component_type, group_mod}
use bento_box.Index.TypeIndex.Groups.{
  group_of, IsValid, add_component_type_again, add_component_type_new, add_component_type-IsValid,
  group_of-add, comp_group-add,
}

pub record AddsType (name : String) (index : TypeIndex) (r : Result ℕ × TypeIndex) : Type 0 where
  pub group : ℕ
  pub returned : r.0 ≡ ok group
  pub found : group_of r.1 name ≡ some group
  pub kept : (other : String) (g : ℕ) → group_of index other ≡ some g → group_of r.1 other ≡ some g
  pub valid : IsValid r.1
  pub bounded : r.1.comp_group ≤ index.comp_group + 1

pub add_component_type-AddsType :
    (name : String) (index : TypeIndex)
    → IsValid index
    → index.comp_group + 1 < group_mod
    → AddsType name index (add_component_type name index)
add_component_type-AddsType name index v small = elim (Option-cases (group_of index name)) [
  | inr (g, e) ↦ rw (add_component_type_again name index g e) (record {
    group = g;
    returned = refl;
    found = e;
    kept = λ other h k. k;
    valid = v;
    bounded = omega arith;
  })
  | inl e ↦ record {
    group = index.comp_group;
    returned = add_component_type_new name index e;
    found = ground (arith, group_of-add name name index e, str_eq_iff name name);
    kept = λ other g k. ground (arith, group_of-add name other index e, str_eq_iff name other);
    valid = add_component_type-IsValid name index v small;
    bounded = omega (arith, comp_group-add name index e small);
  }
]
