-- ===== src/Core/ComponentStore/Access.antt =====
-- `addComponent` and `getComponent` against the components that store ids name.
use bento_box.Base.{
  ℕ, ◌+◌, ◌<◌, ◌≡◌, refl, true, Option, none, some, if◌then◌else◌, arith, nat_eqb, Option-cases,
  Bool-cases, inl, inr,
}
use mathlib.Core.Path.{subst}
use bento_box.Base.Classes.{nat_eq, pair_eq, pair_beq}
use bento_box.Exec.{Result, ok, map_at, or_raise}
use bento_box.Std.Map.{lookup, contains, insert, update, at as map_find}
use bento_box.Std.Map.Laws.{UniqueKeys-update, UniqueKeys-insert, lookup-update, lookup-insert_new}
use bento_box.Core.Component.{Component}
use bento_box.Core.CompVec
use bento_box.Core.CompVec.{CompVec, id_mod}
use bento_box.Core.CompVec.Dense.{IsDense, empty-IsDense, add-IsDense}
use bento_box.Core.CompVec.Refinement.{view, view-add, at-view}
use bento_box.Core.ComponentStore.{
  ComponentStore, CompStoreId, create_comp_vec, add_component, get_component,
}
use bento_box.Core.ComponentStore.Listing.{IsDenseStore, store_view}

module _ {A : Type 0} ⦃k : Component A⦄ where
  -- In a store from which nothing was removed, getComponent is a lookup of the store id: it throws
  -- only for an id that names no component.
  pub get_component-store_view :
      (store : ComponentStore A) (id : CompStoreId)
      → IsDenseStore store
      → get_component store id ≡ or_raise map_at (store_view store id)
  unfolding get_component map_find
  get_component-store_view store (group, id) d = elim (Option-cases (lookup group store)) [
    | inl e ↦ rw e refl
    | inr (vec, e) ↦ rw e (at-view vec id (d.dense group vec e).well_formed)
  ]

  -- There are ids left for one more component of the group.
  abbrev pub RoomIn : Option (CompVec A) → Type 0
  RoomIn none = Unit
  RoomIn (some vec) = vec.last_id + 1 < id_mod

  -- The component is stored under a new id, and every other id names what it named before.
  pub record Added (comp : A) (group : ℕ) (store : ComponentStore A)
      (r : Result CompStoreId × ComponentStore A) : Type 0 where
    pub id : ℕ
    pub returned : r.0 ≡ ok (group, id)
    pub fresh : store_view store (group, id) ≡ none
    pub stored :
        (j : CompStoreId)
        → store_view r.1 j ≡ (if pair_beq (group, id) j then some comp else store_view store j)
    pub kept : IsDenseStore r.1

  written :
      (comp : A) (group : ℕ) (store : ComponentStore A) (vec : CompVec A)
      → k.is_active comp ≡ true
      → IsDenseStore store
      → lookup group store ≡ some vec
      → vec.last_id + 1 < id_mod
      → Added comp group store
          (ok (group, vec.last_id + 1), update group (λ _. (CompVec.add comp vec).1) store)
  written comp group store vec active d found small = record {
    id = vec.last_id + 1;
    returned = refl;
    fresh = ground (arith, added.1);
    stored = λ (g, j). ground (arith, now g, added.2 j);
    kept = record {
      unique = UniqueKeys-update group _ store d.unique;
      dense = λ g v e. dense_after g v e;
    };
  }
    where
      added :
          ((CompVec.add comp vec).0 ≡ ok (vec.last_id + 1))
          × (view vec (vec.last_id + 1) ≡ none)
          × ((j : ℕ)
              → view (CompVec.add comp vec).1 j
                ≡ (if nat_eqb (vec.last_id + 1) j then some comp else view vec j))
      added = view-add vec comp (d.dense group vec found).well_formed small

      now :
          (g : ℕ)
          → lookup g (update group (λ _. (CompVec.add comp vec).1) store)
            ≡ (if nat_eqb group g then some (CompVec.add comp vec).1 else lookup g store)
      now g = lookup-update group g (λ _. (CompVec.add comp vec).1) vec store found

      dense_after :
          (g : ℕ) (v : CompVec A)
          → lookup g (update group (λ _. (CompVec.add comp vec).1) store) ≡ some v
          → IsDense v
      dense_after g v e = elim (Bool-cases (nat_eqb group g)) [
        | inl same ↦
            let new : (CompVec.add comp vec).1 ≡ v = ground (arith, now g) in
            subst IsDense new (add-IsDense vec comp active (d.dense group vec found) small)
        | inr other ↦ d.dense g v (ground (arith, now g))
      ]

  -- The vector that `addComponent` finds or makes.
  made_IsDenseStore :
      (group : ℕ) (store : ComponentStore A)
      → lookup group store ≡ none
      → IsDenseStore store
      → IsDenseStore (create_comp_vec group store)
  unfolding create_comp_vec
  made_IsDenseStore group store missing d = record {
    unique = UniqueKeys-insert group CompVec.empty store d.unique;
    dense = λ g v e. elim (Bool-cases (nat_eqb group g)) [
      | inl same ↦ subst IsDense (ground (arith, now g)) empty-IsDense
      | inr other ↦ d.dense g v (ground (arith, now g))
    ];
  }
    where
      now :
          (g : ℕ)
          → lookup g (insert group CompVec.empty store)
            ≡ (if nat_eqb group g then some CompVec.empty else lookup g store)
      now g = lookup-insert_new group g CompVec.empty store missing

  store_view-create_comp_vec :
      (group : ℕ) (store : ComponentStore A) (j : CompStoreId)
      → lookup group store ≡ none
      → store_view (create_comp_vec group store) j ≡ store_view store j
  unfolding create_comp_vec lookup
  store_view-create_comp_vec group store (g, j) missing =
      ground (arith, lookup-insert_new group g CompVec.empty store missing)

  lookup-create :
      (group : ℕ) (store : ComponentStore A)
      → lookup group store ≡ none
      → lookup group (create_comp_vec group store) ≡ some CompVec.empty
  unfolding create_comp_vec
  lookup-create group store missing =
      ground (arith, lookup-insert_new group group CompVec.empty store missing)

  added_to_found :
      (comp : A) (group : ℕ) (store : ComponentStore A) (vec : CompVec A) (id : ℕ)
      → lookup group store ≡ some vec
      → (CompVec.add comp vec).0 ≡ ok id
      → add_component comp group store
        ≡ (ok (group, id), update group (λ _. (CompVec.add comp vec).1) store)
  unfolding add_component map_find contains
  added_to_found comp group store vec id found e = rw (found, found, e) refl

  added_to_made :
      (comp : A) (group : ℕ) (store : ComponentStore A)
      → lookup group store ≡ none
      → add_component comp group store ≡ add_component comp group (create_comp_vec group store)
  unfolding add_component map_find contains
  added_to_made comp group store missing = ground (arith, lookup-create group store missing)

  from_made :
      (comp : A) (group : ℕ) (store : ComponentStore A) (r : Result CompStoreId × ComponentStore A)
      → lookup group store ≡ none
      → Added comp group (create_comp_vec group store) r
      → Added comp group store r
  from_made comp group store r missing a = record {
    id = a.id;
    returned = a.returned;
    fresh = rw (← store_view-create_comp_vec group store (group, a.id) missing) a.fresh;
    stored = λ j. rw (← store_view-create_comp_vec group store j missing) (a.stored j);
    kept = a.kept;
  }

  add_to_existing :
      (comp : A) (group : ℕ) (store : ComponentStore A) (vec : CompVec A)
      → k.is_active comp ≡ true
      → IsDenseStore store
      → lookup group store ≡ some vec
      → vec.last_id + 1 < id_mod
      → Added comp group store (add_component comp group store)
  add_to_existing comp group store vec active d found small =
      rw
        (added_to_found comp group store vec (vec.last_id + 1) found
          (view-add vec comp (d.dense group vec found).well_formed small).0)
        (written comp group store vec active d found small)

  -- Adding an active component to a store from which nothing was removed succeeds, while there are
  -- ids left in its group: it is stored under a new id, every other id names what it named before,
  -- and the store stays dense.
  pub add_component-Added :
      (comp : A) (group : ℕ) (store : ComponentStore A)
      → k.is_active comp ≡ true
      → IsDenseStore store
      → RoomIn (lookup group store)
      → Added comp group store (add_component comp group store)
  add_component-Added comp group store active d room = elim (Option-cases (lookup group store)) [
    | inl e ↦ rw (added_to_made comp group store e) (
        from_made comp group store _ e (
          add_to_existing comp group (create_comp_vec group store) CompVec.empty active
            (made_IsDenseStore group store e d) (lookup-create group store e) (omega arith)))
    | inr (vec, e) ↦ add_to_existing comp group store vec active d e (rw e at room)
  ]
