-- ===== src/Core/ComponentStore/Writing.antt =====
-- A write through the reference that `getComponent` returns.
use bento_box.Base.{
  ℕ, ◌≡◌, refl, true, some, if◌then◌else◌, arith, nat_eqb, Option-cases, Bool-cases, inl, inr,
}
use mathlib.Core.Path.{subst}
use bento_box.Base.Classes.{nat_eq, pair_eq, pair_beq}
use bento_box.Exec.{ok}
use bento_box.Std.Map.{lookup, update, at as map_find}
use bento_box.Std.Map.Laws.{UniqueKeys-update, lookup-update}
use bento_box.Core.Component.{Component}
use bento_box.Core.CompVec.{CompVec}
use bento_box.Core.CompVec.Dense.{IsDense}
use bento_box.Core.CompVec.Writing.{Writes, write-Writes, view-is_active}
use bento_box.Core.ComponentStore.{ComponentStore, CompStoreId, set_component, as_comp_set}
use bento_box.Core.ComponentStore.Listing.{IsDenseStore, store_view, as_comp_set-update}

module _ {A : Type 0} ⦃k : Component A⦄ where
  pub record StoreWrites (store : ComponentStore A) (id : CompStoreId) (val : A) : Type 0 where
    pub after : ComponentStore A
    pub returned : set_component store id val ≡ ok after
    pub reads :
        (j : CompStoreId)
        → store_view after j ≡ (if pair_beq id j then some val else store_view store j)
    pub dense : IsDenseStore after
    pub listed : as_comp_set after ≡ as_comp_set store

  group_of_view :
      (store : ComponentStore A) (group id : ℕ) (old : A)
      → store_view store (group, id) ≡ some old
      → (vec : CompVec A) × (lookup group store ≡ some vec)
  group_of_view store group id old h = elim (Option-cases (lookup group store)) [
    | inl e ↦ absurd (ground arith)
    | inr (vec, e) ↦ (vec, e)
  ]

  set_at :
      (store : ComponentStore A) (group id : ℕ) (val : A) (vec : CompVec A)
      → IsDenseStore store
      → lookup group store ≡ some vec
      → Writes vec id val
      → StoreWrites store (group, id) val
  unfolding set_component map_find
  set_at store group id val vec d found w = record {
    after = update group (λ _. w.after) store;
    returned = rw (found, w.returned) refl;
    reads = λ (g, j). ground (arith, now g, w.reads j);
    listed = as_comp_set-update store group vec w.after found w.sized;
    dense = record {
      unique = UniqueKeys-update group _ store d.unique;
      dense = λ g v e. dense_after g v e;
    };
  }
    where
      now :
          (g : ℕ)
          → lookup g (update group (λ _. w.after) store)
            ≡ (if nat_eqb group g then some w.after else lookup g store)
      now g = lookup-update group g (λ _. w.after) vec store found

      dense_after :
          (g : ℕ) (v : CompVec A)
          → lookup g (update group (λ _. w.after) store) ≡ some v
          → IsDense v
      dense_after g v e = elim (Bool-cases (nat_eqb group g)) [
        | inl same ↦ let new : w.after ≡ v = ground (arith, now g) in subst IsDense new w.dense
        | inr other ↦ d.dense g v (ground (arith, now g))
      ]

  -- Writing an active component at an id that names one: the id names the component from then on, and
  -- every other id what it named before.
  pub set_component-StoreWrites :
      (store : ComponentStore A) (id : CompStoreId) (old val : A)
      → k.is_active val ≡ true
      → IsDenseStore store
      → store_view store id ≡ some old
      → StoreWrites store id val
  set_component-StoreWrites store (group, id) old val active d h =
      let (vec, found) = group_of_view store group id old h in
      set_at store group id val vec d found
        (write-Writes vec id old val active (d.dense group vec found) (rw found at h))

  pub store_view-is_active :
      (store : ComponentStore A) (id : CompStoreId) (old : A)
      → IsDenseStore store
      → store_view store id ≡ some old
      → k.is_active old ≡ true
  store_view-is_active store (group, id) old d h =
      let (vec, found) = group_of_view store group id old h in
      view-is_active vec id old (d.dense group vec found) (rw found at h)
