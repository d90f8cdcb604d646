-- ===== src/Index/EntityIndex/Entities.antt =====
-- The set of components of each entity.
use bento_box.Base.{
  ℕ, ◌≡◌, refl, Bool, true, false, ◌&&◌, ◌||◌, not, List, [], ◌∷◌, Option, none, some, arith,
  nat_eqb, Option-cases, Bool-cases, inl, inr, if◌then◌else◌,
}
use bento_box.Base.Classes.{Key, nat_eq, pair_eq, pair_beq}
use bento_box.Exec.{ok, err, map_at, ◌>>=◌}
use bento_box.Std.Map.{lookup, is_some, at as map_find}
use bento_box.Std.Map.Laws.{lookup-update}
use bento_box.Std.Set
use bento_box.Core.ComponentStore.{CompStoreId, ComponentSet}
use bento_box.Index.EntityIndex.{
  EntityIndex, intersection_loop, set_intersection, write_set, add_component, remove_component,
}

module _ {ℓ} {A : Type ℓ} ⦃e : Key A⦄ where
  member-intersection_loop :
      (a b new : List A) (x : A)
      → Set.member x (intersection_loop a b new)
        ≡ ((Set.member x a && Set.member x b) || Set.member x new)
  unfolding intersection_loop Set.member
  member-intersection_loop [] b new x = ground arith
  member-intersection_loop (y ∷ rest) b new x = ground (
    arith,
    member-intersection_loop rest b new x,
    member-intersection_loop rest b (Set.add y new) x,
    Set.member-add y x new,
    e.same_iff y x,
  )

  -- setIntersection holds what both sets hold.
  pub member-set_intersection :
      (a b : List A) (x : A)
      → Set.member x (set_intersection a b) ≡ (Set.member x a && Set.member x b)
  unfolding set_intersection Set.member
  member-set_intersection a b x = ground (arith, member-intersection_loop a b [] x)

module _ {ℓ} {A : Type ℓ} ⦃e : Key A⦄ where
  intersection_loop-IsDistinct :
      (a b new : List A) → Set.IsDistinct new → Set.IsDistinct (intersection_loop a b new)
  unfolding intersection_loop
  intersection_loop-IsDistinct [] b new d = d
  intersection_loop-IsDistinct (y ∷ rest) b new d = elim (Bool-cases (Set.member y b)) [
    | inl both ↦ rw both (intersection_loop-IsDistinct rest b _ (Set.add-IsDistinct y new d))
    | inr one ↦ rw one (intersection_loop-IsDistinct rest b new d)
  ]

  pub set_intersection-IsDistinct : (a b : List A) → Set.IsDistinct (set_intersection a b)
  unfolding set_intersection
  set_intersection-IsDistinct a b = intersection_loop-IsDistinct a b [] tt

abbrev pub holds : Option ComponentSet → CompStoreId → Bool
holds none id = false
holds (some ids) id = Set.member id ids

-- Whether an entity has a component.
abbrev pub has : EntityIndex → ℕ → CompStoreId → Bool
has index entity_id id = holds (lookup entity_id index.entity_comp_map) id

abbrev pub is_known : EntityIndex → ℕ → Bool
is_known index entity_id = is_some (lookup entity_id index.entity_comp_map)

has_written :
    (entity_id j : ℕ) (f : ComponentSet → ComponentSet) (ids : ComponentSet) (index : EntityIndex)
    (d : CompStoreId)
    → lookup entity_id index.entity_comp_map ≡ some ids
    → has (write_set entity_id f index) j d
      ≡ (if nat_eqb entity_id j then Set.member d (f ids) else has index j d)
unfolding write_set
has_written entity_id j f ids index d h =
    ground (arith, lookup-update entity_id j f ids index.entity_comp_map h)

-- Adding a component to an entity that is known gives it to that entity and changes no other
-- membership; for an unknown entity it throws and changes nothing.
pub add_component-has :
    (entity_id : ℕ) (id : CompStoreId) (index : EntityIndex)
    → ((add_component entity_id id index).0
        ≡ (if is_known index entity_id then ok tt else err map_at))
      × ((j : ℕ) (d : CompStoreId)
          → has (add_component entity_id id index).1 j d
            ≡ ((is_known index entity_id && nat_eqb entity_id j && pair_beq id d) || has index j d))
unfolding add_component ◌>>=◌ map_find
add_component-has entity_id id index =
    elim (Option-cases (lookup entity_id index.entity_comp_map)) [
      | inl e ↦ rw e (refl, λ j d. refl)
      | inr (ids, e) ↦ rw e (
        refl,
        λ j d.
            ground (
              arith,
              has_written entity_id j (Set.add id) ids index d e,
              Set.member-add id d ids,
              e,
            ),
      )
    ]

-- Adding a component makes no entity known.
pub is_known-add_component :
    (entity_id j : ℕ) (id : CompStoreId) (index : EntityIndex)
    → is_known (add_component entity_id id index).1 j ≡ is_known index j
unfolding add_component write_set ◌>>=◌ map_find
is_known-add_component entity_id j id index =
    elim (Option-cases (lookup entity_id index.entity_comp_map)) [
      | inl e ↦ rw e refl
      | inr (ids, e) ↦
          rw e
            (ground (arith, e, lookup-update entity_id j (Set.add id) ids index.entity_comp_map e))
    ]

-- For an unknown entity, adding a component throws and leaves the whole index as it was. For a
-- known one it ends normally and gives the component to that entity; every other membership, the
-- entities that are known and the next id stay as they were.
pub add_component_lem :
    (entity_id : ℕ) (id : CompStoreId) (index : EntityIndex)
    → (is_known index entity_id ≡ false → add_component entity_id id index ≡ (err map_at, index))
      × (is_known index entity_id ≡ true
          → ((add_component entity_id id index).0 ≡ ok tt)
            × ((add_component entity_id id index).1.next_entity_id ≡ index.next_entity_id)
            × ((j : ℕ) → is_known (add_component entity_id id index).1 j ≡ is_known index j)
            × ((j : ℕ) (d : CompStoreId)
                → has (add_component entity_id id index).1 j d
                  ≡ ((nat_eqb entity_id j && pair_beq id d) || has index j d)))
unfolding add_component write_set ◌>>=◌ map_find
add_component_lem entity_id id index =
    elim (Option-cases (lookup entity_id index.entity_comp_map)) [
      | inl e ↦ rw e ((λ h. refl), λ h. absurd (ground (arith, e)))
      | inr (ids, e) ↦ rw e (
        (λ h. absurd (ground (arith, e))),
        λ h. (
          refl,
          refl,
          (λ j.
              ground
                (arith, e, lookup-update entity_id j (Set.add id) ids index.entity_comp_map e)),
          λ j d. ground (
            arith,
            lookup-update entity_id j (Set.add id) ids index.entity_comp_map e,
            Set.member-add id d ids,
            e,
          ),
        ),
      )
    ]

-- Removing a component takes it from that entity and changes no other membership; for an unknown
-- entity it throws and changes no membership.
pub remove_component-has :
    (entity_id : ℕ) (id : CompStoreId) (index : EntityIndex)
    → ((remove_component entity_id id index).0
        ≡ (if is_known index entity_id then ok tt else err map_at))
      × ((j : ℕ) (d : CompStoreId)
          → has (remove_component entity_id id index).1 j d
            ≡ (not (nat_eqb entity_id j && pair_beq id d) && has index j d))
unfolding remove_component ◌>>=◌ map_find
remove_component-has entity_id id index =
    elim (Option-cases (lookup entity_id index.entity_comp_map)) [
      | inl e ↦ rw e (refl, λ j d. ground (arith, e))
      | inr (ids, e) ↦ rw e (
        refl,
        λ j d. ground (
          arith,
          has_written entity_id j (Set.erase id) ids index d e,
          Set.member-erase id d ids,
          e,
        ),
      )
    ]
