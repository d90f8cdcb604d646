-- ===== src/Simulation/Placing/Entities.antt =====
-- The entities that the constructor of a simulation builds, by how many components of a type each
-- is given.
use bento_box.Base.{
  ℕ, zero, suc, ◌+◌, ◌<◌, ◌≡◌, refl, ◌∙◌, String, List, [], ◌∷◌, if◌then◌else◌, arith, length,
  nat_eqb, Bool-cases, inl, inr,
}
use mathlib.Core.Path.{subst}
use bento_box.Base.Classes.{string_eq, nat_eq, pair_eq}
use bento_box.Exec.{pure, ◌>>=◌}
use bento_box.Std.Map.{Map, lookup}
use bento_box.Std.Set
use bento_box.Core.ComponentStore.{CompStoreId}
use bento_box.Index.TypeIndex.{group_mod}
use bento_box.Index.EntityIndex.{EntityIndex, add_entity_id, set_entity_ids}
use bento_box.Index.EntityIndex.Entities.{has}
use bento_box.Proto.Messages.{ComponentDef, EntityDef, SimulationDef}
use bento_box.Component.UserComponent.{user_component}
use bento_box.World.{World}
use bento_box.World.Growth.{Within}
use bento_box.World.Extending.{Extends-refl}
use bento_box.Simulation.{
  with_entity, taken_id, fresh_entity_id, fresh_fuel, entity_id_of, build_components,
  build_entities, configured_ids, configured,
}
use bento_box.Simulation.Entities.{has-add}
use bento_box.Simulation.Growing.{build_components-Within, entity_id_of-Within, set_ids_loop-has}
use bento_box.Simulation.Soundness.{component_count}
use bento_box.Simulation.Building.{
  component_for, OwnsAll, Succeeds, Succeeds-bind, build_components-Succeeds, Known, IdFor,
  entity_id_of-Succeeds,
}
use bento_box.Simulation.Construction.{AllIds, AllIds-weaken}
use bento_box.Simulation.Placing.{times, times_in, Placed, build_components-Placed}

module _ (defs : Map String ComponentDef) (type_name : String) (entity_id : ℕ) where
  same_Placed :
      (k : ℕ) (w : World) (index : EntityIndex)
      → ((j : CompStoreId) → has index entity_id j ≡ has w.index_store.entity entity_id j)
      → Placed defs type_name entity_id k w
      → Placed defs type_name entity_id k (with_entity w index)
  same_Placed k w index same p = record {
    ids = p.ids;
    places = record {
      distinct = p.places.distinct;
      members = λ j. ground (arith, same j, p.places.members j);
    };
    size = p.size;
    fresh = p.fresh;
  }

  -- Making an entity id gives no entity a component.
  taken_Placed :
      (fuel k : ℕ) (index : EntityIndex) (w : World)
      → ((j : CompStoreId) → has index entity_id j ≡ has w.index_store.entity entity_id j)
      → Placed defs type_name entity_id k w
      → Placed defs type_name entity_id k (taken_id (fresh_entity_id fuel index) w).1
  unfolding fresh_entity_id
  taken_Placed zero k index w same p = p
  taken_Placed (suc fuel) k index w same p =
      let still : (j : CompStoreId)
          → has (add_entity_id index).1 entity_id j ≡ has w.index_store.entity entity_id j =
        λ j. has-add index entity_id j ∙ same j in
      elim (Bool-cases (nat_eqb (add_entity_id index).0 0)) [
        | inl again ↦ rw again (taken_Placed fuel k (add_entity_id index).1 w still p)
        | inr made ↦ rw made (same_Placed k w (add_entity_id index).1 still p)
      ]

  entity_id_of-Placed :
      (k : ℕ) (entity : EntityDef) (w : World)
      → Placed defs type_name entity_id k w
      → Placed defs type_name entity_id k (entity_id_of entity w).1
  unfolding entity_id_of
  entity_id_of-Placed k entity w p = elim (Bool-cases (nat_eqb entity.id 0)) [
    | inl unset ↦ rw unset (taken_Placed fresh_fuel k w.index_store.entity w (λ j. refl) p)
    | inr given ↦ rw given p
  ]

  pub build_entities-Placed :
      (n k : ℕ) (entities : List EntityDef) (w : World)
      → n + component_count entities < group_mod
      → Within n w
      → AllIds (λ id. Known id w) entities
      → Placed defs type_name entity_id k w
      → Succeeds w
          (λ built v. Placed defs type_name entity_id (k + times_in type_name entity_id built) v)
          (build_entities defs entities w)
  unfolding build_entities ◌>>=◌ pure
  build_entities-Placed n k [] w small h known p = record {
    answer = [];
    returned = refl;
    extends = Extends-refl w;
    holds = subst (λ j. Placed defs type_name entity_id j w) (omega arith) p;
  }
  build_entities-Placed n k (entity ∷ rest) w small h (first_known, known) p =
      let named = entity_id_of-Succeeds entity w first_known in
      let w' = (entity_id_of entity w).1 in
      let h' = entity_id_of-Within n entity w h in
      Succeeds-bind w (IdFor entity)
        (λ built v. Placed defs type_name entity_id (k + times_in type_name entity_id built) v) _
        (entity_id_of entity w) named
        λ id (id_known, id_set).
          let w'' = (build_components defs id entity.components w').1 in
          let given =
            build_components-Succeeds defs id n entity.components w' (omega arith) h' id_known in
          let here : ℕ = if nat_eqb id entity_id then times type_name entity.components else 0 in
          let others =
            build_entities-Placed (n + length entity.components) (k + here) rest w'' (omega arith)
              (build_components-Within defs id n entity.components w' (omega arith) h')
              (AllIds-weaken (λ j. Known j w) (λ j. Known j w'') rest
                (λ j q. given.extends.known j (named.extends.known j q)) known)
              (build_components-Placed defs type_name entity_id id n k entity.components w'
                (omega arith) h' id_known (entity_id_of-Placed k entity w p)) in
          Succeeds-bind w' (λ _ v. OwnsAll (component_for defs) v id entity.components)
            (λ built v. Placed defs type_name entity_id (k + times_in type_name entity_id built) v)
            _ (build_components defs id entity.components w') given
            λ _ o.
              Succeeds-bind w''
                (λ built v.
                  Placed defs type_name entity_id ((k + here) + times_in type_name entity_id built)
                    v)
                (λ built v.
                  Placed defs type_name entity_id (k + times_in type_name entity_id built) v)
                _ (build_entities defs rest w'') others
                λ built b. record {
                  answer = (record entity { id = id }) ∷ built;
                  returned = refl;
                  extends = Extends-refl _;
                  holds =
                      subst
                        (λ j. Placed defs type_name entity_id j (build_entities defs rest w'').1)
                        (omega arith) b;
                }

  pub configured-Placed : (def : SimulationDef) → Placed defs type_name entity_id 0 (configured def)
  unfolding configured set_entity_ids lookup Set.member
  configured-Placed def = record {
    ids = [];
    places = record {
      distinct = tt;
      members = λ j.
          ground (arith, set_ids_loop-has (configured_ids def.entities []) 0 [] entity_id j refl);
    };
    size = refl;
    fresh = λ j comp e. absurd (ground arith);
  }
