-- ===== src/Simulation/Placing.antt =====
-- The components that the constructor of a simulation gives to an entity, by their number.
pub mod Entities
use bento_box.Base.{
  ℕ, zero, suc, ◌+◌, ◌<◌, ◌≡◌, refl, ◌∙◌, sym, ap, Bool, true, false, ◌&&◌, ◌||◌, String, List, [],
  ◌∷◌, Option, none, some, if◌then◌else◌, arith, length, str_eq, str_eq_iff, nat_eqb, Bool-cases,
  inl, inr,
}
use mathlib.Core.Path.{subst}
use bento_box.Base.Classes.{string_eq, nat_eq, pair_eq, pair_beq, pair_beq_iff}
use bento_box.Exec.{Exec, Result, ok, pure, ◌>>=◌}
use bento_box.Std.Map.{Map, lookup}
use bento_box.Std.Set
use bento_box.Core.ComponentStore.{CompStoreId, ComponentSet}
use bento_box.Core.ComponentStore.Listing.{store_view}
use bento_box.Index.TypeIndex.{group_mod}
use bento_box.Index.EntityIndex.Entities.{has, is_known, add_component-has}
use bento_box.Proto.Messages.{ComponentDef, EntityDef, SimulationDef}
use bento_box.Component.UserComponent.{UserComponent, user_component, make}
use bento_box.World
use bento_box.World.{World}
use bento_box.World.Soundness.{IsSound}
use bento_box.World.Growth.{Within, Grown, add_component-Grown}
use bento_box.World.Placing.{is_placed, Places}
use bento_box.Simulation.{index_component, build_components}
use bento_box.Simulation.Growing.{indexed-Within}
use bento_box.Simulation.Building.{component_for, indexed-Succeeds}

-- How often a type is listed.
abbrev pub times : String → List String → ℕ
times type_name [] = 0
times type_name (name ∷ rest) = (if str_eq name type_name then 1 else 0) + times type_name rest

-- How many components of a type the definitions of an entity list.
abbrev pub times_in : String → ℕ → List EntityDef → ℕ
times_in type_name entity_id [] = 0
times_in type_name entity_id (entity ∷ rest) =
    (if nat_eqb entity.id entity_id then times type_name entity.components else 0)
    + times_in type_name entity_id rest

-- The entity has `k` components of the type, and every component is as it was made.
pub record Placed (defs : Map String ComponentDef) (type_name : String) (entity_id k : ℕ)
    (w : World) : Type 0 where
  pub ids : ComponentSet
  pub places : Places w type_name entity_id ids
  pub size : length ids ≡ k
  pub fresh :
      (j : CompStoreId) (comp : UserComponent)
      → store_view w.comp_store j ≡ some comp
      → comp ≡ component_for defs comp.type_name

module _ (defs : Map String ComponentDef) (type_name : String) (entity_id : ℕ) where
  new_is_placed :
      (n owner : ℕ) (name : String) (w : World) (run : Result CompStoreId × World)
      (g : Grown n (component_for defs name) w run) (j : CompStoreId)
      → IsSound w
      → is_known w.index_store.entity owner ≡ true
      → is_placed (index_component owner g.id run.1).1 type_name entity_id j ≡ (
          (nat_eqb owner entity_id && str_eq name type_name && pair_beq g.id j)
          || is_placed w type_name entity_id j)
  unfolding index_component
  new_is_placed n owner name w run g j s known =
      let k : is_known run.1.index_store.entity owner ≡ true = rw g.entity known in
      let old : has run.1.index_store.entity entity_id j ≡ has w.index_store.entity entity_id j =
        rw g.entity refl in
      ground (
        arith,
        (add_component-has owner g.id run.1.index_store.entity).1 entity_id j,
        k,
        old,
        g.stored j,
        g.fresh,
        s.owned entity_id j,
        pair_beq_iff g.id j,
      )

  -- A new component, given to `owner`.
  indexed-Placed :
      (n k owner : ℕ) (name : String) (w : World) (run : Result CompStoreId × World)
      (g : Grown n (component_for defs name) w run)
      → IsSound w
      → is_known w.index_store.entity owner ≡ true
      → Placed defs type_name entity_id k w
      → Placed defs type_name entity_id
          (k + (if nat_eqb owner entity_id && str_eq name type_name then 1 else 0))
          (index_component owner g.id run.1).1
  unfolding index_component Set.member
  indexed-Placed n k owner name w run g s known p =
      let now = λ (j : CompStoreId). new_is_placed n owner name w run g j s known in
      let fresh_after : (j : CompStoreId) (comp : UserComponent)
          → store_view (index_component owner g.id run.1).1.comp_store j ≡ some comp
          → comp ≡ component_for defs comp.type_name =
        λ j comp e. elim (Bool-cases (pair_beq g.id j)) [
          | inl same ↦ ground (arith, g.stored j, e)
          | inr other ↦ p.fresh j comp (ground (arith, g.stored j, e))
        ] in
      elim (Bool-cases (nat_eqb owner entity_id && str_eq name type_name)) [
        | inl here ↦ rw here (record {
          ids = g.id ∷ p.ids;
          places = record {
            distinct = (
              ground (arith, p.places.members g.id, s.owned entity_id g.id, g.fresh),
              p.places.distinct,
            );
            members = λ j. ground (arith, now j, p.places.members j);
          };
          size = omega (arith, p.size);
          fresh = fresh_after;
        })
        | inr elsewhere ↦ rw elsewhere (record {
          ids = p.ids;
          places = record {
            distinct = p.places.distinct;
            members = λ j. ground (arith, now j, p.places.members j);
          };
          size = omega (arith, p.size);
          fresh = fresh_after;
        })
      ]

  counted :
      (owner k : ℕ) (name : String) (rest : List String)
      → (k + (if nat_eqb owner entity_id && str_eq name type_name then 1 else 0))
          + (if nat_eqb owner entity_id then times type_name rest else 0)
        ≡ k + (if nat_eqb owner entity_id then times type_name (name ∷ rest) else 0)
  counted owner k name rest = ground arith

  pub build_components-Placed :
      (owner n k : ℕ) (names : List String) (w : World)
      → n + length names < group_mod
      → Within n w
      → is_known w.index_store.entity owner ≡ true
      → Placed defs type_name entity_id k w
      → Placed defs type_name entity_id
          (k + (if nat_eqb owner entity_id then times type_name names else 0))
          (build_components defs owner names w).1
  unfolding build_components ◌>>=◌ pure
  build_components-Placed owner n k [] w small h known p =
      subst (λ j. Placed defs type_name entity_id j w) (ground arith) p
  build_components-Placed owner n k (name ∷ rest) w small h known p =
      let g = add_component-Grown n (component_for defs name) w refl h (omega arith) in
      let run = World.add_component (component_for defs name) w in
      let first = indexed-Succeeds n owner (component_for defs name) w run g known in
      let hit : ℕ = if nat_eqb owner entity_id && str_eq name type_name then 1 else 0 in
      rw (g.returned, first.returned)
        (subst
          (λ j.
            Placed defs type_name entity_id j
              (build_components defs owner rest (index_component owner g.id run.1).1).1)
          (counted owner k name rest)
          (build_components-Placed owner (n + 1) (k + hit) rest (index_component owner g.id run.1).1
            (omega arith) (indexed-Within n owner (component_for defs name) w run g h.sound)
            (first.extends.known owner known)
            (indexed-Placed n k owner name w run g h.sound known p)))
