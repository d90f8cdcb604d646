-- ===== src/Simulation/Growing.antt =====
-- The steps of the constructor keep the world sound, and bound the ids that they give out.
use bento_box.Base.{
  ℕ, zero, suc, ◌+◌, ◌≤◌, ◌<◌, ◌≡◌, refl, ◌∙◌, true, false, String, List, [], ◌∷◌, if◌then◌else◌,
  arith, length, nat_eqb, ltb, Bool-cases, inl, inr,
}
use mathlib.Core.Path.{subst}
use bento_box.Base.Classes.{string_eq, nat_eq, pair_eq, pair_beq, pair_beq_iff}
use bento_box.Exec.{Exec, Result, ok, err, undefined, after, ◌>>=◌}
use bento_box.Std.Map.{Map, lookup, insert}
use bento_box.Std.Map.Laws.{lookup-insert, contains-eq-is_some}
use bento_box.Std.Set
use bento_box.Core.ComponentStore.{CompStoreId, ComponentSet}
use bento_box.Index.TypeIndex.{group_mod}
use bento_box.Index.TypeIndex.Groups.{empty-IsValid}
use bento_box.Index.EntityIndex.{EntityIndex, set_ids_loop, set_entity_ids, add_entity_id}
use bento_box.Index.EntityIndex.Entities.{has, holds, add_component-has}
use bento_box.Proto.Messages.{ComponentDef, EntityDef, SimulationDef}
use bento_box.Component.UserComponent.{UserComponent, user_component, make}
use bento_box.World
use bento_box.World.{World}
use bento_box.World.Soundness.{IsSound}
use bento_box.World.Growth.{Within, Grown, add_component-Grown}
use bento_box.Simulation.{
  def_or_default, with_entity, taken_id, fresh_entity_id, fresh_fuel, entity_id_of, index_component,
  build_components, configured_ids, configured,
}
use bento_box.Simulation.Entities.{has-add}

pub weaken : (n k : ℕ) (w : World) → n ≤ k → Within n w → Within k w
weaken n k w low h = record {
  sound = h.sound;
  ids = λ g id e. omega (arith, h.ids g id e);
  types = omega (arith, h.types);
}

-- The bound after code that goes on only where it ended normally.
pub after-Within :
    {A B : Type 0} (n k : ℕ) (next : A → Exec World B) (run : Result A × World)
    → n ≤ k
    → Within n run.1
    → ((a : A) → Within k (next a run.1).1)
    → Within k (after next run).1
after-Within n k next (ok a, w) low h then_h = then_h a
after-Within n k next (err e, w) low h then_h = weaken n k w low h
after-Within n k next (undefined, w) low h then_h = weaken n k w low h

-- Another entity index with the same components.
with_entity-Within :
    (n : ℕ) (w : World) (index : EntityIndex)
    → ((j : ℕ) (c : CompStoreId) → has index j c ≡ has w.index_store.entity j c)
    → Within n w
    → Within n (with_entity w index)
with_entity-Within n w index same h = record {
  sound = record {
    dense = h.sound.dense;
    groups = h.sound.groups;
    typed = h.sound.typed;
    owned = λ e j k. h.sound.owned e j (ground (arith, same e j));
    apart = λ e f j k l. h.sound.apart e f j (ground (arith, same e j)) (ground (arith, same f j));
  };
  ids = h.ids;
  types = h.types;
}

-- A new component goes to one entity.
pub indexed-Within :
    (n entity_id : ℕ) (comp : UserComponent) (w : World) (run : Result CompStoreId × World)
    (g : Grown n comp w run)
    → IsSound w
    → Within (n + 1) (index_component entity_id g.id run.1).1
unfolding index_component
indexed-Within n entity_id comp w run g s =
    let now = (add_component-has entity_id g.id run.1.index_store.entity).1 in
    record {
      sound = record {
        dense = g.within.sound.dense;
        groups = g.within.sound.groups;
        typed = g.within.sound.typed;
        owned = λ e j k.
            ground (arith, now e j, g.stored j, g.within.sound.owned e j, pair_beq_iff g.id j);
        apart = λ e f j k l.
            ground (arith, now e j, now f j, g.within.sound.apart e f j, unowned e j, unowned f j);
      };
      ids = g.within.ids;
      types = g.within.types;
    }
  where
    unowned :
        (e : ℕ) (j : CompStoreId)
        → pair_beq g.id j ≡ true
        → has run.1.index_store.entity e j ≡ false
    unowned e j same = elim (Bool-cases (has w.index_store.entity e j)) [
      | inl h ↦ absurd (ground (arith, s.owned e j h, g.fresh, pair_beq_iff g.id j))
      | inr h ↦ rw g.entity h
    ]

module _ (defs : Map String ComponentDef) where
  pub build_components-Within :
      (entity_id n : ℕ) (names : List String) (w : World)
      → n + length names < group_mod
      → Within n w
      → Within (n + length names) (build_components defs entity_id names w).1
  unfolding build_components ◌>>=◌
  build_components-Within entity_id n [] w small h = weaken n _ w (omega arith) h
  build_components-Within entity_id n (name ∷ rest) w small h =
      let comp = make name (def_or_default (lookup name defs)) in
      let g = add_component-Grown n comp w refl h (omega arith) in
      let v = (index_component entity_id g.id (World.add_component comp w).1).1 in
      rw g.returned (
        after-Within (n + 1) (n + suc (length rest)) _
          (index_component entity_id g.id (World.add_component comp w).1) (omega arith)
          (indexed-Within n entity_id comp w (World.add_component comp w) g h.sound)
          λ _.
            subst (λ k. Within k (build_components defs entity_id rest v).1) (omega arith)
              (build_components-Within entity_id (n + 1) rest v (omega arith)
                (indexed-Within n entity_id comp w (World.add_component comp w) g h.sound)))

-- Making an entity id gives no entity a component.
fresh_entity_id-Within :
    (fuel n : ℕ) (index : EntityIndex) (w : World)
    → ((j : ℕ) (c : CompStoreId) → has index j c ≡ has w.index_store.entity j c)
    → Within n w
    → Within n (taken_id (fresh_entity_id fuel index) w).1
unfolding fresh_entity_id
fresh_entity_id-Within zero n index w same h = h
fresh_entity_id-Within (suc fuel) n index w same h =
    let still : (j : ℕ) (c : CompStoreId)
        → has (add_entity_id index).1 j c ≡ has w.index_store.entity j c =
      λ j c. has-add index j c ∙ same j c in
    elim (Bool-cases (nat_eqb (add_entity_id index).0 0)) [
      | inl again ↦ rw again (fresh_entity_id-Within fuel n (add_entity_id index).1 w still h)
      | inr made ↦ rw made (with_entity-Within n w (add_entity_id index).1 still h)
    ]

pub entity_id_of-Within :
    (n : ℕ) (entity : EntityDef) (w : World) → Within n w → Within n (entity_id_of entity w).1
unfolding entity_id_of
entity_id_of-Within n entity w h = elim (Bool-cases (nat_eqb entity.id 0)) [
  | inl unset ↦
      rw unset (fresh_entity_id-Within fresh_fuel n w.index_store.entity w (λ j c. refl) h)
  | inr given ↦ rw given h
]

pub set_ids_loop-has :
    (ids : List ℕ) (max_id : ℕ) (m : Map ℕ ComponentSet) (j : ℕ) (c : CompStoreId)
    → holds (lookup j m) c ≡ false
    → holds (lookup j (set_ids_loop ids max_id m).1) c ≡ false
unfolding set_ids_loop Set.member
set_ids_loop-has [] max_id m j c h = h
set_ids_loop-has (id ∷ rest) max_id m j c h =
    set_ids_loop-has rest (if ltb max_id id then id else max_id) (insert id [] m) j c
      (ground (arith, h, lookup-insert id j [] m, contains-eq-is_some id m))

pub configured-Within : (def : SimulationDef) → Within 0 (configured def)
unfolding configured set_entity_ids lookup
configured-Within def = record {
  sound = record {
    dense = record { unique = tt; dense = λ g vec e. absurd (ground arith) };
    groups = empty-IsValid;
    typed = λ id c e. absurd (ground arith);
    owned = λ e j k.
        absurd (ground (arith, set_ids_loop-has (configured_ids def.entities []) 0 [] e j refl));
    apart = λ e f j k l.
        absurd (ground (arith, set_ids_loop-has (configured_ids def.entities []) 0 [] e j refl));
  };
  ids = λ g id e. absurd (ground arith);
  types = omega arith;
}
