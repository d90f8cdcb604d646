-- ===== src/Simulation/Building.antt =====
-- Making an id for an entity and making its components succeed, while there is room.
use bento_box.Base.{
  ℕ, suc, ◌+◌, ◌<◌, ◌≡◌, refl, ◌∙◌, true, false, String, List, [], ◌∷◌, arith, length, nat_eqb,
  Bool-cases, inl, inr,
}
use bento_box.Base.Classes.{string_eq, nat_eq, pair_eq, pair_beq_iff}
use bento_box.Exec.{Exec, Result, ok, after, pure, ◌>>=◌}
use bento_box.Std.Map.{Map, lookup}
use bento_box.Core.ComponentStore.{CompStoreId}
use bento_box.Index.TypeIndex.{group_mod}
use bento_box.Index.EntityIndex.{EntityIndex, add_entity_id}
use bento_box.Index.EntityIndex.Entities.{has, is_known, add_component-has, is_known-add_component}
use bento_box.Proto.Messages.{ComponentDef, EntityDef}
use bento_box.Component.UserComponent.{UserComponent, make}
use bento_box.World
use bento_box.World.{World}
use bento_box.World.Growth.{Within, Grown, add_component-Grown}
use bento_box.World.Extending.{Extends, Extends-refl, Extends-trans, Owns, Owns-Extends}
use bento_box.Simulation.{
  def_or_default, with_entity, taken_id, fresh_entity_id, fresh_fuel, entity_id_of, index_component,
  build_components, configured,
}
use bento_box.Simulation.Entities.{added, has-add, is_known-add, one_round, two_rounds}
use bento_box.Simulation.Growing.{indexed-Within}

-- The component that is made for a type name: one without values, under the definition of that name.
abbrev pub component_for : Map String ComponentDef → String → UserComponent
component_for defs name = make name (def_or_default (lookup name defs))

-- The entity has a component of each type that `names` lists.
abbrev pub OwnsAll : (String → UserComponent) → World → ℕ → List String → Type 0
OwnsAll made w entity_id [] = Unit
OwnsAll made w entity_id (name ∷ rest) =
    Owns w entity_id (made name) × OwnsAll made w entity_id rest

pub OwnsAll-Extends :
    (made : String → UserComponent) (w v : World) (entity_id : ℕ) (names : List String)
    → Extends w v
    → OwnsAll made w entity_id names
    → OwnsAll made v entity_id names
OwnsAll-Extends made w v e [] h o = tt
OwnsAll-Extends made w v e (name ∷ rest) h (o, os) =
    (Owns-Extends h o, OwnsAll-Extends made w v e rest h os)

-- `run` ended normally, in a world that extends `w` and in which `P` holds of the result.
pub record Succeeds {A : Type 0} (w : World) (P : A → World → Type 0) (run : Result A × World)
    : Type 0 where
  pub answer : A
  pub returned : run.0 ≡ ok answer
  pub extends : Extends w run.1
  pub holds : P answer run.1

-- A new component that is given to an entity.
pub indexed-Succeeds :
    (n entity_id : ℕ) (comp : UserComponent) (w : World) (run : Result CompStoreId × World)
    (g : Grown n comp w run)
    → is_known w.index_store.entity entity_id ≡ true
    → Succeeds w (λ _ v. Owns v entity_id comp) (index_component entity_id g.id run.1)
unfolding index_component
indexed-Succeeds n entity_id comp w run g known =
    let (r, now) = add_component-has entity_id g.id run.1.index_store.entity in
    let entity = run.1.index_store.entity in
    record {
      answer = tt;
      returned = r ∙ rw (g.entity, known) refl;
      extends = record {
        known = λ e h. is_known-add_component entity_id e g.id entity ∙ rw g.entity h;
        owned = λ e j h. let old : has entity e j ≡ true = rw g.entity h in ground (arith, now e j);
        stored = λ j c h. ground (arith, g.stored j, g.fresh, h, pair_beq_iff g.id j);
      };
      holds = record {
        id = g.id;
        owned =
            let k : is_known entity entity_id ≡ true = rw g.entity known in
            ground (arith, now entity_id g.id, pair_beq_iff g.id g.id);
        stored = ground (arith, g.stored g.id, pair_beq_iff g.id g.id);
      };
    }

pub Succeeds-bind :
    {A B : Type 0} (w : World) (P : A → World → Type 0) (Q : B → World → Type 0)
    (next : A → Exec World B) (run : Result A × World)
    → Succeeds w P run
    → ((a : A) → P a run.1 → Succeeds run.1 Q (next a run.1))
    → Succeeds w Q (after next run)
Succeeds-bind w P Q next run s then_s =
    let t = then_s s.answer s.holds in
    rw s.returned (record {
      answer = t.answer;
      returned = t.returned;
      extends = Extends-trans s.extends t.extends;
      holds = t.holds;
    })

module _ (defs : Map String ComponentDef) where
  pub build_components-Succeeds :
      (entity_id n : ℕ) (names : List String) (w : World)
      → n + length names < group_mod
      → Within n w
      → is_known w.index_store.entity entity_id ≡ true
      → Succeeds w
          (λ _ v. OwnsAll (component_for defs) v entity_id names)
          (build_components defs entity_id names w)
  unfolding build_components ◌>>=◌ pure
  build_components-Succeeds entity_id n [] w small h known = record {
    answer = tt;
    returned = refl;
    extends = Extends-refl w;
    holds = tt;
  }
  build_components-Succeeds entity_id n (name ∷ rest) w small h known =
      let comp = component_for defs name in
      let g = add_component-Grown n comp w refl h (omega arith) in
      let first = indexed-Succeeds n entity_id comp w (World.add_component comp w) g known in
      let v = (index_component entity_id g.id (World.add_component comp w).1).1 in
      rw g.returned (
        Succeeds-bind w (λ _ v. Owns v entity_id comp)
          (λ _ v. OwnsAll (component_for defs) v entity_id (name ∷ rest)) _
          (index_component entity_id g.id (World.add_component comp w).1) first
          λ _ o.
            let others =
              build_components-Succeeds entity_id (n + 1) rest v (omega arith)
                (indexed-Within n entity_id comp w (World.add_component comp w) g h.sound)
                (first.extends.known entity_id known) in
            record {
              answer = others.answer;
              returned = others.returned;
              extends = others.extends;
              holds = (Owns-Extends others.extends o, others.holds);
            })

-- What was made for an entity: an id that is known.
abbrev pub Known : ℕ → World → Type 0
Known id w = is_known w.index_store.entity id ≡ true

added-Extends :
    (w : World) (index : EntityIndex)
    → Extends w (with_entity w index)
    → Extends w (with_entity w (added index))
added-Extends w index h = record {
  known = λ e k. ground (arith, is_known-add index e, h.known e k);
  owned = λ e j k. has-add index e j ∙ h.owned e j k;
  stored = λ j c k. k;
}

-- Making an entity id succeeds in each of the rounds.
taken-Succeeds :
    (n : ℕ) (index : EntityIndex) (w : World)
    → Extends w (with_entity w index)
    → 0 < index.next_entity_id
    → Succeeds w Known (taken_id (fresh_entity_id (suc n) index) w)
taken-Succeeds n index w h high = rw (one_round n index high) (record {
  answer = index.next_entity_id;
  returned = refl;
  extends = added-Extends w index h;
  holds = ground (arith, is_known-add index index.next_entity_id);
})

next_of_zero : (index : EntityIndex) → index.next_entity_id ≡ 0 → 0 < (added index).next_entity_id
unfolding add_entity_id
next_of_zero index h = ground (arith, h)

-- The id that the entity has, or one that was made for it; either way a known one.
abbrev pub IdFor : EntityDef → ℕ → World → Type 0
IdFor entity id w = Known id w × (nat_eqb entity.id 0 ≡ false → id ≡ entity.id)

pub entity_id_of-Succeeds :
    (entity : EntityDef) (w : World)
    → (nat_eqb entity.id 0 ≡ false → Known entity.id w)
    → Succeeds w (IdFor entity) (entity_id_of entity w)
unfolding entity_id_of
entity_id_of-Succeeds entity w configured = elim (Bool-cases (nat_eqb entity.id 0)) [
  | inr given ↦ rw given (record {
    answer = entity.id;
    returned = refl;
    extends = Extends-refl w;
    holds = (configured given, λ _. refl);
  })
  | inl unset ↦
      let index = w.index_store.entity in
      let made : Succeeds w Known (taken_id (fresh_entity_id fresh_fuel index) w) =
        elim (Bool-cases (nat_eqb index.next_entity_id 0)) [
          | inr high ↦ taken-Succeeds 1 index w (Extends-refl w) (ground arith)
          | inl zero_next ↦ rw (two_rounds 1 index (ground arith)) (
              taken-Succeeds 0 (added index) w (added-Extends w index (Extends-refl w))
                (next_of_zero index (ground arith)))
        ] in
      rw unset (record {
        answer = made.answer;
        returned = made.returned;
        extends = made.extends;
        holds = (made.holds, λ q. absurd (ground arith));
      })
]
