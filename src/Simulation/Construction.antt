-- ===== src/Simulation/Construction.antt =====
-- The constructor of a simulation never throws, and gives every entity its components.
use bento_box.Base.{
  ℕ, ◌+◌, ◌<◌, ◌≡◌, refl, true, false, String, List, [], ◌∷◌, if◌then◌else◌, arith, length, nat_eqb,
}
use bento_box.Base.Classes.{string_eq, nat_eq, pair_eq}
use bento_box.Exec.{ok, pure, ◌>>=◌}
use bento_box.Std.Map.{Map, lookup}
use bento_box.Std.Set
use bento_box.Index.TypeIndex.{group_mod}
use bento_box.Index.EntityIndex.{set_entity_ids}
use bento_box.Proto.Messages.{ComponentDef, EntityDef, SimulationDef}
use bento_box.World.{World}
use bento_box.World.Growth.{Within}
use bento_box.World.Extending.{Extends, Extends-refl}
use bento_box.Simulation.{
  Simulation, world_of, entity_id_of, build_components, build_entities, comp_def_map,
  configured_ids, configured, max_system_id, set_system_ids, construct,
}
use mathlib.Core.Path.{subst}
use bento_box.Component.UserComponent.{UserComponent}
use bento_box.Simulation.Definitions.{component_named, component_for-component_named}
use bento_box.Simulation.Entities.{set_ids_loop-known}
use bento_box.Simulation.Growing.{build_components-Within, entity_id_of-Within, configured-Within}
use bento_box.Simulation.Soundness.{component_count}
use bento_box.World.Soundness.{IsSound}
use bento_box.Simulation.Soundness.{construct-IsSound}
use bento_box.Simulation.Building.{
  component_for, OwnsAll, OwnsAll-Extends, Succeeds, Succeeds-bind, build_components-Succeeds,
  Known, IdFor, entity_id_of-Succeeds,
}

-- `P` holds of each id that the definition sets.
abbrev pub AllIds : (ℕ → Type 0) → List EntityDef → Type 0
AllIds P [] = Unit
AllIds P (entity ∷ rest) = (nat_eqb entity.id 0 ≡ false → P entity.id) × AllIds P rest

pub AllIds-weaken :
    (P Q : ℕ → Type 0) (entities : List EntityDef)
    → ((id : ℕ) → P id → Q id)
    → AllIds P entities
    → AllIds Q entities
AllIds-weaken P Q [] f h = tt
AllIds-weaken P Q (entity ∷ rest) f (h, hs) = (λ q. f entity.id (h q), AllIds-weaken P Q rest f hs)

-- Each entity was built: under the id that its definition sets, if any, with the components that its
-- definition names.
abbrev pub AllBuilt : (String → UserComponent) → World → List EntityDef → List EntityDef → Type 0
AllBuilt made w [] [] = Unit
AllBuilt made w (entity ∷ rest) (built ∷ others) =
    (built.components ≡ entity.components)
    × (nat_eqb entity.id 0 ≡ false → built.id ≡ entity.id)
    × OwnsAll made w built.id entity.components
    × AllBuilt made w rest others
AllBuilt made w _ _ = ⊥

module _ (defs : Map String ComponentDef) where
  build_entities-Succeeds :
      (n : ℕ) (entities : List EntityDef) (w : World)
      → n + component_count entities < group_mod
      → Within n w
      → AllIds (λ id. Known id w) entities
      → Succeeds w
          (λ built v. AllBuilt (component_for defs) v entities built)
          (build_entities defs entities w)
  unfolding build_entities ◌>>=◌ pure
  build_entities-Succeeds n [] w small h known = record {
    answer = [];
    returned = refl;
    extends = Extends-refl w;
    holds = tt;
  }
  build_entities-Succeeds n (entity ∷ rest) w small h (first_known, known) =
      let k = n + length entity.components in
      let named = entity_id_of-Succeeds entity w first_known in
      let w' = (entity_id_of entity w).1 in
      let h' = entity_id_of-Within n entity w h in
      Succeeds-bind w (IdFor entity)
        (λ built v. AllBuilt (component_for defs) v (entity ∷ rest) built) _ (entity_id_of entity w)
        named
        λ id (id_known, id_set).
          let w'' = (build_components defs id entity.components w').1 in
          let given =
            build_components-Succeeds defs id n entity.components w' (omega arith) h' id_known in
          let others =
            build_entities-Succeeds k rest w'' (omega arith)
              (build_components-Within defs id n entity.components w' (omega arith) h')
              (AllIds-weaken (λ j. Known j w) (λ j. Known j w'') rest
                (λ j q. given.extends.known j (named.extends.known j q)) known) in
          Succeeds-bind w' (λ _ v. OwnsAll (component_for defs) v id entity.components)
            (λ built v. AllBuilt (component_for defs) v (entity ∷ rest) built) _
            (build_components defs id entity.components w') given
            λ _ o.
              Succeeds-bind w'' (λ built v. AllBuilt (component_for defs) v rest built)
                (λ built v. AllBuilt (component_for defs) v (entity ∷ rest) built) _
                (build_entities defs rest w'') others
                λ built b. record {
                  answer = (record entity { id = id }) ∷ built;
                  returned = refl;
                  extends = Extends-refl _;
                  holds = (
                    refl,
                    id_set,
                    OwnsAll-Extends (component_for defs) w'' (build_entities defs rest w'').1 id
                        entity.components others.extends o,
                    b,
                  );
                }

AllBuilt-Extends :
    (made : String → UserComponent) (w v : World) (entities built : List EntityDef)
    → Extends w v
    → AllBuilt made w entities built
    → AllBuilt made v entities built
AllBuilt-Extends made w v [] [] h b = tt
AllBuilt-Extends made w v [] (built ∷ others) h b = absurd b
AllBuilt-Extends made w v (entity ∷ rest) [] h b = absurd b
AllBuilt-Extends made w v (entity ∷ rest) (built ∷ others) h (c, i, o, b) = (
  c,
  i,
  OwnsAll-Extends made w v built.id entity.components h o,
  AllBuilt-Extends made w v rest others h b,
)

-- The ids that `configured_ids` collects.
kept_ids :
    (entities : List EntityDef) (ids : List ℕ) (j : ℕ)
    → Set.member j ids ≡ true
    → Set.member j (configured_ids entities ids) ≡ true
unfolding configured_ids Set.member
kept_ids [] ids j h = h
kept_ids (entity ∷ rest) ids j h =
    kept_ids rest (if nat_eqb entity.id 0 then ids else entity.id ∷ ids) j (ground (arith, h))

collected_ids :
    (entities : List EntityDef) (ids : List ℕ)
    → AllIds (λ id. Set.member id (configured_ids entities ids) ≡ true) entities
unfolding configured_ids Set.member
collected_ids [] ids = tt
collected_ids (entity ∷ rest) ids =
    let ids' = if nat_eqb entity.id 0 then ids else entity.id ∷ ids in
    (λ given. kept_ids rest ids' entity.id (ground (arith, given)), collected_ids rest ids')

pub configured-Known : (def : SimulationDef) → AllIds (λ id. Known id (configured def)) def.entities
unfolding configured set_entity_ids lookup
configured-Known def =
    let ids = configured_ids def.entities [] in
    AllIds-weaken (λ id. Set.member id ids ≡ true) (λ id. Known id (configured def)) def.entities
      (λ id h. ground (arith, set_ids_loop-known ids 0 [] id, h)) (collected_ids def.entities [])

-- The constructor of a simulation with fewer than 2^64 components never throws and makes an
-- unlocked simulation whose stores and indexes agree. Each entity is built with the components that
-- its definition names, under the id that its definition sets, if any: for each name the entity has
-- a component that is stored without values, under the last definition of that name in the list of
-- definitions, or an empty one where there is none.
pub construct-AllBuilt :
    (def : SimulationDef)
    → component_count def.entities < group_mod
    → (sim : Simulation) × (construct def ≡ ok sim)
      × (sim.locked ≡ false)
      × IsSound (world_of sim 0)
      × AllBuilt (component_named def.components) (world_of sim 0) def.entities sim.sim_def.entities
unfolding construct
construct-AllBuilt def small =
    let defs = comp_def_map def.components [] in
    let run = build_entities defs def.entities (configured def) in
    let s : Succeeds (configured def)
        (λ built v. AllBuilt (component_for defs) v def.entities built) run =
      build_entities-Succeeds defs 0 def.entities (configured def) (omega arith)
        (configured-Within def) (configured-Known def) in
    let sim : Simulation = record {
      sim_def = record def {
        entities = s.answer;
        systems = set_system_ids def.systems (max_system_id def.systems 0);
      };
      comp_store = run.1.comp_store;
      index_store = run.1.index_store;
      locked = false;
    } in
    let returned : construct def ≡ ok sim = rw s.returned refl in
    let same : Extends run.1 (world_of sim 0) = record {
      known = λ e h. h;
      owned = λ e id h. h;
      stored = λ id comp h. h;
    } in
    (
      sim,
      returned,
      refl,
      construct-IsSound def sim 0 small returned,
      subst (λ made. AllBuilt made (world_of sim 0) def.entities s.answer)
          (component_for-component_named def.components)
          (AllBuilt-Extends (component_for defs) run.1 (world_of sim 0) def.entities s.answer same
            s.holds),
    )
