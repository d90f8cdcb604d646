-- ===== src/Simulation/Soundness.antt =====
-- The constructor of a simulation makes stores and indexes that agree.
use bento_box.Base.{ℕ, ◌+◌, ◌<◌, ◌≡◌, String, List, [], ◌∷◌, arith, length}
use mathlib.Core.Path.{subst}
use bento_box.Base.Classes.{string_eq, nat_eq, pair_eq}
use bento_box.Exec.{Result, ok, err, undefined, pure, ◌>>=◌}
use bento_box.Std.Map.{Map}
use bento_box.Index.TypeIndex.{group_mod}
use bento_box.Proto.Messages.{ComponentDef, EntityDef, SimulationDef}
use bento_box.Component.UserComponent.{user_component}
use bento_box.World.{World}
use bento_box.World.Soundness.{IsSound, redrawn-IsSound}
use bento_box.World.Growth.{Within}
use bento_box.Simulation.{
  Simulation, world_of, entity_id_of, build_components, build_entities, comp_def_map, configured,
  finished, construct,
}
use bento_box.Simulation.Growing.{
  weaken, after-Within, build_components-Within, entity_id_of-Within, configured-Within,
}

-- The number of components that the entities have.
abbrev pub component_count : List EntityDef → ℕ
component_count [] = 0
component_count (entity ∷ rest) = length entity.components + component_count rest

module _ (defs : Map String ComponentDef) where
  pub build_entities-Within :
      (n : ℕ) (entities : List EntityDef) (w : World)
      → n + component_count entities < group_mod
      → Within n w
      → Within (n + component_count entities) (build_entities defs entities w).1
  unfolding build_entities ◌>>=◌ pure
  build_entities-Within n [] w small h = weaken n _ w (omega arith) h
  build_entities-Within n (entity ∷ rest) w small h =
      let k = n + length entity.components in
      let w' = (entity_id_of entity w).1 in
      after-Within n _ _ (entity_id_of entity w) (omega arith) (entity_id_of-Within n entity w h)
        λ id.
          let built =
            build_components-Within defs id n entity.components w' (omega arith)
              (entity_id_of-Within n entity w h) in
          let w'' = (build_components defs id entity.components w').1 in
          let others : Within (n + component_count (entity ∷ rest))
              (build_entities defs rest w'').1 =
            subst (λ j. Within j (build_entities defs rest w'').1) (omega arith)
              (build_entities-Within k rest w'' (omega arith) built) in
          after-Within k _ _ (build_components defs id entity.components w') (omega arith) built
            λ _. after-Within _ _ _ (build_entities defs rest w'') (omega arith) others λ _. others

finished-IsSound :
    (n draws : ℕ) (def : SimulationDef) (run : Result (List EntityDef) × World) (sim : Simulation)
    → finished def run ≡ ok sim
    → Within n run.1
    → IsSound (world_of sim draws)
finished-IsSound n draws def (ok entities, w) sim e h =
    let same : record w { draws = draws } ≡ world_of sim draws = ground arith in
    subst IsSound same (redrawn-IsSound w draws h.sound)
finished-IsSound n draws def (err x, w) sim e h = absurd (ground arith)
finished-IsSound n draws def (undefined, w) sim e h = absurd (ground arith)

-- Whatever the constructor builds from a definition with fewer than 2^64 components is sound.
pub construct-IsSound :
    (def : SimulationDef) (sim : Simulation) (draws : ℕ)
    → component_count def.entities < group_mod
    → construct def ≡ ok sim
    → IsSound (world_of sim draws)
unfolding construct
construct-IsSound def sim draws small e =
    let defs = comp_def_map def.components [] in
    finished-IsSound (0 + component_count def.entities) draws def
      (build_entities defs def.entities (configured def)) sim e
      (build_entities-Within defs 0 def.entities (configured def) (omega arith)
        (configured-Within def))
