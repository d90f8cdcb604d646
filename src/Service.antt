-- ===== src/Service.antt =====
-- sim/include/service/engineService.h and sim/src/service/engineService.cpp: the calls of the engine.
-- The generator of random numbers is one for all simulations, so the engine's state counts the draws.
pub mod Steps
pub mod Frame
pub mod Locking
pub mod Soundness
pub mod Queries
pub mod Contract
pub mod Holding
pub mod Refinement
pub mod RoundTrip
use bento_box.Base.{
  ℕ, Bool, true, false, ◌&&◌, String, List, [], ◌∷◌, Option, none, some, if◌then◌else◌,
}
use bento_box.Base.Classes.{string_eq}
use bento_box.Exec.{Exec, Error, Result, ok, err, undefined, pure, ◌>>=◌, ◌>>◌}
use bento_box.Std.Map.{Map, lookup, contains, without, put, update, keys}
use bento_box.Proto.Value.{Value}
use bento_box.Proto.Messages.{AttributeRef, Node, const_op, Graph, SystemDef, SimulationDef}
use bento_box.Machine.{Machine}
use bento_box.World.{World}
use bento_box.Interp.Operations as Op
use bento_box.Interp.Evaluate.{evaluate_node, run_graph}
use bento_box.Simulation.{Simulation, world_of, construct}

-- What a call answers. `crashed` is undefined behaviour, which ends the process.
pub data Reply (A : Type 0) : Type 0 where
  done : A → Reply A
  already_exists not_found : Reply A
  -- with the exception that was caught
  not_found_by internal : Error → Reply A
  crashed : Reply A

pub record Engine : Type 0 where
  pub sims : Map String Simulation
  pub draws : ℕ

abbrev pub no_simulations : Engine
no_simulations = record { sims = []; draws = 0 }

abbrev pub Call : Type 0 → Type 0
Call A = Engine → Reply A × Engine

-- The simulation with the stores of `w`.
abbrev pub with_world : Simulation → World → Simulation
with_world sim w = record sim { comp_store = w.comp_store; index_store = w.index_store }

-- The engine after code ran on the stores of the simulation `name`.
abbrev pub saved : String → Simulation → World → Engine → Engine
saved name sim w e = record { sims = put name (with_world sim w) e.sims; draws = w.draws }

-- a `try` block with its handler
abbrev pub answer : {A B : Type 0} → (A → B) → (Error → Reply B) → Result A → Reply B
answer f handler (ok a) = done (f a)
answer f handler (err e) = handler e
answer f handler undefined = crashed

abbrev is_locked : Option Simulation → Bool
is_locked none = false
is_locked (some sim) = sim.locked

module _ (m : Machine) where
  abbrev run_init : String → Result Simulation → Call SimulationDef
  run_init name (err x) e = (internal x, e)
  run_init name undefined e = (crashed, e)
  run_init name (ok sim) e =
      let (r, w) = run_graph m sim.sim_def.init_graph (world_of sim e.draws) in
      (answer (λ _. sim.sim_def) internal r, saved name sim w e)

  unfoldable pub apply_simulation : SimulationDef → Call SimulationDef
  apply_simulation def e =
      if contains def.name e.sims && is_locked (lookup def.name e.sims)
      then (already_exists, e)
      else run_init def.name (construct def) e

  unfoldable pub run_systems : List SystemDef → Exec World (Unit {0})
  unfolding ◌>>=◌
  run_systems [] = pure tt
  run_systems (system ∷ rest) = do run_graph m system.graph; run_systems rest

  abbrev step_found : String → Option Simulation → Call (Unit {0})
  step_found name none e = (not_found, e)
  step_found name (some sim) e =
      let (r, w) = run_systems sim.sim_def.systems (world_of sim e.draws) in
      (answer (λ a. a) internal r, saved name (record sim { locked = true }) w e)

  unfoldable pub step_simulation : String → Call (Unit {0})
  unfolding run_systems
  step_simulation name e = step_found name (lookup name e.sims) e

  abbrev set_found : String → AttributeRef → Value → Option Simulation → Call (Unit {0})
  set_found name ref value none e = (not_found, e)
  set_found name ref value (some sim) e =
      let (r, w) = Op.mutate_op m (evaluate_node m (const_op value)) ref (world_of sim e.draws) in
      (answer (λ a. a) internal r, saved name sim w e)

  unfoldable pub set_attribute : String → AttributeRef → Value → Call (Unit {0})
  set_attribute name ref value e = set_found name ref value (lookup name e.sims) e

abbrev get_found : String → AttributeRef → Option Simulation → Call Value
get_found name ref none e = (not_found, e)
get_found name ref (some sim) e =
    let (r, w) = Op.retrieve_op ref (world_of sim e.draws) in
    (answer (λ v. v) not_found_by r, saved name sim w e)

unfoldable pub get_attribute : String → AttributeRef → Call Value
get_attribute name ref e = get_found name ref (lookup name e.sims) e

abbrev sim_found : Option Simulation → Call SimulationDef
sim_found none e = (not_found, e)
sim_found (some sim) e = (done sim.sim_def, e)

unfoldable pub get_simulation : String → Call SimulationDef
get_simulation name e = sim_found (lookup name e.sims) e

unfoldable pub list_simulation : Call (List String)
list_simulation e = (done (keys e.sims), e)

unfoldable pub drop_simulation : String → Call (Unit {0})
drop_simulation name e =
    if contains name e.sims
    then (done tt, record e { sims = without name e.sims })
    else (not_found, e)

-- `git_hash` is filled in by the build.
unfoldable pub get_version : String → Call String
get_version git_hash e = (done git_hash, e)
