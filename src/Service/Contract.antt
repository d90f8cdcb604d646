-- ===== src/Service/Contract.antt =====
-- What the engine promises: simulations that are held under names, each as a definition, a table of
-- rows and whether it is locked. Graphs run by their meaning; there are no stores and no indexes.
use bento_box.Base.{
  ℕ, Bool, true, false, String, List, [], ◌∷◌, Option, none, some, if◌then◌else◌, str_eq,
}
use bento_box.Base.Classes.{string_eq}
use bento_box.Exec.{Exec, Result, ok, err, undefined, map_result, pure, ◌>>=◌, ◌>>◌}
use bento_box.Proto.Value.{Value}
use bento_box.Proto.Messages.{AttributeRef, SystemDef, SimulationDef}
use bento_box.Machine.{Machine}
use bento_box.World.Table.{Table, table}
use bento_box.Interp.Meaning.{Ground, read, assign, run}
use bento_box.Simulation.{Simulation, world_of, construct}
use bento_box.Service.{done, already_exists, not_found, not_found_by, internal, crashed, answer}
use bento_box.Service.Queries.{Query, request, describe, Answer, applied, read_as, served}
use bento_box.Service.Steps.{apply, step, drop, get, set}

pub record Held : Type 0 where
  pub def : SimulationDef
  pub rows : Table
  pub locked : Bool

pub record Model : Type 0 where
  pub held : String → Option Held
  pub draws : ℕ

abbrev pub nothing_held : Model
nothing_held = record { held = λ name. none; draws = 0 }

abbrev pub ground_of : Held → ℕ → Ground
ground_of held draws = record { rows = held.rows; draws = draws }

-- The model once a simulation is held under `name`, with what a graph left.
abbrev pub keep : String → Held → Ground → Model → Model
keep name held g model = record {
  held =
      λ other. if str_eq name other then some (record held { rows = g.rows }) else model.held other;
  draws = g.draws;
}

abbrev pub held_by : Simulation → Held
held_by sim = record { def = sim.sim_def; rows = table (world_of sim 0); locked = sim.locked }

abbrev pub is_held_locked : Option Held → Bool
is_held_locked none = false
is_held_locked (some held) = held.locked

module _ (m : Machine) where
  unfoldable pub run_all : List SystemDef → Exec Ground (Unit {0})
  unfolding ◌>>=◌
  run_all [] = pure tt
  run_all (system ∷ rest) = do run m system.graph.outputs; run_all rest

  -- A run on the simulation that is held under `name`, and its reply.
  abbrev pub on_held :
      {A : Type 0} → String → Held → Exec Ground A → (Result A → Answer) → Model → Answer × Model
  on_held name held code reply model =
      let (r, g) = code (ground_of held model.draws) in (reply r, keep name held g model)

  abbrev pub begin : String → Result Held → Model → Answer × Model
  begin name (err e) model = (applied (internal e), model)
  begin name undefined model = (applied crashed, model)
  begin name (ok held) model =
      on_held name held (run m held.def.init_graph.outputs)
        (λ r. applied (answer (λ _. held.def) internal r)) model

  abbrev pub step_held : String → Option Held → Model → Answer × Model
  step_held name none model = (served not_found, model)
  step_held name (some held) model =
      on_held name (record held { locked = true }) (run_all held.def.systems)
        (λ r. served (answer (λ a. a) internal r)) model

  abbrev pub set_held : String → AttributeRef → Value → Option Held → Model → Answer × Model
  set_held name ref v none model = (served not_found, model)
  set_held name ref v (some held) model =
      on_held name held (assign m ref v) (λ r. served (answer (λ a. a) internal r)) model

  abbrev pub get_held : String → AttributeRef → Option Held → Model → Answer × Model
  get_held name ref none model = (read_as not_found, model)
  get_held name ref (some held) model =
      on_held name held (read ref) (λ r. read_as (answer (λ v. v) not_found_by r)) model

  abbrev pub drop_held : String → Option Held → Model → Answer × Model
  drop_held name none model = (served not_found, model)
  drop_held name (some held) model = (
    served (done tt),
    record model { held = λ other. if str_eq name other then none else model.held other },
  )

  abbrev pub describe_held : Option Held → Answer
  describe_held none = applied not_found
  describe_held (some held) = applied (done held.def)

  -- The answer to a query, and what is held afterwards.
  unfoldable pub promise : Query → Model → Answer × Model
  unfolding run_all read assign run
  promise (request (apply def)) model =
      if is_held_locked (model.held def.name)
      then (applied already_exists, model)
      else begin def.name (map_result held_by (construct def)) model
  promise (request (step name)) model = step_held name (model.held name) model
  promise (request (drop name)) model = drop_held name (model.held name) model
  promise (request (get name ref)) model = get_held name ref (model.held name) model
  promise (request (set name ref v)) model = set_held name ref v (model.held name) model
  promise (describe name) model = (describe_held (model.held name), model)

  unfoldable pub promises : List Query → Model → List Answer
  unfolding promise
  promises [] model = []
  promises (query ∷ rest) model = let (a, next) = promise query model in a ∷ promises rest next
