-- ===== src/Service/Refinement.antt =====
-- The engine against what it promises: the same answers to any sequence of queries.
use bento_box.Base.{
  ◌<◌, ◌≡◌, refl, true, ◌&&◌, String, List, [], ◌∷◌, Option, none, some, str_eq, Bool-cases, inl,
  inr,
}
use mathlib.Core.Path.{subst}
use bento_box.Base.Classes.{string_eq}
use bento_box.Exec.{Result, ok, err, undefined, map_result, pure}
use bento_box.Exec.Matches.{Matches, Matches-bind, Matches-pure}
use bento_box.Std.Map.{lookup, is_some}
use bento_box.Std.Map.Laws.{lookup-without, contains-eq-is_some}
use bento_box.Index.TypeIndex.{group_mod}
use bento_box.Proto.Value.{Value}
use bento_box.Proto.Messages.{AttributeRef, SystemDef, SimulationDef}
use bento_box.Machine.{Machine}
use bento_box.Interp.Operations as Op
use bento_box.Interp.Evaluate.{evaluate_node, run_graph}
use bento_box.Interp.Meaning.{read, assign, run}
use bento_box.Interp.Agreement.{Agrees, read-Matches}
use bento_box.Interp.Assigning.{assign-Matches}
use bento_box.Interp.Refinement.{run_graph-Matches}
use bento_box.Simulation.{Simulation, construct}
use bento_box.Simulation.Soundness.{component_count, construct-IsSound}
use bento_box.Service.{
  Engine, not_found_by, internal, answer, no_simulations, is_locked, apply_simulation, run_init,
  run_systems, step_simulation, step_found, set_attribute, set_found, get_attribute, get_found,
  drop_simulation, get_simulation, sim_found,
}
use bento_box.Service.Queries.{
  Query, request, describe, applied, read_as, served, replied, respond, responses,
}
use bento_box.Service.Steps.{apply, step, drop, get, set}
use bento_box.Service.Contract.{
  Held, Model, nothing_held, held_by, is_held_locked, run_all, begin, step_held, set_held, get_held,
  drop_held, describe_held, promise, promises,
}
use bento_box.Service.Holding.{Shows, Holds, SameAnswer, ran_SameAnswer}

-- A definition that is applied has fewer than 2^64 components.
abbrev pub SmallQuery : Query → Type 0
SmallQuery (request (apply def)) = component_count def.entities < group_mod
SmallQuery query = Unit

abbrev pub SmallQueries : List Query → Type 0
SmallQueries [] = Unit
SmallQueries (query ∷ rest) = SmallQuery query × SmallQueries rest

module _ (m : Machine) where
  systems_Matches :
      (systems : List SystemDef) → Matches Agrees (run_systems m systems) (run_all m systems)
  unfolding run_systems run_all
  systems_Matches [] = Matches-pure tt
  systems_Matches (system ∷ rest) =
      Matches-bind (run_graph m system.graph) (run m system.graph.outputs) _ _
        (run_graph-Matches m system.graph) λ _. systems_Matches rest

  step_SameAnswer :
      (name : String) (o : Option Simulation) (h : Option Held) (e : Engine) (model : Model)
      → Shows o h
      → Holds e model
      → SameAnswer (replied served (step_found m name o e)) (step_held m name h model)
  step_SameAnswer name none none e model s k = (refl, k)
  step_SameAnswer name none (some held) e model s k = absurd s
  step_SameAnswer name (some sim) none e model s k = absurd s
  step_SameAnswer name (some sim) (some held) e model (d, l, a) k =
      ran_SameAnswer m name (record sim { locked = true }) (record held { locked = true })
        (run_systems m sim.sim_def.systems) (run_all m held.def.systems)
        (λ r. served (answer (λ a. a) internal r)) e model
        (subst (λ f. Matches Agrees (run_systems m sim.sim_def.systems) (run_all m f.systems)) d
          (systems_Matches sim.sim_def.systems))
        (d, refl, a) k

  set_SameAnswer :
      (name : String) (ref : AttributeRef) (v : Value) (o : Option Simulation) (h : Option Held)
      (e : Engine) (model : Model)
      → Shows o h
      → Holds e model
      → SameAnswer (replied served (set_found m name ref v o e)) (set_held m name ref v h model)
  unfolding evaluate_node Op.const_op pure
  set_SameAnswer name ref v none none e model s k = (refl, k)
  set_SameAnswer name ref v none (some held) e model s k = absurd s
  set_SameAnswer name ref v (some sim) none e model s k = absurd s
  set_SameAnswer name ref v (some sim) (some held) e model s k =
      ran_SameAnswer m name sim held (Op.mutate_op m (pure v) ref) (assign m ref v)
        (λ r. served (answer (λ a. a) internal r)) e model (assign-Matches m ref v) s k

  get_SameAnswer :
      (name : String) (ref : AttributeRef) (o : Option Simulation) (h : Option Held) (e : Engine)
      (model : Model)
      → Shows o h
      → Holds e model
      → SameAnswer (replied read_as (get_found name ref o e)) (get_held m name ref h model)
  get_SameAnswer name ref none none e model s k = (refl, k)
  get_SameAnswer name ref none (some held) e model s k = absurd s
  get_SameAnswer name ref (some sim) none e model s k = absurd s
  get_SameAnswer name ref (some sim) (some held) e model s k =
      ran_SameAnswer m name sim held (Op.retrieve_op ref) (read ref)
        (λ r. read_as (answer (λ a. a) not_found_by r)) e model (read-Matches ref) s k

  describe_SameAnswer :
      (o : Option Simulation) (h : Option Held) (e : Engine) (model : Model)
      → Shows o h
      → Holds e model
      → SameAnswer (replied applied (sim_found o e)) (describe_held m h, model)
  describe_SameAnswer none none e model s k = (refl, k)
  describe_SameAnswer none (some held) e model s k = absurd s
  describe_SameAnswer (some sim) none e model s k = absurd s
  describe_SameAnswer (some sim) (some held) e model (d, l, a) k = rw d (refl, k)

  drop_SameAnswer :
      (name : String) (o : Option Simulation) (h : Option Held) (e : Engine) (model : Model)
      → lookup name e.sims ≡ o
      → Shows o h
      → Holds e model
      → SameAnswer (replied served (drop_simulation name e)) (drop_held m name h model)
  unfolding drop_simulation
  drop_SameAnswer name none none e model f s k = rw (contains-eq-is_some name e.sims, f) (refl, k)
  drop_SameAnswer name none (some held) e model f s k = absurd s
  drop_SameAnswer name (some sim) none e model f s k = absurd s
  drop_SameAnswer name (some sim) (some held) e model f s k =
      rw (contains-eq-is_some name e.sims, f)
        (
          refl,
          record {
            draws = k.draws;
            shows = λ other.
                rw (lookup-without name other e.sims) (elim (Bool-cases (str_eq name other)) [
                  | inl same ↦ rw same tt
                  | inr differs ↦ rw differs (k.shows other)
                ]);
          },
        )

  begin-SameAnswer :
      (def : SimulationDef) (r : Result Simulation) (e : Engine) (model : Model)
      → component_count def.entities < group_mod
      → construct def ≡ r
      → Holds e model
      → SameAnswer
          (replied applied (run_init m def.name r e))
          (begin m def.name (map_result held_by r) model)
  begin-SameAnswer def (err x) e model small c k = (refl, k)
  begin-SameAnswer def undefined e model small c k = (refl, k)
  begin-SameAnswer def (ok sim) e model small c k =
      ran_SameAnswer m def.name sim (held_by sim) (run_graph m sim.sim_def.init_graph)
        (run m sim.sim_def.init_graph.outputs) (λ r. applied (answer (λ _. sim.sim_def) internal r))
        e model (run_graph-Matches m sim.sim_def.init_graph)
        (
          refl,
          refl,
          record { sound = construct-IsSound def sim 0 small c; rows = λ t n. refl; draws = refl },
        )
        k

  locked_lem :
      (o : Option Simulation) (h : Option Held)
      → Shows o h
      → (is_some o && is_locked o) ≡ is_held_locked h
  locked_lem none none s = refl
  locked_lem none (some held) s = absurd s
  locked_lem (some sim) none s = absurd s
  locked_lem (some sim) (some held) (d, l, a) = l

  respond-SameAnswer :
      (query : Query) (e : Engine) (model : Model)
      → SmallQuery query
      → Holds e model
      → SameAnswer (respond m query e) (promise m query model)
  unfolding respond promise apply_simulation step_simulation set_attribute get_attribute
      get_simulation
  respond-SameAnswer (request (apply def)) e model small k =
      rw (contains-eq-is_some def.name e.sims, locked_lem _ _ (k.shows def.name))
        (elim (Bool-cases (is_held_locked (model.held def.name))) [
          | inl refused ↦ rw refused (refl, k)
          | inr allowed ↦ rw allowed (begin-SameAnswer def (construct def) e model small refl k)
        ])
  respond-SameAnswer (request (step name)) e model small k =
      step_SameAnswer name (lookup name e.sims) (model.held name) e model (k.shows name) k
  respond-SameAnswer (request (drop name)) e model small k =
      drop_SameAnswer name (lookup name e.sims) (model.held name) e model refl (k.shows name) k
  respond-SameAnswer (request (get name ref)) e model small k =
      get_SameAnswer name ref (lookup name e.sims) (model.held name) e model (k.shows name) k
  respond-SameAnswer (request (set name ref v)) e model small k =
      set_SameAnswer name ref v (lookup name e.sims) (model.held name) e model (k.shows name) k
  respond-SameAnswer (describe name) e model small k =
      describe_SameAnswer (lookup name e.sims) (model.held name) e model (k.shows name) k

  pub responses_lem :
      (queries : List Query) (e : Engine) (model : Model)
      → SmallQueries queries
      → Holds e model
      → responses m queries e ≡ promises m queries model
  unfolding responses promises
  responses_lem [] e model small k = refl
  responses_lem (query ∷ rest) e model (small, smalls) k =
      let (same, next) = respond-SameAnswer query e model small k in
      rw (same, responses_lem rest (respond m query e).1 (promise m query model).1 smalls next) refl

  -- From an engine without simulations, any queries get the answers that the contract of the engine
  -- promises, as long as each definition that is applied has fewer than 2^64 components. The
  -- contract holds simulations as definitions with a table of rows, and runs graphs by what they
  -- mean: it has no component stores, no indexes and no templates. What it takes from the engine
  -- are the operations on C++ values and what the constructor builds.
  pub responses-promises :
      (queries : List Query)
      → SmallQueries queries
      → responses m queries no_simulations ≡ promises m queries nothing_held
  unfolding lookup
  responses-promises queries small =
      responses_lem queries no_simulations nothing_held small
        (record { draws = refl; shows = λ name. tt })
