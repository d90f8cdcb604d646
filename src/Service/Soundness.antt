-- ===== src/Service/Soundness.antt =====
-- The stores of every simulation of an engine agree, whatever calls were made.
use bento_box.Base.{
  ℕ, ◌<◌, ◌≡◌, refl, true, ◌&&◌, String, List, [], ◌∷◌, Option, none, some, arith, str_eq,
  Bool-cases, inl, inr,
}
use mathlib.Core.Path.{subst}
use bento_box.Base.Classes.{string_eq, nat_eq}
use bento_box.Exec.{Result, ok, err, undefined}
use bento_box.Exec.Keeps.{Keeps, Keeps-pure, Keeps-bind}
use bento_box.Std.Map.{lookup, contains}
use bento_box.Std.Map.Laws.{lookup-put, lookup-without}
use bento_box.Core.ComponentStore.{CompStoreId}
use bento_box.Core.ComponentStore.Listing.{store_view}
use bento_box.Index.TypeIndex.{group_mod}
use bento_box.Index.EntityIndex.Entities.{has}
use bento_box.Proto.Value.{Value}
use bento_box.Proto.Messages.{AttributeRef, const_op, SystemDef, SimulationDef}
use bento_box.Machine.{Machine}
use bento_box.Component.UserComponent.{UserComponent, user_component}
use bento_box.World.{World, locate}
use bento_box.World.Soundness.{IsSound, redrawn-IsSound, locate-type_name}
use bento_box.Interp.Evaluate.{evaluate_node, run_graph}
use bento_box.Interp.Soundness.{
  retrieve_op-IsSound, evaluate_node-IsSound, mutate_op-IsSound, run_graph-IsSound,
}
use bento_box.Simulation.{Simulation, world_of, construct}
use bento_box.Simulation.Soundness.{component_count, construct-IsSound}
use bento_box.Service.{
  Engine, no_simulations, saved, is_locked, apply_simulation, run_init, run_systems,
  step_simulation, step_found, set_attribute, set_found, get_attribute, get_found, drop_simulation,
}
use bento_box.Service.Steps.{Request, apply, step, drop, get, set, serve_all}

pub record IsSoundEngine (e : Engine) : Type 0 where
  pub sound :
      (name : String) (sim : Simulation) → lookup name e.sims ≡ some sim → IsSound (world_of sim 0)

-- Every definition that is applied has fewer than 2^64 components.
abbrev pub Fits : List Request → Type 0
Fits [] = Unit
Fits (apply def ∷ rest) = (component_count def.entities < group_mod) × Fits rest
Fits (request ∷ rest) = Fits rest

saved-IsSoundEngine :
    (name : String) (sim : Simulation) (w : World) (e : Engine)
    → IsSound w
    → IsSoundEngine e
    → IsSoundEngine (saved name sim w e)
saved-IsSoundEngine name sim w e s h = record {
  sound = λ other found k. elim (Bool-cases (str_eq name other)) [
    | inl same ↦
        let now : record w { draws = 0 } ≡ world_of found 0 = ground (
          arith,
          lookup-put name other
              (record sim { comp_store = w.comp_store; index_store = w.index_store }) e.sims,
        ) in
        subst IsSound now (redrawn-IsSound w 0 s)
    | inr differs ↦ h.sound other found (
        ground (
          arith,
          lookup-put name other
              (record sim { comp_store = w.comp_store; index_store = w.index_store }) e.sims,
        ))
  ];
}

module _ (m : Machine) where
  run_systems-IsSound : (systems : List SystemDef) → Keeps IsSound (run_systems m systems)
  unfolding run_systems
  run_systems-IsSound [] = Keeps-pure tt
  run_systems-IsSound (system ∷ rest) =
      Keeps-bind (run_graph m system.graph) (λ _. run_systems m rest)
        (run_graph-IsSound m system.graph) λ _. run_systems-IsSound rest

  -- The world that a call on `sim` starts from.
  start_IsSound :
      (name : String) (sim : Simulation) (e : Engine)
      → IsSoundEngine e
      → lookup name e.sims ≡ some sim
      → IsSound (world_of sim e.draws)
  start_IsSound name sim e h found =
      redrawn-IsSound (world_of sim 0) e.draws (h.sound name sim found)

  step_found-IsSoundEngine :
      (name : String) (o : Option Simulation) (e : Engine)
      → lookup name e.sims ≡ o
      → IsSoundEngine e
      → IsSoundEngine (step_found m name o e).1
  step_found-IsSoundEngine name none e g h = h
  step_found-IsSoundEngine name (some sim) e g h =
      saved-IsSoundEngine name (record sim { locked = true }) _ e
        ((run_systems-IsSound sim.sim_def.systems).at _ (start_IsSound name sim e h g)) h

  set_found-IsSoundEngine :
      (name : String) (ref : AttributeRef) (v : Value) (o : Option Simulation) (e : Engine)
      → lookup name e.sims ≡ o
      → IsSoundEngine e
      → IsSoundEngine (set_found m name ref v o e).1
  set_found-IsSoundEngine name ref v none e g h = h
  set_found-IsSoundEngine name ref v (some sim) e g h =
      saved-IsSoundEngine name sim _ e
        ((mutate_op-IsSound m (evaluate_node m (const_op v)) ref
            (evaluate_node-IsSound m (const_op v))).at
          _ (start_IsSound name sim e h g))
        h

  get_found-IsSoundEngine :
      (name : String) (ref : AttributeRef) (o : Option Simulation) (e : Engine)
      → lookup name e.sims ≡ o
      → IsSoundEngine e
      → IsSoundEngine (get_found name ref o e).1
  get_found-IsSoundEngine name ref none e g h = h
  get_found-IsSoundEngine name ref (some sim) e g h =
      saved-IsSoundEngine name sim _ e
        ((retrieve_op-IsSound ref).at _ (start_IsSound name sim e h g)) h

  run_init-IsSoundEngine :
      (def : SimulationDef) (r : Result Simulation) (e : Engine)
      → component_count def.entities < group_mod
      → construct def ≡ r
      → IsSoundEngine e
      → IsSoundEngine (run_init m def.name r e).1
  run_init-IsSoundEngine def (ok sim) e small c h =
      saved-IsSoundEngine def.name sim _ e
        ((run_graph-IsSound m sim.sim_def.init_graph).at _
          (construct-IsSound def sim e.draws small c))
        h
  run_init-IsSoundEngine def (err x) e small c h = h
  run_init-IsSoundEngine def undefined e small c h = h

  apply_simulation-IsSoundEngine :
      (def : SimulationDef) (e : Engine)
      → component_count def.entities < group_mod
      → IsSoundEngine e
      → IsSoundEngine (apply_simulation m def e).1
  unfolding apply_simulation
  apply_simulation-IsSoundEngine def e small h =
      elim (Bool-cases (contains def.name e.sims && is_locked (lookup def.name e.sims))) [
        | inl refused ↦ rw refused h
        | inr allowed ↦ rw allowed (run_init-IsSoundEngine def (construct def) e small refl h)
      ]

  drop_simulation-IsSoundEngine :
      (name : String) (e : Engine) → IsSoundEngine e → IsSoundEngine (drop_simulation name e).1
  unfolding drop_simulation
  drop_simulation-IsSoundEngine name e h = elim (Bool-cases (contains name e.sims)) [
    | inl there ↦ rw there (record {
      sound = λ other sim k. h.sound other sim (ground (arith, lookup-without name other e.sims));
    })
    | inr missing ↦ rw missing h
  ]

  -- If every simulation of an engine has stores and indexes that agree, then so it is after any
  -- calls, whatever they answer, as long as each definition that is applied has fewer than 2^64
  -- components. Stores and indexes agree where nothing was removed from the stores, every component
  -- is in the group of its type, no two types share a group, and what entities have are components,
  -- each of one entity at most.
  pub serve_all-IsSoundEngine :
      (requests : List Request) (e : Engine)
      → Fits requests
      → IsSoundEngine e
      → IsSoundEngine (serve_all m requests e)
  unfolding serve_all step_simulation set_attribute get_attribute
  serve_all-IsSoundEngine [] e f h = h
  serve_all-IsSoundEngine (apply def ∷ rest) e (small, f) h =
      serve_all-IsSoundEngine rest _ f (apply_simulation-IsSoundEngine def e small h)
  serve_all-IsSoundEngine (step name ∷ rest) e f h =
      serve_all-IsSoundEngine rest _ f (step_found-IsSoundEngine name (lookup name e.sims) e refl h)
  serve_all-IsSoundEngine (drop name ∷ rest) e f h =
      serve_all-IsSoundEngine rest _ f (drop_simulation-IsSoundEngine name e h)
  serve_all-IsSoundEngine (get name ref ∷ rest) e f h =
      serve_all-IsSoundEngine rest _ f
        (get_found-IsSoundEngine name ref (lookup name e.sims) e refl h)
  serve_all-IsSoundEngine (set name ref v ∷ rest) e f h =
      serve_all-IsSoundEngine rest _ f
        (set_found-IsSoundEngine name ref v (lookup name e.sims) e refl h)

  -- In every simulation that calls can lead to from an engine without simulations, where each
  -- definition applied has fewer than 2^64 components, what getComponent finds for an entity and a
  -- type is a component of that type that this entity has and no other.
  pub locate-serve_all :
      (requests : List Request) (name type_name : String) (sim : Simulation) (entity_id : ℕ)
      (id : CompStoreId)
      → Fits requests
      → lookup name (serve_all m requests no_simulations).sims ≡ some sim
      → locate (world_of sim 0) type_name entity_id ≡ ok id
      → (comp : UserComponent) × (store_view sim.comp_store id ≡ some comp)
        × (comp.type_name ≡ type_name)
        × (has sim.index_store.entity entity_id id ≡ true)
        × ((other : ℕ) → has sim.index_store.entity other id ≡ true → entity_id ≡ other)
  unfolding lookup
  locate-serve_all requests name type_name sim entity_id id f k l =
      let start : IsSoundEngine no_simulations = record {
        sound = λ n s e. absurd (ground arith);
      } in
      let s = (serve_all-IsSoundEngine requests no_simulations f start).sound name sim k in
      let (comp, found, typed, owned) =
        locate-type_name (world_of sim 0) type_name entity_id id s l in
      (comp, found, typed, owned, λ other h. s.apart entity_id other id owned h)
