-- ===== src/Service/Steps.antt =====
-- Sequences of calls, and what no call but a drop can do to a simulation that has been stepped.
use bento_box.Base.{
  ◌≡◌, refl, true, false, ◌&&◌, String, List, [], ◌∷◌, Option, none, some, arith, str_eq,
  str_eq_iff, Bool-cases, inl, inr,
}
use bento_box.Base.Classes.{string_eq}
use bento_box.Exec.{Result, ok, err, undefined}
use bento_box.Std.Map.{lookup, contains}
use bento_box.Std.Map.Laws.{lookup-put, lookup-without, contains-eq-is_some}
use bento_box.Proto.Value.{Value}
use bento_box.Proto.Messages.{AttributeRef, SimulationDef}
use bento_box.Machine.{Machine}
use bento_box.World.{World}
use bento_box.Simulation.{Simulation, construct}
use bento_box.Service.{
  Engine, with_world, saved, is_locked, apply_simulation, run_init, step_simulation, step_found,
  set_attribute, set_found, get_attribute, get_found, drop_simulation,
}

-- The calls that touch the engine's state.
pub data Request : Type 0 where
  apply : SimulationDef → Request
  step drop : String → Request
  get : String → AttributeRef → Request
  set : String → AttributeRef → Value → Request

module _ (m : Machine) where
  unfoldable pub serve : Request → Engine → Engine
  serve (apply def) e = (apply_simulation m def e).1
  serve (step name) e = (step_simulation m name e).1
  serve (drop name) e = (drop_simulation name e).1
  serve (get name ref) e = (get_attribute name ref e).1
  serve (set name ref value) e = (set_attribute m name ref value e).1

  unfoldable pub serve_all : List Request → Engine → Engine
  unfolding serve
  serve_all [] e = e
  serve_all (request ∷ rest) e = serve_all rest (serve request e)

-- The call is not a drop of `name`.
abbrev pub NoDrop : String → List Request → Type 0
NoDrop name [] = Unit
NoDrop name (drop other ∷ rest) = (str_eq other name ≡ false) × NoDrop name rest
NoDrop name (request ∷ rest) = NoDrop name rest

-- The simulation `name` is locked, under the definition `def`.
pub record Frozen (name : String) (def : SimulationDef) (e : Engine) : Type 0 where
  pub sim : Simulation
  pub found : lookup name e.sims ≡ some sim
  pub locked : sim.locked ≡ true
  pub same_def : sim.sim_def ≡ def

-- Storing another simulation, or the same one still locked under its definition, keeps it frozen.
saved-Frozen :
    (name other : String) (def : SimulationDef) (sim : Simulation) (w : World) (e : Engine)
    → Frozen name def e
    → (str_eq other name ≡ true → (sim.locked ≡ true) × (sim.sim_def ≡ def))
    → Frozen name def (saved other sim w e)
saved-Frozen name other def sim w e f keep = elim (Bool-cases (str_eq other name)) [
  | inl same ↦ record {
    sim = with_world sim w;
    found = ground (arith, lookup-put other name (with_world sim w) e.sims);
    locked = (keep same).0;
    same_def = (keep same).1;
  }
  | inr differs ↦ record {
    sim = f.sim;
    found = ground (arith, lookup-put other name (with_world sim w) e.sims, f.found);
    locked = f.locked;
    same_def = f.same_def;
  }
]

-- A simulation that is found under the frozen name is the frozen one.
found-Frozen :
    (name other : String) (def : SimulationDef) (sim : Simulation) (e : Engine)
    → Frozen name def e
    → lookup other e.sims ≡ some sim
    → str_eq other name ≡ true
    → (sim.locked ≡ true) × (sim.sim_def ≡ def)
found-Frozen name other def sim e f g same = (
  ground (arith, str_eq_iff other name, f.found, f.locked),
  ground (arith, str_eq_iff other name, f.found, f.same_def),
)

module _ (m : Machine) (name : String) (def : SimulationDef) where
  step_Frozen :
      (other : String) (o : Option Simulation) (e : Engine)
      → lookup other e.sims ≡ o
      → Frozen name def e
      → Frozen name def (step_found m other o e).1
  step_Frozen other none e g f = f
  step_Frozen other (some sim) e g f =
      saved-Frozen name other def (record sim { locked = true }) _ _ f
        (λ same. (refl, (found-Frozen name other def sim e f g same).1))

  set_Frozen :
      (other : String) (ref : AttributeRef) (v : Value) (o : Option Simulation) (e : Engine)
      → lookup other e.sims ≡ o
      → Frozen name def e
      → Frozen name def (set_found m other ref v o e).1
  set_Frozen other ref v none e g f = f
  set_Frozen other ref v (some sim) e g f =
      saved-Frozen name other def sim _ _ f (found-Frozen name other def sim e f g)

  get_Frozen :
      (other : String) (ref : AttributeRef) (o : Option Simulation) (e : Engine)
      → lookup other e.sims ≡ o
      → Frozen name def e
      → Frozen name def (get_found other ref o e).1
  get_Frozen other ref none e g f = f
  get_Frozen other ref (some sim) e g f =
      saved-Frozen name other def sim _ _ f (found-Frozen name other def sim e f g)

  init_Frozen :
      (other : String) (r : Result Simulation) (e : Engine)
      → str_eq other name ≡ false
      → Frozen name def e
      → Frozen name def (run_init m other r e).1
  init_Frozen other (ok sim) e d f = saved-Frozen name other def sim _ _ f (λ same. cc)
  init_Frozen other (err x) e d f = f
  init_Frozen other undefined e d f = f

  apply_Frozen :
      (new : SimulationDef) (e : Engine)
      → Frozen name def e
      → Frozen name def (apply_simulation m new e).1
  unfolding apply_simulation
  apply_Frozen new e f =
      elim (Bool-cases (contains new.name e.sims && is_locked (lookup new.name e.sims))) [
        | inl refused ↦ rw refused f
        | inr allowed ↦ rw allowed (
            init_Frozen new.name (construct new) e
              (ground (
                arith,
                str_eq_iff new.name name,
                f.found,
                f.locked,
                contains-eq-is_some new.name e.sims,
              ))
              f)
      ]

  drop_Frozen :
      (other : String) (e : Engine)
      → str_eq other name ≡ false
      → Frozen name def e
      → Frozen name def (drop_simulation other e).1
  unfolding drop_simulation
  drop_Frozen other e d f = record {
    sim = f.sim;
    found = ground (arith, lookup-without other name e.sims, f.found);
    locked = f.locked;
    same_def = f.same_def;
  }

  -- A simulation that is locked stays there, locked and under the same definition, through any
  -- calls that do not drop it.
  pub serve_all-Frozen :
      (requests : List Request) (e : Engine)
      → NoDrop name requests
      → Frozen name def e
      → Frozen name def (serve_all m requests e)
  unfolding serve_all step_simulation set_attribute get_attribute
  serve_all-Frozen [] e n f = f
  serve_all-Frozen (apply new ∷ rest) e n f = serve_all-Frozen rest _ n (apply_Frozen new e f)
  serve_all-Frozen (step other ∷ rest) e n f =
      serve_all-Frozen rest _ n (step_Frozen other (lookup other e.sims) e refl f)
  serve_all-Frozen (drop other ∷ rest) e (d, n) f =
      serve_all-Frozen rest _ n (drop_Frozen other e d f)
  serve_all-Frozen (get other ref ∷ rest) e n f =
      serve_all-Frozen rest _ n (get_Frozen other ref (lookup other e.sims) e refl f)
  serve_all-Frozen (set other ref v ∷ rest) e n f =
      serve_all-Frozen rest _ n (set_Frozen other ref v (lookup other e.sims) e refl f)
