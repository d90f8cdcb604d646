-- ===== src/Service/Frame.antt =====
-- A call on one simulation leaves the others alone.
use bento_box.Base.{
  ◌≡◌, refl, false, ◌&&◌, String, Option, none, some, arith, str_eq, Bool-cases, inl, inr, List, [],
  ◌∷◌, ◌∙◌,
}
use bento_box.Base.Classes.{string_eq}
use bento_box.Exec.{Result, ok, err, undefined}
use bento_box.Std.Map.{Map, lookup, contains, put}
use bento_box.Std.Map.Laws.{lookup-put, lookup-without}
use bento_box.Proto.Value.{Value}
use bento_box.Proto.Messages.{AttributeRef, SimulationDef}
use bento_box.Machine.{Machine}
use bento_box.Simulation.{Simulation, construct}
use bento_box.Service.{
  Engine, is_locked, apply_simulation, run_init, step_simulation, step_found, set_attribute,
  set_found, get_attribute, get_found, drop_simulation,
}
use bento_box.Service.Steps.{Request, apply, step, drop, get, set, serve, serve_all}

-- The simulation that a call is on.
abbrev pub target : Request → String
target (apply def) = def.name
target (step name) = name
target (drop name) = name
target (get name ref) = name
target (set name ref value) = name

abbrev pub AllElse : String → List Request → Type 0
AllElse name [] = Unit
AllElse name (request ∷ rest) = (str_eq (target request) name ≡ false) × AllElse name rest

put_other :
    (name other : String) (sim : Simulation) (sims : Map String Simulation)
    → str_eq other name ≡ false
    → lookup name (put other sim sims) ≡ lookup name sims
put_other name other sim sims h = ground (arith, lookup-put other name sim sims)

module _ (m : Machine) (name : String) where
  step_other :
      (other : String) (o : Option Simulation) (e : Engine)
      → str_eq other name ≡ false
      → lookup name (step_found m other o e).1.sims ≡ lookup name e.sims
  step_other other none e h = refl
  step_other other (some sim) e h = put_other name other _ e.sims h

  set_other :
      (other : String) (ref : AttributeRef) (v : Value) (o : Option Simulation) (e : Engine)
      → str_eq other name ≡ false
      → lookup name (set_found m other ref v o e).1.sims ≡ lookup name e.sims
  set_other other ref v none e h = refl
  set_other other ref v (some sim) e h = put_other name other _ e.sims h

  get_other :
      (other : String) (ref : AttributeRef) (o : Option Simulation) (e : Engine)
      → str_eq other name ≡ false
      → lookup name (get_found other ref o e).1.sims ≡ lookup name e.sims
  get_other other ref none e h = refl
  get_other other ref (some sim) e h = put_other name other _ e.sims h

  init_other :
      (other : String) (r : Result Simulation) (e : Engine)
      → str_eq other name ≡ false
      → lookup name (run_init m other r e).1.sims ≡ lookup name e.sims
  init_other other (ok sim) e h = put_other name other _ e.sims h
  init_other other (err x) e h = refl
  init_other other undefined e h = refl

  apply_other :
      (def : SimulationDef) (e : Engine)
      → str_eq def.name name ≡ false
      → lookup name (apply_simulation m def e).1.sims ≡ lookup name e.sims
  unfolding apply_simulation
  apply_other def e h =
      elim (Bool-cases (contains def.name e.sims && is_locked (lookup def.name e.sims))) [
        | inl refused ↦ rw refused refl
        | inr allowed ↦ rw allowed (init_other def.name (construct def) e h)
      ]

  drop_other :
      (other : String) (e : Engine)
      → str_eq other name ≡ false
      → lookup name (drop_simulation other e).1.sims ≡ lookup name e.sims
  unfolding drop_simulation
  drop_other other e h = ground (arith, lookup-without other name e.sims)

  serve_other :
      (request : Request) (e : Engine)
      → str_eq (target request) name ≡ false
      → lookup name (serve m request e).sims ≡ lookup name e.sims
  unfolding serve step_simulation set_attribute get_attribute
  serve_other (apply def) e h = apply_other def e h
  serve_other (step other) e h = step_other other (lookup other e.sims) e h
  serve_other (drop other) e h = drop_other other e h
  serve_other (get other ref) e h = get_other other ref (lookup other e.sims) e h
  serve_other (set other ref v) e h = set_other other ref v (lookup other e.sims) e h

  -- Calls on other simulations, whatever they answer, leave a simulation exactly as it was.
  pub serve_all_others :
      (requests : List Request) (e : Engine)
      → AllElse name requests
      → lookup name (serve_all m requests e).sims ≡ lookup name e.sims
  unfolding serve_all
  serve_all_others [] e h = refl
  serve_all_others (request ∷ rest) e (h, hs) =
      serve_all_others rest (serve m request e) hs ∙ serve_other request e h
