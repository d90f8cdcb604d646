-- ===== src/Service/Locking.antt =====
-- A step locks a simulation for good.
use bento_box.Base.{◌≡◌, refl, true, String, List, some, arith, str_eq_iff}
use bento_box.Base.Classes.{string_eq}
use bento_box.Std.Map.{lookup}
use bento_box.Std.Map.Laws.{lookup-put, contains-eq-is_some}
use bento_box.Proto.Messages.{SimulationDef}
use bento_box.Machine.{Machine}
use bento_box.World.{World}
use bento_box.Simulation.{Simulation}
use bento_box.Service.{Engine, already_exists, saved, with_world, apply_simulation, step_simulation}
use bento_box.Service.Steps.{Request, NoDrop, Frozen, serve_all, serve_all-Frozen}

saved_locked :
    (name : String) (sim : Simulation) (w : World) (e : Engine)
    → Frozen name sim.sim_def (saved name (record sim { locked = true }) w e)
saved_locked name sim w e = record {
  sim = with_world (record sim { locked = true }) w;
  found = ground (
    arith,
    lookup-put name name (with_world (record sim { locked = true }) w) e.sims,
    str_eq_iff name name,
  );
  locked = refl;
  same_def = refl;
}

module _ (m : Machine) where
  step_simulation-Frozen :
      (name : String) (sim : Simulation) (e : Engine)
      → lookup name e.sims ≡ some sim
      → Frozen name sim.sim_def (step_simulation m name e).1
  unfolding step_simulation
  step_simulation-Frozen name sim e found = rw found (saved_locked name sim _ e)

  refused :
      (def old : SimulationDef) (e : Engine)
      → Frozen def.name old e
      → apply_simulation m def e ≡ (already_exists, e)
  unfolding apply_simulation
  refused def old e f = ground (arith, f.found, f.locked, contains-eq-is_some def.name e.sims)

  -- Once a simulation was stepped, whether the step succeeded or not, and after any further calls
  -- that do not drop it, an ApplySimulation under its name is refused and changes nothing.
  pub apply_after_step :
      (def : SimulationDef) (sim : Simulation) (requests : List Request) (e : Engine)
      → lookup def.name e.sims ≡ some sim
      → NoDrop def.name requests
      → apply_simulation m def (serve_all m requests (step_simulation m def.name e).1)
        ≡ (already_exists, serve_all m requests (step_simulation m def.name e).1)
  apply_after_step def sim requests e found keep = refused def sim.sim_def _ (
      serve_all-Frozen m def.name sim.sim_def requests _ keep
        (step_simulation-Frozen def.name sim e found))
