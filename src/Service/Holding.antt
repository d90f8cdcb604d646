-- ===== src/Service/Holding.antt =====
-- An engine that holds what a model says, and code that runs on one of its simulations.
use bento_box.Base.{ℕ, ◌≡◌, refl, ap, String, Option, none, some, str_eq, Bool-cases, inl, inr}
use bento_box.Base.Classes.{string_eq}
use bento_box.Exec.{Exec, Result}
use bento_box.Exec.Matches.{Matches}
use bento_box.Std.Map.{lookup}
use bento_box.Std.Map.Laws.{lookup-put}
use bento_box.Machine.{Machine}
use bento_box.World.{World, locate}
use bento_box.World.Soundness.{redrawn-IsSound}
use bento_box.Interp.Meaning.{Ground}
use bento_box.Interp.Agreement.{Agrees}
use bento_box.Simulation.{Simulation, world_of}
use bento_box.Service.{Engine, with_world, saved}
use bento_box.Service.Queries.{Answer}
use bento_box.Service.Contract.{Held, Model, ground_of, keep, on_held}

-- A simulation, and what is held of it.
abbrev pub Shows : Option Simulation → Option Held → Type 0
Shows none none = Unit
Shows (some sim) (some held) =
    (sim.sim_def ≡ held.def)
    × (sim.locked ≡ held.locked)
    × Agrees (world_of sim 0) (ground_of held 0)
Shows _ _ = ⊥

pub record Holds (e : Engine) (model : Model) : Type 0 where
  pub draws : e.draws ≡ model.draws
  pub shows : (name : String) → Shows (lookup name e.sims) (model.held name)

pub redrawn_Agrees :
    (w : World) (g : Ground) (n k : ℕ)
    → n ≡ k
    → Agrees w g
    → Agrees (record w { draws = n }) (record g { draws = k })
unfolding locate
redrawn_Agrees w g n k e a = record {
  sound = redrawn-IsSound w n a.sound;
  rows = a.rows;
  draws = e;
}

saved-Holds :
    (name : String) (sim : Simulation) (held : Held) (w : World) (g : Ground) (e : Engine)
    (model : Model)
    → sim.sim_def ≡ held.def
    → sim.locked ≡ held.locked
    → Agrees w g
    → Holds e model
    → Holds (saved name sim w e) (keep name held g model)
saved-Holds name sim held w g e model d l a h = record {
  draws = a.draws;
  shows = λ other.
      rw (lookup-put name other (with_world sim w) e.sims) (elim (Bool-cases (str_eq name other)) [
        | inl same ↦ rw same (d, l, redrawn_Agrees w g 0 0 refl a)
        | inr differs ↦ rw differs (h.shows other)
      ]);
}

-- Answers that are the same, from engines that then hold the same.
abbrev pub SameAnswer : Answer × Engine → Answer × Model → Type 0
SameAnswer (a, e) (b, model) = (a ≡ b) × Holds e model

module _ (m : Machine) where
  -- Code that runs on the stores of a simulation, where it matches what runs on its rows.
  pub ran_SameAnswer :
      {A : Type 0} (name : String) (sim : Simulation) (held : Held) (code : Exec World A)
      (spec : Exec Ground A) (reply : Result A → Answer) (e : Engine) (model : Model)
      → Matches Agrees code spec
      → Shows (some sim) (some held)
      → Holds e model
      → SameAnswer
          (reply (code (world_of sim e.draws)).0, saved name sim (code (world_of sim e.draws)).1 e)
          (on_held m name held spec reply model)
  ran_SameAnswer name sim held code spec reply e model c (d, l, a) h =
      let (r, b) =
        c.at (world_of sim e.draws) (ground_of held model.draws)
          (redrawn_Agrees (world_of sim 0) (ground_of held 0) e.draws model.draws h.draws a) in
      (ap reply r, saved-Holds name sim held _ _ e model d l b h)
