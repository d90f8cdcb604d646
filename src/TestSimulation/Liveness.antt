-- ===== src/TestSimulation/Liveness.antt =====
-- The test simulation behind the engine's calls: however far it has counted, it comes to zero.
use bento_box.Base.{
  ℕ, zero, suc, true, ◌+◌, ◌-◌, ◌≤◌, ◌≡◌, ◌∙◌, refl, String, List, [], ◌∷◌, some, arith, ltb,
  if◌then◌else◌, str_eq_iff, Bool-cases, inl, inr,
}
use mathlib.Core.Path.{subst}
use bento_box.Base.Int.{pos}
use bento_box.Base.Classes.{string_eq}
use bento_box.Exec.{◌>>=◌}
use bento_box.Std.Map.{lookup}
use bento_box.Std.Map.Laws.{lookup-put}
use bento_box.Proto.Messages.{AttributeRef, SystemDef}
use bento_box.Machine.{Machine}
use bento_box.World.{World}
use bento_box.Simulation.{world_of, Simulation}
use bento_box.Service.{Engine, done, with_world, saved, run_systems, step_simulation, get_attribute}
use bento_box.TestSimulation.{int64_value, cycle100_system}
use bento_box.TestSimulation.Cycle.{Counts, Gives, next, retrieve_op-Counts, run_graph-Counts}

-- The engine has a simulation whose one system counts on `ref`, and the count is `k`.
pub record Cycling (name : String) (ref : AttributeRef) (k : ℕ) (e : Engine) : Type 0 where
  pub sim : Simulation
  pub found : lookup name e.sims ≡ some sim
  pub systems : sim.sim_def.systems ≡ cycle100_system ref ∷ []
  pub counts : Counts ref k (world_of sim e.draws)

-- `n` calls of StepSimulation
unfoldable pub steps : Machine → String → ℕ → Engine → Engine
steps m name zero e = e
steps m name (suc n) e = steps m name n (step_simulation m name e).1

-- the count after `n` steps
unfoldable pub next_times : ℕ → ℕ → ℕ
next_times zero k = k
next_times (suc n) k = next_times n (next k)

module _ (m : Machine) (name : String) (ref : AttributeRef) where
  get_attribute-Cycling :
      (k : ℕ) (e : Engine)
      → Cycling name ref k e
      → (get_attribute name ref e).0 ≡ done (int64_value (pos k))
  unfolding get_attribute
  get_attribute-Cycling k e c =
      let (r, d) = retrieve_op-Counts ref k (world_of c.sim e.draws) c.counts in
      rw (c.found, r) refl

  saved-Cycling :
      (k : ℕ) (sim : Simulation) (w : World) (e : Engine)
      → sim.sim_def.systems ≡ cycle100_system ref ∷ []
      → Counts ref k w
      → Cycling name ref k (saved name sim w e)
  saved-Cycling k sim w e s c = record {
    sim = with_world sim w;
    found = ground (arith, lookup-put name name (with_world sim w) e.sims, str_eq_iff name name);
    systems = s;
    counts = c;
  }

  run_systems-Counts :
      (k : ℕ) (defs : List SystemDef) (w : World)
      → defs ≡ cycle100_system ref ∷ []
      → Counts ref k w
      → Gives ref (next k) tt (run_systems m defs w)
  unfolding run_systems ◌>>=◌
  run_systems-Counts k defs w s c = let (r, d) = run_graph-Counts m ref k w c in rw (s, r) (refl, d)

  -- One step succeeds and counts once.
  step_simulation-Cycling :
      (k : ℕ) (e : Engine)
      → Cycling name ref k e
      → ((step_simulation m name e).0 ≡ done tt)
        × Cycling name ref (next k) (step_simulation m name e).1
  unfolding step_simulation
  step_simulation-Cycling k e c =
      let w = world_of c.sim e.draws in
      let (r, d) = run_systems-Counts k c.sim.sim_def.systems w c.systems c.counts in
      rw (c.found, r)
        (
          refl,
          saved-Cycling (next k) (record c.sim { locked = true })
              (run_systems m c.sim.sim_def.systems w).1 e c.systems d,
        )

  steps-Cycling :
      (n k : ℕ) (e : Engine)
      → Cycling name ref k e
      → Cycling name ref (next_times n k) (steps m name n e)
  unfolding steps next_times
  steps-Cycling zero k e c = c
  steps-Cycling (suc n) k e c =
      steps-Cycling n (next k) (step_simulation m name e).1 ((step_simulation-Cycling k e c).1)

climb : (n k : ℕ) → n + k ≤ 101 → next_times n k ≡ n + k
unfolding next_times
climb zero k h = omega arith
climb (suc n) k h =
    let e : next k ≡ k + 1 = ground arith in rw e (climb n (k + 1) (omega arith) ∙ omega arith)

next_times-suc : (n k : ℕ) → next_times (suc n) k ≡ next (next_times n k)
unfolding next_times
next_times-suc zero k = refl
next_times-suc (suc n) k = next_times-suc n (next k)

-- How many steps bring the count to zero.
abbrev pub rounds : ℕ → ℕ
rounds k = if ltb 100 k then 1 else suc (101 - k)

rounds_lem : (k : ℕ) → next_times (rounds k) k ≡ 0
unfolding next_times
rounds_lem k = elim (Bool-cases (ltb 100 k)) [
  | inl high ↦ rw (high, high) refl
  | inr low ↦
      rw (low, next_times-suc (101 - k) k, climb (101 - k) k (ground arith))
        (let e : 101 - k + k ≡ 101 = ground arith in rw e refl)
]

-- In an engine whose simulation has the cycling system of the tests, and whose attribute holds the
-- count k, at most 102 calls of StepSimulation bring GetAttribute to answer 0.
pub steps-get_attribute :
    (m : Machine) (name : String) (ref : AttributeRef) (k : ℕ) (e : Engine)
    → Cycling name ref k e
    → (rounds k ≤ 102)
      × ((get_attribute name ref (steps m name (rounds k) e)).0 ≡ done (int64_value (pos 0)))
steps-get_attribute m name ref k e c = (
  ground arith,
  get_attribute-Cycling m name ref 0 (steps m name (rounds k) e) (
      subst (λ n. Cycling name ref n (steps m name (rounds k) e)) (rounds_lem k)
        (steps-Cycling m name ref (rounds k) k e c)),
)
