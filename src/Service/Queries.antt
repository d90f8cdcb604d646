-- ===== src/Service/Queries.antt =====
-- sim/src/service/engineService.cpp: sequences of calls, with the answers that they get.
use bento_box.Base.{String, List, [], ◌∷◌}
use bento_box.Base.Classes.{string_eq}
use bento_box.Proto.Value.{Value}
use bento_box.Proto.Messages.{SimulationDef}
use bento_box.Machine.{Machine}
use bento_box.Service.{
  Engine, Reply, apply_simulation, step_simulation, set_attribute, get_attribute, drop_simulation,
  get_simulation,
}
use bento_box.Service.Steps.{Request, apply, step, drop, get, set}

-- What is asked of the engine, and what it answers.
pub data Query : Type 0 where
  request : Request → Query
  describe : String → Query

pub data Answer : Type 0 where
  applied : Reply SimulationDef → Answer
  read_as : Reply Value → Answer
  served : Reply (Unit {0}) → Answer

abbrev pub replied : {A : Type 0} → (Reply A → Answer) → Reply A × Engine → Answer × Engine
replied f (r, e) = (f r, e)

module _ (m : Machine) where
  -- The engine's answer to a query, and the engine afterwards.
  unfoldable pub respond : Query → Engine → Answer × Engine
  respond (request (apply def)) e = replied applied (apply_simulation m def e)
  respond (request (step name)) e = replied served (step_simulation m name e)
  respond (request (drop name)) e = replied served (drop_simulation name e)
  respond (request (get name ref)) e = replied read_as (get_attribute name ref e)
  respond (request (set name ref v)) e = replied served (set_attribute m name ref v e)
  respond (describe name) e = replied applied (get_simulation name e)

  unfoldable pub responses : List Query → Engine → List Answer
  unfolding respond
  responses [] e = []
  responses (query ∷ rest) e = let (a, next) = respond query e in a ∷ responses rest next
