-- ===== src/Examples/Sessions.antt =====
-- Setting and getting an attribute of a simulation that calls led to.
use bento_box.Base.{◌≡◌, refl, if◌then◌else◌, arith}
use bento_box.Base.Int.{pos}
use bento_box.Base.Classes.{string_eq}
use bento_box.Exec.{ok}
use bento_box.Std.Map.{lookup}
use bento_box.Machine.{cast}
use bento_box.Proto.UserValue.{kind_of, set_val}
use bento_box.Component.UserComponent.Assignment.{of_schema}
use bento_box.World.Table.{table, row_of}
use bento_box.Simulation.{world_of}
use bento_box.Service.{done, no_simulations, set_attribute, get_attribute, Engine}
use bento_box.Service.Steps.{serve_all}
use bento_box.Service.Soundness.{serve_all-IsSoundEngine}
use bento_box.Service.RoundTrip.{same_ref, set_attribute-get_attribute}
use bento_box.Examples.Data.{machine, fresh_counter, count, int32_value}
use bento_box.Examples.Reached.{calls, built, reached, located, nothing-IsSoundEngine}

-- The engine, with the simulation of one counter.
abbrev engine : Engine
engine = serve_all machine calls no_simulations

counter_row : table (world_of built 0) "counter" 1 ≡ ok (row_of fresh_counter)
unfolding lookup
counter_row = rw located refl

takes_three :
    of_schema machine (lookup "count" (row_of fresh_counter).schema) (int32_value (pos 3))
    ≡ ok (int32_value (pos 3))
unfolding lookup kind_of set_val cast
takes_three = refl

set_attribute-get_attribute_example :
    ((set_attribute machine "counting" count (int32_value (pos 3)) engine).0 ≡ done tt)
    × ((get_attribute "counting" count
          (set_attribute machine "counting" count (int32_value (pos 3)) engine).1).0
        ≡ (if same_ref count count
            then done (int32_value (pos 3))
            else (get_attribute "counting" count engine).0))
set_attribute-get_attribute_example =
    set_attribute-get_attribute machine "counting" count count (int32_value (pos 3))
      (int32_value (pos 3)) (row_of fresh_counter) built engine
      (serve_all-IsSoundEngine machine calls no_simulations (omega arith, tt) nothing-IsSoundEngine)
      reached counter_row takes_three
