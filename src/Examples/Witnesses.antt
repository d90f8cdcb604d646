-- ===== src/Examples/Witnesses.antt =====
-- The theorems at concrete inputs.
use bento_box.Base.{
  ℕ, ◌≡◌, refl, true, false, List, [], ◌∷◌, none, if◌then◌else◌, arith, nat_eqb, str_eq_iff,
}
use bento_box.Base.Int.{pos}
use bento_box.Base.Classes.{string_eq, nat_eq, pair_eq}
use bento_box.Exec.{ok, err, map_at, lift, ◌>>=◌}
use bento_box.Std.Map.{lookup, is_some, at as map_find}
use bento_box.Std.Set
use bento_box.Core.CompVec
use bento_box.Core.CompVec.{CompVec}
use bento_box.Core.CompVec.Invariant.{IsWellFormed, Queued}
use bento_box.Core.CompVec.Invariant
use bento_box.Core.CompVec.Removal
use bento_box.Core.CompVec.Refinement
use bento_box.Core.CompVec.Refinement.{view, checked}
use bento_box.Core.ComponentStore.{CompStoreId, ComponentSet, as_comp_set, add_component}
use bento_box.Core.ComponentStore.Listing.{
  store_view, after_removal, as_comp_set-store_view, as_comp_set-after_removal,
}
use bento_box.Core.ComponentStore.Access.{Added, add_component-Added}
use bento_box.Index.TypeIndex.{add_component_type}
use bento_box.Index.TypeIndex.Groups.{IsValid, add_component_type-IsValid}
use bento_box.Proto.UserValue.{numeric}
use bento_box.Proto.Dispatch.{run_fn_with_val, run_fn_with_vals, val_has_correct_data_type}
use bento_box.Proto.Dispatch.Typed.{
  run_own, run_both, scalar_of, run_fn_with_val-run_own, run_fn_with_vals-run_both,
}
use bento_box.Proto.Dispatch.DataType.{data_type_agrees, val_has_correct_data_type-data_type_agrees}
use bento_box.Machine.Arith
use bento_box.Machine.Functions
use bento_box.Component.UserComponent.{UserComponent, deactivate, user_component, set_value}
use bento_box.Component.UserComponent.Assignment.{assigned}
use bento_box.Component.UserComponent.Setting.{Stores, set_value-Stores}
use bento_box.World.Same.{SameWorld}
use bento_box.Interp.Evaluate.{evaluate_node}
use bento_box.Interp.Purity.{evaluate_node-SameWorld}
use bento_box.Service.Steps.{
  Request, apply, step, drop, get, set, Frozen, serve_all, serve_all-Frozen,
}
use bento_box.Examples.Stores.{two_counters-IsWellFormed, two_counters_store-IsDenseStore}
use bento_box.Examples.Data.{
  machine, counting, count, next_count, int64_value, array_value, set_counter, fresh_counter,
  two_counters, two_counters_store, one_type, counting_world, locked_counting, stepped_engine,
}

one_type-IsValid : IsValid one_type
unfolding lookup
one_type-IsValid = record {
  below = λ name g e. ground arith;
  apart = λ name other g e f. ground (arith, str_eq_iff "counter" name, str_eq_iff "counter" other);
}

-- the vector after the second counter was removed
abbrev one_counter : CompVec UserComponent
one_counter = (CompVec.remove 2 two_counters).1

at-add_example :
    ((CompVec.add (deactivate fresh_counter) two_counters).0 ≡ ok 3)
    × (CompVec.at two_counters 3 ≡ err map_at)
    × ((j : ℕ)
        → CompVec.at (CompVec.add (deactivate fresh_counter) two_counters).1 j
          ≡ (if nat_eqb 3 j then checked (deactivate fresh_counter) else CompVec.at two_counters j))
at-add_example =
    CompVec.Refinement.at-add two_counters (deactivate fresh_counter) two_counters-IsWellFormed
      (omega arith)

view-remove_example :
    ((CompVec.remove 1 two_counters).0
      ≡ (if is_some (view two_counters 1) then ok tt else err map_at))
    × ((j : ℕ)
        → view (CompVec.remove 1 two_counters).1 j
          ≡ (if nat_eqb 1 j then none else view two_counters j))
view-remove_example = CompVec.Refinement.view-remove two_counters 1 two_counters-IsWellFormed

remove-IsWellFormed_example : IsWellFormed (CompVec.remove 1 two_counters).1
remove-IsWellFormed_example =
    CompVec.Removal.remove-IsWellFormed two_counters 1 two_counters-IsWellFormed

add-IsWellFormed_example : IsWellFormed (CompVec.add fresh_counter one_counter).1
unfolding CompVec.remove ◌>>=◌ map_find lookup
add-IsWellFormed_example =
    CompVec.Invariant.add-IsWellFormed one_counter fresh_counter refl
      (CompVec.Removal.remove-IsWellFormed two_counters 2 two_counters-IsWellFormed) (ground arith)

as_comp_set-store_view_example :
    (ids : ComponentSet) × (as_comp_set two_counters_store ≡ ok ids)
    × ((id : CompStoreId) → Set.member id ids ≡ is_some (store_view two_counters_store id))
unfolding CompVec.size
as_comp_set-store_view_example =
    as_comp_set-store_view two_counters_store two_counters_store-IsDenseStore refl

as_comp_set-after_removal_example :
    (ids : ComponentSet) × (as_comp_set (after_removal two_counters_store 0 two_counters 1)
      ≡ ok ids)
    × (Set.member (0, 1) ids ≡ true)
    × (store_view (after_removal two_counters_store 0 two_counters 1) (0, 1) ≡ none)
    × (Set.member (0, 2) ids ≡ false)
    × (is_some (store_view (after_removal two_counters_store 0 two_counters 1) (0, 2)) ≡ true)
unfolding lookup CompVec.size
as_comp_set-after_removal_example =
    as_comp_set-after_removal two_counters_store 0 two_counters 1 two_counters_store-IsDenseStore
      refl refl (omega arith) (omega arith)

add_component-Added_example :
    Added fresh_counter 0 two_counters_store (add_component fresh_counter 0 two_counters_store)
unfolding lookup
add_component-Added_example =
    add_component-Added fresh_counter 0 two_counters_store refl two_counters_store-IsDenseStore
      (ground arith)

add_component_type-IsValid_example : IsValid (add_component_type "clock" one_type).1
add_component_type-IsValid_example =
    add_component_type-IsValid "clock" one_type one_type-IsValid (omega arith)

run_fn_with_val-run_own_example :
    run_fn_with_val {S = ℕ} numeric
      (int64_value (pos 2))
      (λ a. lift (Functions.absolute machine a))
      0
    ≡ run_own numeric (scalar_of (int64_value (pos 2))) (λ a. lift (Functions.absolute machine a)) 0
run_fn_with_val-run_own_example =
    run_fn_with_val-run_own numeric (int64_value (pos 2)) (λ a. lift (Functions.absolute machine a))
      0

run_fn_with_vals-run_both_example :
    run_fn_with_vals {S = ℕ} numeric
      (int64_value (pos 2))
      array_value
      (λ a b. lift (Arith.plus machine a b))
      0
    ≡ run_both numeric
        (scalar_of (int64_value (pos 2)))
        (scalar_of array_value)
        (λ a b. lift (Arith.plus machine a b))
        0
run_fn_with_vals-run_both_example =
    run_fn_with_vals-run_both numeric (int64_value (pos 2)) array_value
      (λ a b. lift (Arith.plus machine a b)) 0

val_has_correct_data_type-data_type_agrees_example :
    val_has_correct_data_type array_value
    ≡ data_type_agrees array_value.data_type (scalar_of array_value)
val_has_correct_data_type-data_type_agrees_example =
    val_has_correct_data_type-data_type_agrees array_value

set_value-Stores_example :
    Stores "count"
      (assigned machine set_counter "count" (int64_value (pos 7)))
      set_counter
      (set_value machine "count" (int64_value (pos 7)) set_counter)
set_value-Stores_example = set_value-Stores machine "count" (int64_value (pos 7)) set_counter

evaluate_node-SameWorld_example :
    SameWorld (evaluate_node machine next_count counting_world).1 counting_world
evaluate_node-SameWorld_example = evaluate_node-SameWorld machine next_count counting_world

stepped_engine-Frozen : Frozen "counting" counting stepped_engine
unfolding lookup
stepped_engine-Frozen = record {
  sim = locked_counting;
  found = refl;
  locked = refl;
  same_def = refl;
}

abbrev calls : List Request
calls =
    step "counting"
    ∷ set "counting" count (int64_value (pos 7))
    ∷ apply counting
    ∷ drop "other"
    ∷ get "counting" count
    ∷ []

serve_all-Frozen_example : Frozen "counting" counting (serve_all machine calls stepped_engine)
serve_all-Frozen_example =
    serve_all-Frozen machine "counting" counting calls stepped_engine (refl, tt)
      stepped_engine-Frozen
