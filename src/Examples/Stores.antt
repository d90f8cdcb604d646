-- ===== src/Examples/Stores.antt =====
-- The component vector and the store of Data are dense.
use bento_box.Base.{ℕ, zero, suc, ◌≡◌, refl, ◌&&◌, arith, leb, nat_eqb, Bool-cases, inl, inr}
use mathlib.Core.Path.{subst}
use bento_box.Base.Classes.{string_eq, nat_eq, pair_eq, pair_beq}
use bento_box.Exec.{ok}
use bento_box.Std.Set
use bento_box.Core.ComponentStore.{CompStoreId}
use bento_box.World.{locate}
use bento_box.World.Locating.{is_match, is_match-locate}
use bento_box.Std.Map.{lookup, is_some}
use bento_box.Core.CompVec
use bento_box.Core.CompVec.Invariant.{IsWellFormed}
use bento_box.Core.CompVec.Refinement.{view}
use bento_box.Core.CompVec.Dense.{IsDense}
use bento_box.Core.ComponentStore.Listing.{IsDenseStore}
use bento_box.Component.UserComponent.{user_component}
use bento_box.Examples.Data.{two_counters, two_counters_store, counting_world}

pub two_counters-IsWellFormed : IsWellFormed two_counters
unfolding lookup
two_counters-IsWellFormed = record {
  given = λ id i h. ground arith;
  placed = λ id i h. ground arith;
  apart = λ id j i h g. ground arith;
  free = λ i q. absurd q;
  unused = λ id i q h. q;
  distinct = tt;
  unique = (ground arith, (ground arith, tt));
}

two_counters_in_use : (id : ℕ) → is_some (view two_counters id) ≡ (leb 1 id && leb id 2)
unfolding lookup
two_counters_in_use zero = refl
two_counters_in_use (suc zero) = refl
two_counters_in_use (suc (suc zero)) = refl
two_counters_in_use (suc (suc (suc n))) = ground arith

two_counters-IsDense : IsDense two_counters
unfolding CompVec.size
two_counters-IsDense = record {
  well_formed = two_counters-IsWellFormed;
  counted = refl;
  in_use = two_counters_in_use;
}

pub two_counters_store-IsDenseStore : IsDenseStore two_counters_store
unfolding lookup
two_counters_store-IsDenseStore = record {
  unique = (refl, tt);
  dense = λ g vec e. elim (Bool-cases (nat_eqb 0 g)) [
    | inl same ↦ subst IsDense (ground arith) two_counters-IsDense
    | inr other ↦ absurd (ground arith)
  ];
}

-- The reference to entity 1 leads to the first counter alone.
pub first_counter-is_match :
    (j : CompStoreId) → is_match counting_world "counter" 1 j ≡ pair_beq (0, 1) j
unfolding lookup Set.member
first_counter-is_match (g, id) = ground arith

pub first_counter-located : locate counting_world "counter" 1 ≡ ok (0, 1)
unfolding CompVec.size
first_counter-located =
    is_match-locate counting_world "counter" 1 (0, 1) two_counters_store-IsDenseStore refl
      first_counter-is_match
