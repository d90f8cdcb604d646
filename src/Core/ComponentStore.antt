-- ===== src/Core/ComponentStore.antt =====
-- sim/lib/core/include/core/ics/componentStore.h and sim/lib/core/src/ics/componentStore.cpp: the
-- component vectors by group, and the set of the component ids in use. The casts between
-- `CompVec<C>` and `CompVec<BaseComponent>` are the identity: every component of the engine is one
-- type `A`.
pub mod Listing
pub mod Access
pub mod Writing
use bento_box.Base.{ℕ, zero, suc, ◌+◌, Bool, List, [], ◌∷◌, Option, none, some, if◌then◌else◌, ltb}
use bento_box.Base.Classes.{nat_eq, pair_eq}
use bento_box.Exec.{Exec, Result, ok, err, undefined, map_result, then_result}
use bento_box.Std.Map.{Map, lookup, contains, insert, update, at as map_find}
use bento_box.Std.Set
use bento_box.Core.Component.{Component}
use bento_box.Core.CompVec
use bento_box.Core.CompVec.{CompVec}

-- `CompGroup` and `CompId`
abbrev pub CompStoreId : Type 0
CompStoreId = ℕ × ℕ

abbrev pub ComponentSet : Type 0
ComponentSet = List CompStoreId

abbrev pub ComponentStore : Type 0 → Type 0
ComponentStore A = Map ℕ (CompVec A)

-- the largest `int`
abbrev pub int_max : ℕ
int_max = 2147483647

-- `for (auto i = 1; i <= size; ++i) set.emplace(group, i)`, from `i` with `n` rounds left. `i` is an
-- `int`, and to increment the largest one is undefined.
unfoldable pub emplace_ids : ℕ → ℕ → ℕ → ComponentSet → Result ComponentSet
emplace_ids group i zero set = ok set
emplace_ids group i (suc n) set =
    let rest = emplace_ids group (i + 1) n (Set.add (group, i) set) in
    if ltb i int_max then rest else undefined

module _ {A : Type 0} where
  unfoldable pub get_comp_vec : ComponentStore A → ℕ → Result (CompVec A)
  unfolding map_find
  get_comp_vec store group = map_find group store

  unfoldable pub create_comp_vec : ℕ → ComponentStore A → ComponentStore A
  create_comp_vec group store = insert group CompVec.empty store

  abbrev add_in : A → ℕ → Result (CompVec A) → Exec (ComponentStore A) CompStoreId
  add_in comp group (ok vec) store =
      let (r, vec') = CompVec.add comp vec in
      (map_result (λ id. (group, id)) r, update group (λ _. vec') store)
  add_in comp group (err e) store = (err e, store)
  add_in comp group undefined store = (undefined, store)

  unfoldable pub add_component : A → ℕ → Exec (ComponentStore A) CompStoreId
  unfolding get_comp_vec create_comp_vec
  add_component comp group store =
      let store' = if contains group store then store else create_comp_vec group store in
      add_in comp group (get_comp_vec store' group) store'

  unfoldable pub collect : ComponentStore A → ComponentSet → Result ComponentSet
  unfolding emplace_ids
  collect [] set = ok set
  collect ((group, vec) ∷ rest) set =
      then_result (emplace_ids group 1 (CompVec.size vec) set) λ set'. collect rest set'

  unfoldable pub as_comp_set : ComponentStore A → Result ComponentSet
  unfolding collect
  as_comp_set store = collect store []

module _ {A : Type 0} ⦃k : Component A⦄ where
  unfoldable pub get_component : ComponentStore A → CompStoreId → Result A
  unfolding get_comp_vec
  get_component store (group, id) = then_result (get_comp_vec store group) λ vec. CompVec.at vec id

  -- a write through the reference that `get_component` returns
  unfoldable pub set_component : ComponentStore A → CompStoreId → A → Result (ComponentStore A)
  unfolding get_comp_vec
  set_component store (group, id) comp =
      then_result (get_comp_vec store group)
        λ vec. map_result (λ vec'. update group (λ _. vec') store) (CompVec.write vec id comp)
