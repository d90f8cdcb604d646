-- ===== src/Core/ComponentStore/Listing.antt =====
-- `asCompSet` against the ids that can be looked up.
use bento_box.Base.{
  ℕ, zero, suc, ◌+◌, ◌<◌, ◌≤◌, ◌∙◌, ◌≡◌, refl, Bool, true, false, ◌&&◌, ◌||◌, [], ◌∷◌, Option, none,
  some, if◌then◌else◌, arith, ap, nat_eqb, leb, ltb, Bool-cases, inl, inr,
}
use bento_box.Base.Classes.{nat_eq, pair_eq}
use bento_box.Exec.{ok, undefined}
use bento_box.Std.Map.{lookup, is_some, update}
use bento_box.Std.Map.Laws.{UniqueKeys, UniqueKeys-update, lookup-update}
use bento_box.Std.Set
use bento_box.Core.Component.{Component}
use bento_box.Core.CompVec
use bento_box.Core.CompVec.{CompVec}
use bento_box.Core.CompVec.Dense.{IsDense, size-remove}
use bento_box.Core.CompVec.Refinement.{view, view-remove}
use bento_box.Core.ComponentStore.{
  ComponentStore, CompStoreId, ComponentSet, int_max, emplace_ids, collect, as_comp_set,
}

-- The set that the loop over a group makes, where no `int` overflows.
emplaced : ℕ → ℕ → ℕ → ComponentSet → ComponentSet
emplaced g i zero set = set
emplaced g i (suc n) set = emplaced g (i + 1) n (Set.add (g, i) set)

emplace_ids_lem :
    (g i n : ℕ) (set : ComponentSet)
    → i ≤ int_max
    → emplace_ids g i n set ≡ (if leb (i + n) int_max then ok (emplaced g i n set) else undefined)
unfolding emplace_ids emplaced
emplace_ids_lem g i zero set h = ground arith
emplace_ids_lem g i (suc n) set h = elim (Bool-cases (ltb i int_max)) [
  | inl low ↦
      rw (low, emplace_ids_lem g (i + 1) n (Set.add (g, i) set) (ground arith)) (ground arith)
  | inr full ↦ rw full (ground arith)
]

member-emplaced :
    (g i n : ℕ) (set : ComponentSet) (h j : ℕ)
    → Set.member (h, j) (emplaced g i n set)
      ≡ ((nat_eqb g h && leb i j && ltb j (i + n)) || Set.member (h, j) set)
unfolding emplaced
member-emplaced g i zero set h j = ground arith
member-emplaced g i (suc n) set h j =
    ground (
      arith,
      member-emplaced g (i + 1) n (Set.add (g, i) set) h j,
      Set.member-add (g, i) (h, j) set,
    )

module _ {A : Type 0} where
  -- Every group has fewer components than the largest `int`.
  abbrev pub is_countable : ComponentStore A → Bool
  is_countable [] = true
  is_countable ((g, vec) ∷ rest) = ltb (CompVec.size vec) int_max && is_countable rest

  pub is_countable_lem :
      (store : ComponentStore A)
      → UniqueKeys store
      → ((group : ℕ) (vec : CompVec A) → lookup group store ≡ some vec → CompVec.size vec < int_max)
      → is_countable store ≡ true
  unfolding lookup
  is_countable_lem [] u h = refl
  is_countable_lem ((g, vec) ∷ rest) (fresh, u) h = ground (
    arith,
    h g vec (ground arith),
    is_countable_lem rest u λ j v e. h j v (ground (arith, fresh)),
  )

  -- The ids that are listed after those of a set.
  collected : ComponentStore A → ComponentSet → ComponentSet
  unfolding emplaced
  collected [] set = set
  collected ((g, vec) ∷ rest) set = collected rest (emplaced g 1 (CompVec.size vec) set)

  pub listing : ComponentStore A → ComponentSet
  unfolding collected
  listing store = collected store []

  collect_lem :
      (store : ComponentStore A) (set : ComponentSet)
      → collect store set ≡ (if is_countable store then ok (collected store set) else undefined)
  unfolding collect collected
  collect_lem [] set = refl
  collect_lem ((g, vec) ∷ rest) set =
      rw (emplace_ids_lem g 1 (CompVec.size vec) set (omega arith))
        (ground (arith, collect_lem rest (emplaced g 1 (CompVec.size vec) set)))

  -- asCompSet ends normally where every group is countable, and otherwise overflows.
  pub as_comp_set-listing :
      (store : ComponentStore A)
      → as_comp_set store ≡ (if is_countable store then ok (listing store) else undefined)
  unfolding as_comp_set listing
  as_comp_set-listing store = collect_lem store []

  -- Whether `j` is one of the ids that `asCompSet` lists for a group.
  abbrev pub listed : Option (CompVec A) → ℕ → Bool
  listed none j = false
  listed (some vec) j = leb 1 j && leb j (CompVec.size vec)

  member-collected :
      (store : ComponentStore A) (set : ComponentSet) (h j : ℕ)
      → UniqueKeys store
      → Set.member (h, j) (collected store set)
        ≡ (listed (lookup h store) j || Set.member (h, j) set)
  unfolding collected lookup
  member-collected [] set h j u = refl
  member-collected ((g, vec) ∷ rest) set h j (fresh, u) = ground (
    arith,
    member-collected rest (emplaced g 1 (CompVec.size vec) set) h j u,
    member-emplaced g 1 (CompVec.size vec) set h j,
  )

  collected-update :
      (store : ComponentStore A) (set : ComponentSet) (g : ℕ) (vec after : CompVec A)
      → lookup g store ≡ some vec
      → CompVec.size after ≡ CompVec.size vec
      → collected (update g (λ _. after) store) set ≡ collected store set
  unfolding collected lookup update
  collected-update [] set g vec after h same = refl
  collected-update ((h, v) ∷ rest) set g vec after e same = elim (Bool-cases (nat_eqb h g)) [
    | inl here ↦
        let found : vec ≡ v = ground arith in
        let sizes : CompVec.size after ≡ CompVec.size v = same ∙ ap CompVec.size found in
        rw here (ap (λ n. collected rest (emplaced h 1 n set)) sizes)
    | inr there ↦
        rw there (
          collected-update rest (emplaced h 1 (CompVec.size v) set) g vec after (rw there at e)
            same)
  ]

  is_countable-update :
      (store : ComponentStore A) (g : ℕ) (vec after : CompVec A)
      → lookup g store ≡ some vec
      → CompVec.size after ≡ CompVec.size vec
      → is_countable (update g (λ _. after) store) ≡ is_countable store
  unfolding lookup update
  is_countable-update [] g vec after h same = refl
  is_countable-update ((h, v) ∷ rest) g vec after e same = elim (Bool-cases (nat_eqb h g)) [
    | inl here ↦
        let found : vec ≡ v = ground arith in
        let sizes : CompVec.size after ≡ CompVec.size v = same ∙ ap CompVec.size found in
        rw here (ap (λ n. ltb n int_max && is_countable rest) sizes)
    | inr there ↦ rw there (
        ap (λ b. ltb (CompVec.size v) int_max && b)
          (is_countable-update rest g vec after (rw there at e) same))
  ]

  -- A smaller vector keeps the store countable.
  pub is_countable-shrink :
      (store : ComponentStore A) (g : ℕ) (vec after : CompVec A)
      → lookup g store ≡ some vec
      → CompVec.size after ≤ CompVec.size vec
      → is_countable store ≡ true
      → is_countable (update g (λ _. after) store) ≡ true
  unfolding lookup update
  is_countable-shrink [] g vec after e low h = refl
  is_countable-shrink ((j, v) ∷ rest) g vec after e low h = elim (Bool-cases (nat_eqb j g)) [
    | inl here ↦
        let found : vec ≡ v = ground arith in
        let sizes : CompVec.size vec ≡ CompVec.size v = ap CompVec.size found in
        rw here (ground (arith, sizes, h))
    | inr there ↦
        rw there (
          ground
            (arith, h, is_countable-shrink rest g vec after (rw there at e) low (ground arith)))
  ]

  -- Another vector of the same size does not change what `asCompSet` lists.
  pub as_comp_set-update :
      (store : ComponentStore A) (g : ℕ) (vec after : CompVec A)
      → lookup g store ≡ some vec
      → CompVec.size after ≡ CompVec.size vec
      → as_comp_set (update g (λ _. after) store) ≡ as_comp_set store
  unfolding listing
  as_comp_set-update store g vec after h same =
      rw
        (
          as_comp_set-listing store,
          as_comp_set-listing (update g (λ _. after) store),
          is_countable-update store g vec after h same,
          collected-update store [] g vec after h same,
        )
        refl

  -- The component that a store id names.
  abbrev pub in_group : Option (CompVec A) → ℕ → Option A
  in_group none id = none
  in_group (some vec) id = view vec id

  abbrev pub store_view : ComponentStore A → CompStoreId → Option A
  store_view store (group, id) = in_group (lookup group store) id

  -- `asCompSet` lists the ids 1 to `size` of each group, and nothing else.
  pub member-listing :
      (store : ComponentStore A) (group id : ℕ)
      → UniqueKeys store
      → Set.member (group, id) (listing store) ≡ listed (lookup group store) id
  unfolding listing Set.member
  member-listing store group id u = ground (arith, member-collected store [] group id u)

module _ {A : Type 0} ⦃k : Component A⦄ where
  pub record IsDenseStore (store : ComponentStore A) : Type 0 where
    pub unique : UniqueKeys store
    pub dense : (group : ℕ) (vec : CompVec A) → lookup group store ≡ some vec → IsDense vec

  exact_in :
      (o : Option (CompVec A)) (id : ℕ)
      → ((vec : CompVec A) → o ≡ some vec → IsDense vec)
      → listed o id ≡ is_some (in_group o id)
  exact_in none id d = refl
  exact_in (some vec) id d = ground (arith, (d vec refl).in_use id, (d vec refl).counted)

  pub member-store_view :
      (store : ComponentStore A) (id : CompStoreId)
      → IsDenseStore store
      → Set.member id (listing store) ≡ is_some (store_view store id)
  member-store_view store (group, id) d =
      member-listing store group id d.unique ∙ exact_in (lookup group store) id (d.dense group)

  -- In a store from which nothing was removed and whose groups have fewer than 2^31 − 1 components
  -- each, asCompSet ends normally and lists exactly the ids that name a component.
  pub as_comp_set-store_view :
      (store : ComponentStore A)
      → IsDenseStore store
      → is_countable store ≡ true
      → (ids : ComponentSet) × (as_comp_set store ≡ ok ids)
        × ((id : CompStoreId) → Set.member id ids ≡ is_some (store_view store id))
  as_comp_set-store_view store d small =
      (listing store, as_comp_set-listing store ∙ rw small refl, λ id. member-store_view store id d)

  abbrev pub after_removal : ComponentStore A → ℕ → CompVec A → ℕ → ComponentStore A
  after_removal store group vec id = update group (λ _. (CompVec.remove id vec).1) store

  -- After the removal of any id of a dense vector but the last, in a store whose groups have fewer
  -- than 2^31 − 1 components each, asCompSet ends normally; it still lists the removed id, which
  -- names no component any more, and leaves out the last id, which does name one.
  pub as_comp_set-after_removal :
      (store : ComponentStore A) (group : ℕ) (vec : CompVec A) (id : ℕ)
      → IsDenseStore store
      → is_countable store ≡ true
      → lookup group store ≡ some vec
      → 0 < id
      → id < vec.last_id
      → (ids : ComponentSet) × (as_comp_set (after_removal store group vec id) ≡ ok ids)
        × (Set.member (group, id) ids ≡ true)
        × (store_view (after_removal store group vec id) (group, id) ≡ none)
        × (Set.member (group, vec.last_id) ids ≡ false)
        × (is_some (store_view (after_removal store group vec id) (group, vec.last_id)) ≡ true)
  as_comp_set-after_removal store group vec id ds small found low high = (
    listing (after_removal store group vec id),
    as_comp_set-listing (after_removal store group vec id) ∙ rw still refl,
    member-listing _ group id unique ∙ rw now (ground (arith, counted)),
    rw now (ground (arith, gone id)),
    member-listing _ group vec.last_id unique ∙ rw now (ground (arith, counted)),
    rw now (ground (arith, gone vec.last_id, d.in_use vec.last_id)),
  )
    where
      d : IsDense vec
      d = ds.dense group vec found

      unique : UniqueKeys (after_removal store group vec id)
      unique = UniqueKeys-update group _ store ds.unique

      now : lookup group (after_removal store group vec id) ≡ some (CompVec.remove id vec).1
      now =
          ground (arith, lookup-update group group (λ _. (CompVec.remove id vec).1) vec store found)

      counted : CompVec.size (CompVec.remove id vec).1 + 1 ≡ vec.last_id
      counted = size-remove vec id d low (omega arith)

      still : is_countable (after_removal store group vec id) ≡ true
      still =
          is_countable-shrink store group vec (CompVec.remove id vec).1 found
            (omega (arith, counted, d.counted)) small

      gone :
          (j : ℕ) → view (CompVec.remove id vec).1 j ≡ (if nat_eqb id j then none else view vec j)
      gone = (view-remove vec id d.well_formed).1
