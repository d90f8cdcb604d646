-- ===== src/World/Locating.antt =====
-- `getComponent` against the components that an entity has.
use bento_box.Base.{
  ℕ, ◌≡◌, refl, Bool, true, false, Bool-cases, ◌&&◌, String, [], ◌∷◌, Option, none, some, arith,
  nat_eqb, Option-cases, inl, inr, ◌∙◌,
}
use bento_box.Base.Classes.{string_eq, nat_eq, pair_eq, pair_beq, pair_beq_iff}
use bento_box.Exec.{ok, err, undefined, map_at}
use bento_box.Std.Map.{lookup, is_some, at as map_find}
use bento_box.Std.Set
use bento_box.Core.ComponentStore.{CompStoreId, ComponentSet}
use bento_box.Core.ComponentStore.Listing.{
  IsDenseStore, store_view, listing, is_countable, as_comp_set-listing, member-store_view,
}
use bento_box.Index.TypeIndex.{filter_group, filter_comp_type}
use bento_box.Index.TypeIndex.Groups.{group_of, member-filter_group}
use bento_box.Index.EntityIndex.{set_intersection, filter_entity_id, get_components}
use bento_box.Index.EntityIndex.Entities.{has, member-set_intersection, set_intersection-IsDistinct}
use bento_box.Component.UserComponent.{user_component}
use bento_box.World.{World, only_one, locate}

abbrev in_type : Option ℕ → CompStoreId → Bool
in_type none id = false
in_type (some group) (g, id) = nat_eqb g group

-- `id` names a component, of the type `type_name`, that the entity has.
abbrev pub is_match : World → String → ℕ → CompStoreId → Bool
is_match w type_name entity_id id =
    has w.index_store.entity entity_id id
    && (in_type (group_of w.index_store.component_type type_name) id
        && is_some (store_view w.comp_store id))

only_one-member :
    (s : ComponentSet) (id j : CompStoreId) → only_one s ≡ ok id → Set.member j s ≡ pair_beq id j
unfolding only_one Set.member
only_one-member [] id j e = absurd (ground arith)
only_one-member (x ∷ []) id j e = ground arith
only_one-member (x ∷ y ∷ rest) id j e = absurd (ground arith)

pub only_one_lem :
    (s : ComponentSet) (id : CompStoreId)
    → Set.IsDistinct s
    → ((j : CompStoreId) → Set.member j s ≡ pair_beq id j)
    → only_one s ≡ ok id
unfolding only_one Set.member
only_one_lem [] id d h = absurd (ground (arith, h id))
only_one_lem (x ∷ []) id d h = ground (arith, h x, pair_beq_iff id x, pair_beq_iff x x)
only_one_lem (x ∷ y ∷ rest) id d h = absurd (
    ground (
      arith,
      h x,
      h y,
      pair_beq_iff id x,
      pair_beq_iff id y,
      pair_beq_iff y x,
      pair_beq_iff x x,
      pair_beq_iff y y,
      d.0,
    ))

-- The set that the filters leave.
pub found_set : World → ℕ → ComponentSet → ComponentSet
found_set w group ids = set_intersection ids (filter_group group (listing w.comp_store))

pub locate_at :
    (w : World) (type_name : String) (entity_id group : ℕ) (ids : ComponentSet)
    → group_of w.index_store.component_type type_name ≡ some group
    → lookup entity_id w.index_store.entity.entity_comp_map ≡ some ids
    → is_countable w.comp_store ≡ true
    → locate w type_name entity_id ≡ only_one (found_set w group ids)
unfolding locate found_set filter_comp_type filter_entity_id get_components map_find
locate_at w type_name entity_id group ids e f small =
    rw (as_comp_set-listing w.comp_store, small, e, f)

pub member-found_set :
    (w : World) (group : ℕ) (ids : ComponentSet) (j : CompStoreId)
    → IsDenseStore w.comp_store
    → Set.member j (found_set w group ids)
      ≡ (Set.member j ids && (in_type (some group) j && is_some (store_view w.comp_store j)))
unfolding found_set
member-found_set w group ids (g, id) d = ground (
  arith,
  member-set_intersection ids (filter_group group (listing w.comp_store)) (g, id),
  member-filter_group group (listing w.comp_store) g id,
  member-store_view w.comp_store (g, id) d,
)

pub unknown :
    (w : World) (type_name : String) (entity_id : ℕ)
    → is_countable w.comp_store ≡ true
    → (group_of w.index_store.component_type type_name ≡ none
        → locate w type_name entity_id ≡ err map_at)
      × ((group : ℕ)
          → group_of w.index_store.component_type type_name ≡ some group
          → lookup entity_id w.index_store.entity.entity_comp_map ≡ none
          → locate w type_name entity_id ≡ err map_at)
unfolding locate filter_comp_type filter_entity_id get_components map_find
unknown w type_name entity_id small = (
  λ e. rw (as_comp_set-listing w.comp_store, small, e) refl,
  λ group e f. rw (as_comp_set-listing w.comp_store, small, e, f) refl,
)

-- Where a component is found, the ids could be listed.
located_countable :
    (w : World) (type_name : String) (entity_id : ℕ) (id : CompStoreId)
    → locate w type_name entity_id ≡ ok id
    → is_countable w.comp_store ≡ true
unfolding locate
located_countable w type_name entity_id id found = elim (Bool-cases (is_countable w.comp_store)) [
  | inl small ↦ small
  | inr large ↦
      let gone : locate w type_name entity_id ≡ undefined =
        rw (as_comp_set-listing w.comp_store, large) refl in
      absurd (ground (arith, found, gone))
]

pub found_set-IsDistinct :
    (w : World) (group : ℕ) (ids : ComponentSet) → Set.IsDistinct (found_set w group ids)
unfolding found_set
found_set-IsDistinct w group ids = set_intersection-IsDistinct ids _

-- In a store from which nothing was removed, the component that getComponent finds is one that the
-- entity has, of the type asked for, and it is the only one.
pub locate-is_match :
    (w : World) (type_name : String) (entity_id : ℕ) (id : CompStoreId)
    → IsDenseStore w.comp_store
    → locate w type_name entity_id ≡ ok id
    → (j : CompStoreId) → is_match w type_name entity_id j ≡ pair_beq id j
locate-is_match w type_name entity_id id d found j =
    let small = located_countable w type_name entity_id id found in
    elim (Option-cases (group_of w.index_store.component_type type_name)) [
      | inl e ↦ absurd (ground (arith, (unknown w type_name entity_id small).0 e))
      | inr (group, e) ↦
          elim (Option-cases (lookup entity_id w.index_store.entity.entity_comp_map)) [
            | inl f ↦ absurd (ground (arith, (unknown w type_name entity_id small).1 group e f))
            | inr (ids, f) ↦
                rw (e, f, ← member-found_set w group ids j d)
                  (only_one-member (found_set w group ids) id j
                    (ground (arith, locate_at w type_name entity_id group ids e f small)))
          ]
    ]

-- In a store from which nothing was removed and whose groups have fewer than 2^31 − 1 components
-- each, getComponent finds the only component of an entity that is of the type asked for.
pub is_match-locate :
    (w : World) (type_name : String) (entity_id : ℕ) (id : CompStoreId)
    → IsDenseStore w.comp_store
    → is_countable w.comp_store ≡ true
    → ((j : CompStoreId) → is_match w type_name entity_id j ≡ pair_beq id j)
    → locate w type_name entity_id ≡ ok id
is_match-locate w type_name entity_id id d small only =
    elim (Option-cases (group_of w.index_store.component_type type_name)) [
      | inl e ↦ absurd (ground (arith, only id, e, pair_beq_iff id id))
      | inr (group, e) ↦
          elim (Option-cases (lookup entity_id w.index_store.entity.entity_comp_map)) [
            | inl f ↦ absurd (ground (arith, only id, f, pair_beq_iff id id))
            | inr (ids, f) ↦
                locate_at w type_name entity_id group ids e f small
                ∙ only_one_lem (found_set w group ids) id (found_set-IsDistinct w group ids)
                    (λ j. member-found_set w group ids j d ∙ (rw (e, f) at only j))
          ]
    ]
