-- ===== src/World/Placing.antt =====
-- The components of one type that an entity has, as a list, and what `getComponent` makes of it.
use bento_box.Base.{
  true, ℕ, ◌≡◌, refl, ◌∙◌, Bool, false, ◌&&◌, String, [], ◌∷◌, Option, none, some, arith, str_eq,
  str_eq_iff, ◌⊎◌, Option-cases, inl, inr,
}
use bento_box.Base.Classes.{string_eq, nat_eq, pair_eq, pair_beq_iff}
use bento_box.Exec.{Result, ok, err, map_at, no_component, many_components}
use bento_box.Std.Map.{lookup}
use bento_box.Std.Set
use bento_box.Core.ComponentStore.{CompStoreId, ComponentSet}
use bento_box.Core.ComponentStore.Listing.{store_view, is_countable}
use bento_box.Index.TypeIndex.Groups.{group_of}
use bento_box.Index.EntityIndex.Entities.{has}
use bento_box.Component.UserComponent.{UserComponent, user_component}
use bento_box.World.{World, only_one, locate}
use bento_box.World.Locating.{
  is_match, found_set, locate_at, unknown, only_one_lem, member-found_set, found_set-IsDistinct,
}
use bento_box.World.Soundness.{IsSound}

abbrev pub is_of_type : String → Option UserComponent → Bool
is_of_type type_name none = false
is_of_type type_name (some comp) = str_eq comp.type_name type_name

-- `id` names a component of the type `type_name` that the entity has, by the stores alone.
abbrev pub is_placed : World → String → ℕ → CompStoreId → Bool
is_placed w type_name entity_id id =
    has w.index_store.entity entity_id id && is_of_type type_name (store_view w.comp_store id)

-- In a sound world the groups say of what type a component is.
is_match-is_placed :
    (w : World) (type_name : String) (entity_id : ℕ) (id : CompStoreId)
    → IsSound w
    → is_match w type_name entity_id id ≡ is_placed w type_name entity_id id
is_match-is_placed w type_name entity_id (g, id) s =
    elim (Option-cases (store_view w.comp_store (g, id))) [
      | inl e ↦ ground (arith, e)
      | inr (comp, e) ↦ elim (Option-cases (group_of w.index_store.component_type type_name)) [
        | inl f ↦ ground (arith, e, f, s.typed (g, id) comp e, str_eq_iff comp.type_name type_name)
        | inr (group, f) ↦ ground (
          arith,
          e,
          f,
          s.typed (g, id) comp e,
          str_eq_iff comp.type_name type_name,
          s.groups.apart comp.type_name type_name g,
        )
      ]
    ]

-- What looking for the only one of these ids gives.
abbrev pub Finds : ComponentSet → Result CompStoreId → Type 0
Finds [] r = (r ≡ err map_at) ⊎ (r ≡ err no_component)
Finds (id ∷ []) r = r ≡ ok id
Finds (id ∷ other ∷ rest) r = r ≡ err many_components

-- Sets with the same elements have only one of them, or none, together.
only_one_same :
    (s ids : ComponentSet)
    → Set.IsDistinct s
    → Set.IsDistinct ids
    → ((j : CompStoreId) → Set.member j s ≡ Set.member j ids)
    → Finds ids (only_one s)
unfolding only_one Set.member
only_one_same [] [] c d h = inr refl
only_one_same (x ∷ s) [] c d h = absurd (ground (arith, h x, pair_beq_iff x x))
only_one_same s (id ∷ []) c d h = only_one_lem s id c λ j. ground (arith, h j)
only_one_same [] (x ∷ y ∷ ids) c d h = absurd (ground (arith, h x, pair_beq_iff x x))
only_one_same (z ∷ []) (x ∷ y ∷ ids) c d h = absurd (
    ground (
      arith,
      h x,
      h y,
      d.0,
      pair_beq_iff z x,
      pair_beq_iff z y,
      pair_beq_iff y x,
      pair_beq_iff x x,
      pair_beq_iff y y,
    ))
only_one_same (z ∷ z' ∷ s) (x ∷ y ∷ ids) c d h = refl

-- A list of the components of a type that an entity has.
pub record Places (w : World) (type_name : String) (entity_id : ℕ) (ids : ComponentSet)
    : Type 0 where
  pub distinct : Set.IsDistinct ids
  pub members : (j : CompStoreId) → is_placed w type_name entity_id j ≡ Set.member j ids

-- Where the type or the entity is not known, nothing is placed.
nowhere :
    (w : World) (type_name : String) (entity_id : ℕ) (ids : ComponentSet)
    → IsSound w
    → ((j : CompStoreId) → is_match w type_name entity_id j ≡ false)
    → Places w type_name entity_id ids
    → locate w type_name entity_id ≡ err map_at
    → Finds ids (locate w type_name entity_id)
unfolding Set.member
nowhere w t n [] s h p e = inl e
nowhere w t n (x ∷ ids) s h p e =
    absurd (ground (arith, h x, p.members x, is_match-is_placed w t n x s, pair_beq_iff x x))

found_set-is_match :
    (w : World) (type_name : String) (entity_id group : ℕ) (owned : ComponentSet) (j : CompStoreId)
    → IsSound w
    → group_of w.index_store.component_type type_name ≡ some group
    → lookup entity_id w.index_store.entity.entity_comp_map ≡ some owned
    → Set.member j (found_set w group owned) ≡ is_match w type_name entity_id j
found_set-is_match w t n group owned j s e f =
    member-found_set w group owned j s.dense ∙ rw (e, f) refl

pub locate-Places :
    (w : World) (type_name : String) (entity_id : ℕ) (ids : ComponentSet)
    → IsSound w
    → is_countable w.comp_store ≡ true
    → Places w type_name entity_id ids
    → Finds ids (locate w type_name entity_id)
locate-Places w t n ids s small p = elim (Option-cases (group_of w.index_store.component_type t)) [
  | inl e ↦ nowhere w t n ids s (λ j. ground (arith, e)) p ((unknown w t n small).0 e)
  | inr (group, e) ↦ elim (Option-cases (lookup n w.index_store.entity.entity_comp_map)) [
    | inl f ↦ nowhere w t n ids s (λ j. ground (arith, f)) p ((unknown w t n small).1 group e f)
    | inr (owned, f) ↦ rw (locate_at w t n group owned e f small) (
        only_one_same (found_set w group owned) ids (found_set-IsDistinct w group owned) p.distinct
          λ j.
            found_set-is_match w t n group owned j s e f
            ∙ is_match-is_placed w t n j s
            ∙ p.members j)
  ]
]
