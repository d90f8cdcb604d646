-- ===== src/World/Soundness.antt =====
-- Worlds whose stores and indexes agree with each other.
use bento_box.Base.{ℕ, String, ◌≡◌, ◌∙◌, true, some, arith, Option-cases, Bool-cases, inl, inr}
use bento_box.Base.Classes.{string_eq, nat_eq, pair_eq, pair_beq, pair_beq_iff}
use bento_box.Exec.{Exec, ok}
use bento_box.Exec.Keeps.{Keeps}
use bento_box.Std.Map.{is_some}
use bento_box.Core.ComponentStore.{CompStoreId}
use bento_box.Core.ComponentStore.Listing.{store_view}
use bento_box.Core.ComponentStore.Access.{get_component-store_view}
use bento_box.Index.TypeIndex.Groups.{IsValid, group_of}
use bento_box.Index.EntityIndex.Entities.{has}
use bento_box.Component.UserComponent.{UserComponent, user_component}
use bento_box.World.{World, on_component, locate}
use bento_box.World.Locating.{is_match, locate-is_match}
use bento_box.World.Attributes.{IsDenseWorld, Replaces, on_component-RunsOn}

-- Every component is in the group of its type, and what entities have are components, each of one
-- entity at most.
pub record IsSound (w : World) : Type 0 where
  pub dense : IsDenseWorld w
  pub groups : IsValid w.index_store.component_type
  pub typed :
      (id : CompStoreId) (comp : UserComponent)
      → store_view w.comp_store id ≡ some comp
      → group_of w.index_store.component_type comp.type_name ≡ some id.0
  pub owned :
      (entity_id : ℕ) (id : CompStoreId)
      → has w.index_store.entity entity_id id ≡ true
      → is_some (store_view w.comp_store id) ≡ true
  pub apart :
      (entity_id other : ℕ) (id : CompStoreId)
      → has w.index_store.entity entity_id id ≡ true
      → has w.index_store.entity other id ≡ true
      → entity_id ≡ other

-- Drawing random numbers does not matter.
pub redrawn-IsSound : (w : World) (draws : ℕ) → IsSound w → IsSound (record w { draws = draws })
redrawn-IsSound w draws s = record {
  dense = s.dense;
  groups = s.groups;
  typed = s.typed;
  owned = s.owned;
  apart = s.apart;
}

Replaces-IsSound :
    (w v : World) (id : CompStoreId) (old comp : UserComponent)
    → store_view w.comp_store id ≡ some old
    → comp.type_name ≡ old.type_name
    → Replaces w id comp v
    → IsSound w
    → IsSound v
Replaces-IsSound w v id old comp found same_name r s = record {
  dense = r.dense;
  groups = rw r.index s.groups;
  typed = λ j c h. rw r.index (typed_after j c h);
  owned = λ e j h. ground (arith, r.reads j, s.owned e j (rw r.index at h));
  apart = λ e f j h k. s.apart e f j (rw r.index at h) (rw r.index at k);
}
  where
    typed_after :
        (j : CompStoreId) (c : UserComponent)
        → store_view v.comp_store j ≡ some c
        → group_of w.index_store.component_type c.type_name ≡ some j.0
    typed_after j c h = elim (Bool-cases (pair_beq id j)) [
      | inl same ↦ ground (arith, r.reads j, h, pair_beq_iff id j, same_name, s.typed id old found)
      | inr differs ↦ s.typed j c (ground (arith, r.reads j, h))
    ]

-- Code that keeps the type of the component that it runs on keeps the world sound.
pub on_component-IsSound :
    {A : Type 0} (id : CompStoreId) (action : Exec UserComponent A)
    → ((c : UserComponent) → (action c).1.is_active ≡ c.is_active)
    → ((c : UserComponent) → (action c).1.type_name ≡ c.type_name)
    → Keeps IsSound (on_component id action)
unfolding on_component
on_component-IsSound id action active name = record {
  at = λ w s. elim (Option-cases (store_view w.comp_store id)) [
    | inl e ↦ rw (get_component-store_view w.comp_store id s.dense, e) s
    | inr (c, e) ↦
        let r = on_component-RunsOn w id action c s.dense e (active c) in
        Replaces-IsSound w (on_component id action w).1 id c (action c).1 e (name c) r.replaces s
  ];
}

-- In a sound world, the component that getComponent finds is of the type asked for.
pub locate-type_name :
    (w : World) (type_name : String) (entity_id : ℕ) (id : CompStoreId)
    → IsSound w
    → locate w type_name entity_id ≡ ok id
    → (comp : UserComponent) × (store_view w.comp_store id ≡ some comp)
      × (comp.type_name ≡ type_name)
      × (has w.index_store.entity entity_id id ≡ true)
locate-type_name w type_name entity_id (g, j) s e =
    let match : is_match w type_name entity_id (g, j) ≡ true =
      locate-is_match w type_name entity_id (g, j) s.dense e (g, j)
      ∙ ground (arith, pair_beq_iff (g, j) (g, j)) in
    let types = w.index_store.component_type in
    elim (Option-cases (store_view w.comp_store (g, j))) [
      | inl missing ↦ absurd (ground arith)
      | inr (comp, found) ↦ elim (Option-cases (group_of types type_name)) [
        | inl unknown ↦ absurd (ground arith)
        | inr (group, grouped) ↦ (
          comp,
          found,
          s.groups.apart comp.type_name type_name g (s.typed (g, j) comp found) (ground arith),
          ground arith,
        )
      ]
    ]
