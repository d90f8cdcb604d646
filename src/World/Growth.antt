-- ===== src/World/Growth.antt =====
-- `ics::addComponent` in a sound world.
use bento_box.Base.{
  ℕ, zero, suc, ◌+◌, ◌≤◌, ◌<◌, ◌≡◌, refl, true, none, some, if◌then◌else◌, arith, Option-cases,
  Bool-cases, inl, inr,
}
use bento_box.Base.Classes.{string_eq, nat_eq, pair_eq, pair_beq, pair_beq_iff}
use bento_box.Exec.{Result, ok}
use bento_box.Std.Map.{lookup, is_some}
use bento_box.Core.CompVec.{id_mod}
use bento_box.Core.ComponentStore
use bento_box.Core.ComponentStore.{ComponentStore, CompStoreId, int_max}
use bento_box.Core.ComponentStore.Listing.{IsDenseStore, store_view, is_countable, is_countable_lem}
use bento_box.Core.ComponentStore.Access.{RoomIn, Added, add_component-Added}
use bento_box.Index.TypeIndex.{group_mod, add_component_type}
use bento_box.Index.TypeIndex.Groups.{group_of}
use bento_box.Index.TypeIndex.Adding.{AddsType, add_component_type-AddsType}
use bento_box.Component.UserComponent.{UserComponent, user_component}
use bento_box.World.{World, add_component}
use bento_box.World.Soundness.{IsSound}

-- No component has an id above `n`.
abbrev pub IdsWithin : ℕ → ComponentStore UserComponent → Type 0
IdsWithin n store = (g id : ℕ) → is_some (store_view store (g, id)) ≡ true → id ≤ n

room_within :
    (n g : ℕ) (store : ComponentStore UserComponent)
    → IsDenseStore store
    → IdsWithin n store
    → n + 1 < id_mod
    → RoomIn (lookup g store)
room_within n g store d within small = elim (Option-cases (lookup g store)) [
  | inl e ↦ rw e tt
  | inr (vec, e) ↦
      rw e (ground (arith, e, (d.dense g vec e).in_use vec.last_id, within g vec.last_id))
]

-- The ids of a group have no gap.
no_gap :
    (store : ComponentStore UserComponent) (g id : ℕ)
    → IsDenseStore store
    → is_some (store_view store (g, suc (suc id))) ≡ true
    → is_some (store_view store (g, suc id)) ≡ true
no_gap store g id d h = elim (Option-cases (lookup g store)) [
  | inl e ↦ absurd (ground (arith, e))
  | inr (vec, e) ↦
      ground (arith, e, (d.dense g vec e).in_use (suc (suc id)), (d.dense g vec e).in_use (suc id))
]

ids_after :
    (n g : ℕ) (comp : UserComponent) (store : ComponentStore UserComponent)
    (r : Result CompStoreId × ComponentStore UserComponent)
    → IdsWithin n store
    → Added comp g store r
    → IdsWithin (n + 1) r.1
ids_after n g comp store r within a h zero s = omega arith
ids_after n g comp store r within a h (suc zero) s = omega arith
ids_after n g comp store r within a h (suc (suc id)) s = ground (
  arith,
  a.stored (h, suc (suc id)),
  a.stored (h, suc id),
  no_gap r.1 h id a.kept s,
  within h (suc (suc id)),
  within h (suc id),
)

-- A sound world with at most `n` component types and no component id above `n`.
pub record Within (n : ℕ) (w : World) : Type 0 where
  pub sound : IsSound w
  pub ids : IdsWithin n w.comp_store
  pub types : w.index_store.component_type.comp_group ≤ n

-- The component is stored under a new id, which no entity has yet.
pub record Grown (n : ℕ) (comp : UserComponent) (w : World) (run : Result CompStoreId × World)
    : Type 0 where
  pub id : CompStoreId
  pub returned : run.0 ≡ ok id
  pub fresh : store_view w.comp_store id ≡ none
  pub stored :
      (j : CompStoreId)
      → store_view run.1.comp_store j
        ≡ (if pair_beq id j then some comp else store_view w.comp_store j)
  pub entity : run.1.index_store.entity ≡ w.index_store.entity
  pub within : Within (n + 1) run.1

pub add_component-Grown :
    (n : ℕ) (comp : UserComponent) (w : World)
    → comp.is_active ≡ true
    → Within n w
    → n + 1 < group_mod
    → Grown n comp w (add_component comp w)
unfolding add_component
add_component-Grown n comp w active h small =
    let t =
      add_component_type-AddsType comp.type_name w.index_store.component_type h.sound.groups
        (omega (arith, h.types)) in
    let a : Added comp t.group w.comp_store
        (ComponentStore.add_component comp t.group w.comp_store) =
      add_component-Added comp t.group w.comp_store active h.sound.dense
        (room_within n t.group w.comp_store h.sound.dense h.ids small) in
    rw t.returned (record {
      id = (t.group, a.id);
      returned = a.returned;
      fresh = a.fresh;
      stored = a.stored;
      entity = refl;
      within = record {
        sound = record {
          dense = a.kept;
          groups = t.valid;
          typed = λ j c e. typed_after t a j c e;
          owned = λ e j k. ground (arith, a.stored j, h.sound.owned e j k);
          apart = h.sound.apart;
        };
        ids = ids_after n t.group comp w.comp_store _ h.ids a;
        types = omega (arith, t.bounded, h.types);
      };
    })
  where
    typed_after :
        (t : AddsType comp.type_name w.index_store.component_type
          (add_component_type comp.type_name w.index_store.component_type))
        → (a : Added comp t.group w.comp_store
            (ComponentStore.add_component comp t.group w.comp_store))
        → (j : CompStoreId) (c : UserComponent)
        → store_view (ComponentStore.add_component comp t.group w.comp_store).1 j ≡ some c
        → group_of (add_component_type comp.type_name w.index_store.component_type).1 c.type_name
          ≡ some j.0
    typed_after t a j c e = elim (Bool-cases (pair_beq (t.group, a.id) j)) [
      | inl same ↦ ground (arith, a.stored j, e, pair_beq_iff (t.group, a.id) j, t.found)
      | inr differs ↦ t.kept c.type_name j.0 (h.sound.typed j c (ground (arith, a.stored j, e)))
    ]

-- The groups of a world with few components are countable.
pub Within-is_countable :
    (n : ℕ) (w : World) → Within n w → n < int_max → is_countable w.comp_store ≡ true
Within-is_countable n w h small = is_countable_lem w.comp_store h.sound.dense.unique λ g vec e.
    ground (
      arith,
      e,
      (h.sound.dense.dense g vec e).counted,
      (h.sound.dense.dense g vec e).in_use vec.last_id,
      h.ids g vec.last_id,
    )
