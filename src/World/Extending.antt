-- ===== src/World/Extending.antt =====
-- Worlds that have all that an earlier one had.
use bento_box.Base.{ℕ, ◌≡◌, true, some}
use bento_box.Base.Classes.{string_eq, nat_eq, pair_eq}
use bento_box.Core.ComponentStore.{CompStoreId}
use bento_box.Core.ComponentStore.Listing.{store_view}
use bento_box.Index.EntityIndex.Entities.{has, is_known}
use bento_box.Component.UserComponent.{UserComponent}
use bento_box.World.{World}

pub record Extends (w v : World) : Type 0 where
  pub known :
      (entity_id : ℕ)
      → is_known w.index_store.entity entity_id ≡ true
      → is_known v.index_store.entity entity_id ≡ true
  pub owned :
      (entity_id : ℕ) (id : CompStoreId)
      → has w.index_store.entity entity_id id ≡ true
      → has v.index_store.entity entity_id id ≡ true
  pub stored :
      (id : CompStoreId) (comp : UserComponent)
      → store_view w.comp_store id ≡ some comp
      → store_view v.comp_store id ≡ some comp

pub Extends-refl : (w : World) → Extends w w
Extends-refl w = record { known = λ e h. h; owned = λ e id h. h; stored = λ id c h. h }

pub Extends-trans : {u v w : World} → Extends u v → Extends v w → Extends u w
Extends-trans h k = record {
  known = λ e a. k.known e (h.known e a);
  owned = λ e id a. k.owned e id (h.owned e id a);
  stored = λ id c a. k.stored id c (h.stored id c a);
}

-- The entity has a component that is stored as `comp`.
pub record Owns (w : World) (entity_id : ℕ) (comp : UserComponent) : Type 0 where
  pub id : CompStoreId
  pub owned : has w.index_store.entity entity_id id ≡ true
  pub stored : store_view w.comp_store id ≡ some comp

pub Owns-Extends :
    {w v : World} {entity_id : ℕ} {comp : UserComponent}
    → Extends w v
    → Owns w entity_id comp
    → Owns v entity_id comp
Owns-Extends {w} {v} {entity_id} {comp} h o = record {
  id = o.id;
  owned = h.owned entity_id o.id o.owned;
  stored = h.stored o.id comp o.stored;
}
