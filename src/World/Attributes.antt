-- ===== src/World/Attributes.antt =====
-- The attributes of entities, and what code that runs on one component does to them.
use bento_box.Base.{ℕ, ◌≡◌, refl, String, some, if◌then◌else◌, arith}
use bento_box.Base.Classes.{string_eq, nat_eq, pair_eq, pair_beq}
use bento_box.Exec.{Exec, Result, ok}
use bento_box.Core.ComponentStore.{CompStoreId, as_comp_set}
use bento_box.Core.ComponentStore.Listing.{IsDenseStore, store_view}
use bento_box.Core.ComponentStore.Access.{get_component-store_view}
use bento_box.Core.ComponentStore.Writing.{
  StoreWrites, set_component-StoreWrites, store_view-is_active,
}
use bento_box.Proto.Messages.{AttributeRef}
use bento_box.Component.UserComponent.{UserComponent, user_component}
use bento_box.World.{World, locate, on_component}

abbrev pub IsDenseWorld : World → Type 0
IsDenseWorld w = IsDenseStore w.comp_store

-- The entity has one component of the type that `ref` names, it is `comp`, and its id is `id`.
pub record Names (w : World) (ref : AttributeRef) (id : CompStoreId) (comp : UserComponent)
    : Type 0 where
  pub located : locate w ref.component ref.entity_id ≡ ok id
  pub found : store_view w.comp_store id ≡ some comp

-- What running code on the component `id`, which it leaves as `comp`, does to the world.
pub record Replaces (w : World) (id : CompStoreId) (comp : UserComponent) (v : World) : Type 0 where
  pub index : v.index_store ≡ w.index_store
  pub draws : v.draws ≡ w.draws
  pub dense : IsDenseWorld v
  pub listed : as_comp_set v.comp_store ≡ as_comp_set w.comp_store
  pub reads :
      (j : CompStoreId)
      → store_view v.comp_store j ≡ (if pair_beq id j then some comp else store_view w.comp_store j)

pub record RunsOn {A : Type 0} (w : World) (id : CompStoreId) (r : Result A) (comp : UserComponent)
    (run : Result A × World) : Type 0 where
  pub result : run.0 ≡ r
  pub replaces : Replaces w id comp run.1

pub on_component-RunsOn :
    {A : Type 0} (w : World) (id : CompStoreId) (action : Exec UserComponent A)
    (comp : UserComponent)
    → IsDenseWorld w
    → store_view w.comp_store id ≡ some comp
    → (action comp).1.is_active ≡ comp.is_active
    → RunsOn w id (action comp).0 (action comp).1 (on_component id action w)
unfolding on_component
on_component-RunsOn w id action comp d h active =
    let s : StoreWrites w.comp_store id (action comp).1 =
      set_component-StoreWrites w.comp_store id comp (action comp).1
        (ground (arith, store_view-is_active w.comp_store id comp d h)) d h in
    rw (get_component-store_view w.comp_store id d, h, s.returned)
      (record {
        result = refl;
        replaces = record {
          index = refl;
          draws = refl;
          dense = s.dense;
          listed = s.listed;
          reads = s.reads;
        };
      })

-- Replacing a component keeps where references lead.
pub locate-Replaces :
    (w v : World) (id : CompStoreId) (comp : UserComponent) (type_name : String) (entity_id : ℕ)
    → Replaces w id comp v
    → locate v type_name entity_id ≡ locate w type_name entity_id
unfolding locate
locate-Replaces w v id comp type_name entity_id r = rw (r.index, r.listed) refl
