-- ===== src/World/Table.antt =====
-- What can be seen of a world: for a component type and an entity, the one component of that type
-- that the entity has.
use bento_box.Base.{
  ℕ, ◌≡◌, refl, ◌∙◌, sym, ap, ◌&&◌, String, Option, if◌then◌else◌, arith, str_eq, str_eq_iff,
  nat_eqb, Bool-cases, inl, inr,
}
use bento_box.Base.Classes.{string_eq, nat_eq, pair_eq, pair_beq, pair_beq_iff}
use bento_box.Exec.{Result, ok, err, undefined, map_at, or_raise, map_result, then_result}
use bento_box.Std.Map.{Map}
use bento_box.Core.ComponentStore.{CompStoreId}
use bento_box.Core.ComponentStore.Listing.{store_view}
use bento_box.Proto.Value.{ProtoType, Value}
use bento_box.Proto.Messages.{AttributeRef}
use bento_box.Component.UserComponent.{UserComponent}
use bento_box.Component.UserComponent.Attributes.{attribute}
use bento_box.World.{World, locate}
use bento_box.World.Attributes.{Replaces, locate-Replaces}
use bento_box.World.Soundness.{IsSound, locate-type_name}

-- a component: the types of its attributes, and the values of those that are set
pub record Row : Type 0 where
  pub schema : Map String ProtoType
  pub attributes : String → Option Value

-- the row of a component type and an entity, or the exception that looking for it throws
abbrev pub Table : Type 0
Table = String → ℕ → Result Row

abbrev pub row_of : UserComponent → Row
row_of comp = record { schema = comp.comp_def.schema; attributes = λ name. attribute comp name }

abbrev pub row_at : World → Result CompStoreId → Result Row
row_at w r = then_result r λ id. map_result row_of (or_raise map_at (store_view w.comp_store id))

abbrev pub table : World → Table
table w type_name entity_id = row_at w (locate w type_name entity_id)

-- The table with another row under `ref`.
abbrev pub with_row : AttributeRef → Row → Table → Table
with_row ref row t type_name entity_id =
    if str_eq ref.component type_name && nat_eqb ref.entity_id entity_id
    then ok row
    else t type_name entity_id

-- In a sound world, two places lead to one component only if they are the same.
same_place :
    (w : World) (id j : CompStoreId) (type_name other : String) (entity_id another : ℕ)
    → IsSound w
    → locate w type_name entity_id ≡ ok id
    → locate w other another ≡ ok j
    → pair_beq id j ≡ (str_eq type_name other && nat_eqb entity_id another)
same_place w id j type_name other entity_id another s l k =
    let (c, found, named, owned) = locate-type_name w type_name entity_id id s l in
    let (d, found', named', owned') = locate-type_name w other another j s k in
    elim (Bool-cases (pair_beq id j)) [
      | inl same ↦ ground (
        arith,
        pair_beq_iff id j,
        s.apart entity_id another id owned,
        str_eq_iff type_name other,
        found,
        found',
        named,
        named',
        owned',
      )
      | inr differs ↦ elim (Bool-cases (str_eq type_name other && nat_eqb entity_id another)) [
        | inr apart ↦ differs ∙ sym apart
        | inl both ↦ absurd (ground (arith, l, k, str_eq_iff type_name other, pair_beq_iff id j))
      ]
    ]

-- Replacing the component that a reference leads to replaces its row.
pub table-Replaces :
    (w v : World) (id : CompStoreId) (comp : UserComponent) (ref : AttributeRef)
    (type_name : String) (entity_id : ℕ)
    → IsSound w
    → locate w ref.component ref.entity_id ≡ ok id
    → Replaces w id comp v
    → table v type_name entity_id ≡ with_row ref (row_of comp) (table w) type_name entity_id
table-Replaces w v id comp ref type_name entity_id s l r =
    ap (row_at v) (locate-Replaces w v id comp type_name entity_id r)
    ∙ seen (locate w type_name entity_id) refl
  where
    seen :
        (found : Result CompStoreId)
        → locate w type_name entity_id ≡ found
        → row_at v found ≡ (
            if str_eq ref.component type_name && nat_eqb ref.entity_id entity_id
            then ok (row_of comp)
            else row_at w found)
    seen (err x) e = ground (arith, l, e, str_eq_iff ref.component type_name)
    seen undefined e = ground (arith, l, e, str_eq_iff ref.component type_name)
    seen (ok j) e =
        rw (r.reads j, ← same_place w id j ref.component type_name ref.entity_id entity_id s l e)
          (ground arith)
