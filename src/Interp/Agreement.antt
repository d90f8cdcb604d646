-- ===== src/Interp/Agreement.antt =====
-- Worlds and the ground that graphs are computed from: what it takes for the two to agree, and the
-- two accesses of an attribute on both.
use bento_box.Base.{ℕ, String, ◌≡◌, refl, ◌∙◌, sym, ap, Option, arith, str_eq_iff}
use mathlib.Core.Path.{fun_ext}
use bento_box.Base.Classes.{string_eq}
use bento_box.Exec.{Result, ok, err, undefined, asks, ◌>>=◌}
use bento_box.Exec.Matches.{Matches}
use bento_box.Core.ComponentStore.{CompStoreId}
use bento_box.Proto.Value.{Value}
use bento_box.Proto.Messages.{AttributeRef}
use bento_box.Component.UserComponent.{UserComponent}
use bento_box.Component.UserComponent.Attributes.{attribute}
use bento_box.World.{World, locate}
use bento_box.World.Attributes.{Names, Replaces}
use bento_box.World.Soundness.{IsSound, locate-type_name}
use bento_box.World.Table.{Row, Table, table, row_of, with_row, table-Replaces}
use bento_box.Interp.Operations as Op
use bento_box.Interp.RoundTrip.{retrieve_op-Retrieves}
use bento_box.Interp.Soundness.{retrieve_op-IsSound}
use bento_box.Interp.Meaning
use bento_box.Interp.Meaning.{Ground, with_attribute, put_row}

-- A sound world, and the rows and draws that can be seen of it.
pub record Agrees (w : World) (g : Ground) : Type 0 where
  pub sound : IsSound w
  pub rows :
      (type_name : String) (entity_id : ℕ)
      → table w type_name entity_id ≡ g.rows type_name entity_id
  pub draws : w.draws ≡ g.draws

-- A component under the definition of another one, with the attributes that are given.
pub row_of-with :
    (comp after : UserComponent) (attributes : String → Option Value)
    → after.comp_def ≡ comp.comp_def
    → ((name : String) → attribute after name ≡ attributes name)
    → row_of after ≡ record { schema = comp.comp_def.schema; attributes = attributes }
row_of-with comp after attributes h k =
    rw h (ap (λ f. record { schema = comp.comp_def.schema; attributes = f }) (fun_ext k))

pub locate_cases :
    (w : World) (ref : AttributeRef) (id : CompStoreId)
    → IsSound w
    → locate w ref.component ref.entity_id ≡ ok id
    → (comp : UserComponent) × Names w ref id comp
locate_cases w ref id s e =
    let (comp, found, named, owned) = locate-type_name w ref.component ref.entity_id id s e in
    (comp, record { located = e; found = found })

pub table-Names :
    (w : World) (ref : AttributeRef) (id : CompStoreId) (comp : UserComponent)
    → Names w ref id comp
    → table w ref.component ref.entity_id ≡ ok (row_of comp)
table-Names w ref id comp n = rw (n.located, n.found) refl

-- Putting a row where it is already.
with_row-same :
    (ref : AttributeRef) (row : Row) (t : Table) (type_name : String) (entity_id : ℕ)
    → t ref.component ref.entity_id ≡ ok row
    → with_row ref row t type_name entity_id ≡ t type_name entity_id
with_row-same ref row t type_name entity_id h =
    ground (arith, h, str_eq_iff ref.component type_name)

-- The table after code that leaves the component that a reference leads to with the row `row`.
pub rows_after :
    (w v : World) (g : Ground) (ref : AttributeRef) (id : CompStoreId) (comp : UserComponent)
    (row : Row)
    → Agrees w g
    → locate w ref.component ref.entity_id ≡ ok id
    → Replaces w id comp v
    → row_of comp ≡ row
    → (type_name : String) (entity_id : ℕ)
    → table v type_name entity_id ≡ with_row ref row g.rows type_name entity_id
rows_after w v g ref id comp row a e r same t n =
    table-Replaces w v id comp ref t n a.sound e r ∙ rw (same, a.rows t n) refl

-- Code that leaves the row of its component as it was leaves the world in agreement.
pub kept_Agrees :
    (w v : World) (g : Ground) (ref : AttributeRef) (id : CompStoreId) (comp after : UserComponent)
    → Agrees w g
    → Names w ref id comp
    → Replaces w id after v
    → row_of after ≡ row_of comp
    → IsSound v
    → Agrees v g
kept_Agrees w v g ref id comp after a n r same s = record {
  sound = s;
  rows = λ t k.
      rows_after w v g ref id after (row_of comp) a n.located r same t k
      ∙ with_row-same ref (row_of comp) g.rows t k
          (sym (a.rows ref.component ref.entity_id) ∙ table-Names w ref id comp n);
  draws = r.draws ∙ a.draws;
}

pub read-Matches : (ref : AttributeRef) → Matches Agrees (Op.retrieve_op ref) (Meaning.read ref)
unfolding Op.retrieve_op Meaning.read ◌>>=◌ asks
read-Matches ref = record {
  at = λ w g a. at_place w g (locate w ref.component ref.entity_id) refl a;
}
  where
    at_place :
        (w : World) (g : Ground) (r : Result CompStoreId)
        → locate w ref.component ref.entity_id ≡ r
        → Agrees w g
        → ((Op.retrieve_op ref w).0 ≡ (Meaning.read ref g).0)
          × Agrees (Op.retrieve_op ref w).1 (Meaning.read ref g).1
    at_place w g (err x) e a = rw (e, ← a.rows ref.component ref.entity_id, e) (refl, a)
    at_place w g undefined e a = rw (e, ← a.rows ref.component ref.entity_id, e) (refl, a)
    at_place w g (ok id) e a =
        let (comp, n) = locate_cases w ref id a.sound e in
        let r = retrieve_op-Retrieves ref w id comp a.sound.dense n in
        let h = table-Names w ref id comp n in
        (
          rw (← a.rows ref.component ref.entity_id, h) r.result,
          kept_Agrees w (Op.retrieve_op ref w).1 g ref id comp r.after a n r.replaces
              (row_of-with comp r.after (λ name. attribute comp name) r.same.def r.same.same)
              ((retrieve_op-IsSound ref).at w a.sound),
        )
