-- ===== src/Interp/Assigning.antt =====
-- A mutation against the assignment of Interp/Meaning: the row under the reference takes the value
-- that the specification of `setValue` gives, and no other row changes.
use bento_box.Base.{◌≡◌, refl, ◌∙◌}
use bento_box.Base.Classes.{string_eq}
use bento_box.Exec.{Result, ok, err, undefined, map_result, pure, ◌>>=◌, asks}
use bento_box.Exec.Matches.{Matches}
use bento_box.Exec.Keeps.{Keeps-pure}
use bento_box.Core.ComponentStore.{CompStoreId}
use bento_box.Proto.Value.{Value}
use bento_box.Proto.Messages.{AttributeRef}
use bento_box.Machine.{Machine}
use bento_box.Component.UserComponent.{UserComponent}
use bento_box.Component.UserComponent.Attributes.{attribute}
use bento_box.Component.UserComponent.Assignment.{assigned}
use bento_box.Component.UserComponent.Setting.{Stores}
use bento_box.World.{World, locate}
use bento_box.World.Attributes.{Names, Replaces}
use bento_box.World.Soundness.{IsSound}
use bento_box.World.Table.{row_of}
use bento_box.Interp.Operations as Op
use bento_box.Interp.Agreement.{
  Agrees, locate_cases, table-Names, row_of-with, kept_Agrees, rows_after,
}
use bento_box.Interp.RoundTrip.{mutate_op-Mutates}
use bento_box.Interp.Soundness.{mutate_op-IsSound}
use bento_box.Interp.Meaning
use bento_box.Interp.Meaning.{Ground, with_attribute, put_row}

module _ (m : Machine) where
  -- What a mutation that assigns `v` leaves, from what it was to store.
  put_Agrees :
      (ref : AttributeRef) (w v : World) (g : Ground) (id : CompStoreId)
      (comp after : UserComponent) (x : Result (Unit {0})) (r : Result Value)
      → Agrees w g
      → Names w ref id comp
      → Replaces w id after v
      → Stores ref.attribute r comp (x, after)
      → IsSound v
      → (x ≡ (put_row ref (map_result (λ u. with_attribute ref.attribute u (row_of comp)) r) g).0)
        × Agrees v
            (put_row ref (map_result (λ u. with_attribute ref.attribute u (row_of comp)) r) g).1
  put_Agrees ref w v g id comp after x (ok u) a n r st s = (
    st.result,
    record {
      sound = s;
      rows =
          rows_after w v g ref id after (with_attribute ref.attribute u (row_of comp)) a n.located r
            (row_of-with comp after (with_attribute ref.attribute u (row_of comp)).attributes st.def
              st.attributes);
      draws = r.draws ∙ a.draws;
    },
  )
  put_Agrees ref w v g id comp after x (err e) a n r st s = (
    st.result,
    kept_Agrees w v g ref id comp after a n r
        (row_of-with comp after (λ name. attribute comp name) st.def st.attributes) s,
  )
  put_Agrees ref w v g id comp after x undefined a n r st s = (
    st.result,
    kept_Agrees w v g ref id comp after a n r
        (row_of-with comp after (λ name. attribute comp name) st.def st.attributes) s,
  )

  pub assign-Matches :
      (ref : AttributeRef) (v : Value)
      → Matches Agrees (Op.mutate_op m (pure v) ref) (Meaning.assign m ref v)
  unfolding Op.mutate_op Meaning.assign ◌>>=◌ asks pure
  assign-Matches ref v = record {
    at = λ w g a. at_place w g (locate w ref.component ref.entity_id) refl a;
  }
    where
      at_place :
          (w : World) (g : Ground) (r : Result CompStoreId)
          → locate w ref.component ref.entity_id ≡ r
          → Agrees w g
          → ((Op.mutate_op m (pure v) ref w).0 ≡ (Meaning.assign m ref v g).0)
            × Agrees (Op.mutate_op m (pure v) ref w).1 (Meaning.assign m ref v g).1
      at_place w g (err x) e a = rw (e, ← a.rows ref.component ref.entity_id, e) (refl, a)
      at_place w g undefined e a = rw (e, ← a.rows ref.component ref.entity_id, e) (refl, a)
      at_place w g (ok id) e a =
          let (comp, n) = locate_cases w ref id a.sound e in
          let r = mutate_op-Mutates m (pure v) ref w w v id comp refl a.sound.dense n in
          rw (← a.rows ref.component ref.entity_id, table-Names w ref id comp n)
            (put_Agrees ref w (Op.mutate_op m (pure v) ref w).1 g id comp r.after
              (Op.mutate_op m (pure v) ref w).0 (assigned m comp ref.attribute v) a n r.replaces
              r.stores ((mutate_op-IsSound m (pure v) ref (Keeps-pure v)).at w a.sound))
