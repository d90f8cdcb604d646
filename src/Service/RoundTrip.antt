-- ===== src/Service/RoundTrip.antt =====
-- SetAttribute and then GetAttribute, by the contract of the engine.
use bento_box.Base.{
  ◌≡◌, refl, ◌∙◌, sym, ap, Bool, true, false, ◌&&◌, String, some, if◌then◌else◌, arith, str_eq,
  str_eq_iff, nat_eqb, Bool-cases, inl, inr,
}
use bento_box.Base.Classes.{string_eq}
use bento_box.Exec.{Result, ok, asks, pure}
use bento_box.Std.Map.{lookup}
use bento_box.Std.Map.Laws.{lookup-put}
use bento_box.Proto.Value.{Value}
use bento_box.Proto.Messages.{AttributeRef}
use bento_box.Machine.{Machine}
use bento_box.Component.UserComponent.Assignment.{of_schema}
use bento_box.World.Table.{Row, table, with_row}
use bento_box.Interp.Meaning.{Ground, read, assign, with_attribute}
use bento_box.Interp.Operations as Op
use bento_box.Interp.Evaluate.{evaluate_node}
use bento_box.Interp.Agreement.{Agrees, read-Matches}
use bento_box.Interp.Assigning.{assign-Matches}
use bento_box.Simulation.{Simulation, world_of}
use bento_box.Service.{Engine, done, not_found_by, answer, with_world, set_attribute, get_attribute}
use bento_box.Service.Soundness.{IsSoundEngine}
use bento_box.Service.Holding.{redrawn_Agrees}

abbrev pub same_ref : AttributeRef → AttributeRef → Bool
same_ref ref other =
    str_eq ref.component other.component
    && nat_eqb ref.entity_id other.entity_id
    && str_eq ref.attribute other.attribute

-- Reading from a table in which one attribute was assigned.
read_assigned :
    (ref other : AttributeRef) (u : Value) (row : Row) (g : Ground)
    → g.rows ref.component ref.entity_id ≡ ok row
    → (read other (record g { rows = with_row ref (with_attribute ref.attribute u row) g.rows })).0
      ≡ (if same_ref ref other then ok u else (read other g).0)
unfolding read asks
read_assigned ref other u row g h =
    elim (Bool-cases
      (str_eq ref.component other.component && nat_eqb ref.entity_id other.entity_id)) [
        | inr apart ↦ rw apart (ground (arith, apart))
        | inl same ↦
            let type_same : other.component ≡ ref.component =
              ground (arith, same, str_eq_iff ref.component other.component) in
            let entity_same : other.entity_id ≡ ref.entity_id = ground (arith, same) in
            let old : g.rows other.component other.entity_id ≡ ok row =
              rw (type_same, entity_same) h in
            rw (same, old) (ground (arith, same))
      ]

-- What the rows of a simulation are computed from.
abbrev ground_now : Simulation → Engine → Ground
ground_now sim e = record { rows = table (world_of sim 0); draws = e.draws }

ground_now-Agrees :
    (name : String) (sim : Simulation) (e : Engine)
    → IsSoundEngine e
    → lookup name e.sims ≡ some sim
    → Agrees (world_of sim e.draws) (ground_now sim e)
ground_now-Agrees name sim e s found =
    redrawn_Agrees (world_of sim 0) (record { rows = table (world_of sim 0); draws = 0 }) e.draws
      e.draws refl (record { sound = s.sound name sim found; rows = λ t n. refl; draws = refl })

module _ (m : Machine) where
  assigned_ground :
      (ref : AttributeRef) (v u : Value) (row : Row) (g : Ground)
      → g.rows ref.component ref.entity_id ≡ ok row
      → of_schema m (lookup ref.attribute row.schema) v ≡ ok u
      → assign m ref v g
        ≡ (ok tt, record g { rows = with_row ref (with_attribute ref.attribute u row) g.rows })
  unfolding assign
  assigned_ground ref v u row g h a = rw (h, a) refl

  answered :
      (b : Bool) (u : Value) (r : Result Value)
      → answer (λ v. v) not_found_by (if b then ok u else r)
        ≡ (if b then done u else answer (λ v. v) not_found_by r)
  answered true u r = refl
  answered false u r = refl

  -- In an engine whose stores and indexes agree, where an entity has one component of the type that
  -- a reference names, and the specification of setValue gives a value u for its attribute:
  -- SetAttribute answers done, and GetAttribute then answers u through every reference to that
  -- attribute, and through any other reference to the same simulation what it would have answered
  -- before.
  pub set_attribute-get_attribute :
      (name : String) (ref other : AttributeRef) (v u : Value) (row : Row) (sim : Simulation)
      (e : Engine)
      → IsSoundEngine e
      → lookup name e.sims ≡ some sim
      → table (world_of sim 0) ref.component ref.entity_id ≡ ok row
      → of_schema m (lookup ref.attribute row.schema) v ≡ ok u
      → ((set_attribute m name ref v e).0 ≡ done tt)
        × ((get_attribute name other (set_attribute m name ref v e).1).0
            ≡ (if same_ref ref other then done u else (get_attribute name other e).0))
  unfolding set_attribute get_attribute evaluate_node Op.const_op pure
  set_attribute-get_attribute name ref other v u row sim e s found h a =
      let g = ground_now sim e in
      let agrees = ground_now-Agrees name sim e s found in
      let (r, after) = (assign-Matches m ref v).at (world_of sim e.draws) g agrees in
      let w = (Op.mutate_op m (pure v) ref (world_of sim e.draws)).1 in
      let now = assigned_ground ref v u row g h a in
      let (r', after') = (read-Matches other).at w (assign m ref v g).1 after in
      let (r'', after'') = (read-Matches other).at (world_of sim e.draws) g agrees in
      let itself : str_eq name name ≡ true = ground (arith, str_eq_iff name name) in
      rw (found, r, now, lookup-put name name (with_world sim w) e.sims, itself)
        (
          refl,
          ap (answer (λ v. v) not_found_by)
                (r' ∙ ap (λ p. (read other p.1).0) now ∙ read_assigned ref other u row g h)
              ∙ answered (same_ref ref other) u (read other g).0
              ∙ ap (λ x. if same_ref ref other then done u else answer (λ v. v) not_found_by x)
                  (sym r''),
        )
