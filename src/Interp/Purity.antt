-- ===== src/Interp/Purity.antt =====
-- Evaluating a node changes nothing that can be seen of the stores.
use bento_box.Exec.{asks}
use bento_box.Exec.Keeps.{Keeps, Keeps-asks, Keeps-bind}
use bento_box.Proto.Messages.{AttributeRef, Node}
use bento_box.Proto.UserValue.{Scalar}
use bento_box.Machine.{Machine}
use bento_box.Component.UserComponent.{get_mutable_value}
use bento_box.Component.UserComponent.Attributes.{get_mutable_value_lem}
use bento_box.World.{World, on_component, locate}
use bento_box.World.Same.{SameWorld, SameWorld-refl, SameWorld-trans}
use bento_box.World.Reading.{on_component-SameWorld}
use bento_box.Interp.Operations as Op
use bento_box.Interp.Evaluate.{evaluate_node}
use bento_box.Interp.Keeping.{node_Keeps}

-- Worlds in which everything reads as it did in `start`.
abbrev Unchanged : World → World → Type 0
Unchanged start w = SameWorld w start

module _ (start : World) where
  retrieve_Keeps : (ref : AttributeRef) → Keeps (Unchanged start) (Op.retrieve_op ref)
  unfolding Op.retrieve_op
  retrieve_Keeps ref =
      Keeps-bind (asks (λ w. locate w ref.component ref.entity_id))
        (λ id. on_component id (get_mutable_value ref.attribute)) (Keeps-asks _)
        λ id. record {
          at = λ w h.
              SameWorld-trans
                (on_component-SameWorld id (get_mutable_value ref.attribute)
                  (λ c. (get_mutable_value_lem ref.attribute c).1) w)
                h;
        }

  draw-Keeps : (m : Machine) (a b : Scalar) → Keeps (Unchanged start) (Op.draw m a b)
  unfolding Op.draw
  draw-Keeps m a b = record { at = λ w h. record { index = h.index; store = h.store } }

-- Evaluating any node, whether it ends normally or not, leaves the index store as it was and every
-- component with the attributes that it had.
pub evaluate_node-SameWorld :
    (m : Machine) (n : Node) (w : World) → SameWorld (evaluate_node m n w).1 w
evaluate_node-SameWorld m n w =
    (node_Keeps m (Unchanged w) (retrieve_Keeps w) (draw-Keeps w m) n).at w (SameWorld-refl w)
