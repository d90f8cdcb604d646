-- ===== src/Interp/Soundness.antt =====
-- Graphs keep the world sound, however they end.
use bento_box.Base.{suc, List, [], ◌∷◌}
use bento_box.Exec.{Exec, asks}
use bento_box.Exec.Keeps.{Keeps, Keeps-asks, Keeps-bind, Keeps-pure}
use bento_box.Proto.Value.{Value}
use bento_box.Proto.Messages.{AttributeRef, Node, Mutate, Graph}
use bento_box.Proto.UserValue.{Scalar}
use bento_box.Machine.{Machine}
use bento_box.Component.UserComponent.{get_mutable_value, set_value}
use bento_box.Component.UserComponent.Attributes.{get_mutable_value_lem}
use bento_box.Component.UserComponent.Setting.{set_value-Stores}
use bento_box.World.{World, on_component, locate}
use bento_box.World.Soundness.{IsSound, redrawn-IsSound, on_component-IsSound}
use bento_box.Interp.Keeping.{node_Keeps}
use bento_box.Interp.Operations as Op
use bento_box.Interp.Evaluate.{evaluate_node, mutate, run_outputs, run_graph}

pub retrieve_op-IsSound : (ref : AttributeRef) → Keeps IsSound (Op.retrieve_op ref)
unfolding Op.retrieve_op
retrieve_op-IsSound ref =
    Keeps-bind (asks (λ w. locate w ref.component ref.entity_id))
      (λ id. on_component id (get_mutable_value ref.attribute)) (Keeps-asks _)
      λ id.
        on_component-IsSound id (get_mutable_value ref.attribute)
          (λ c. (get_mutable_value_lem ref.attribute c).1.active)
          (λ c. (get_mutable_value_lem ref.attribute c).1.name)

module _ (m : Machine) where
  draw-IsSound : (a b : Scalar) → Keeps IsSound (Op.draw m a b)
  unfolding Op.draw
  draw-IsSound a b = record { at = λ w s. redrawn-IsSound w (suc w.draws) s }

  pub evaluate_node-IsSound : (n : Node) → Keeps IsSound (evaluate_node m n)
  evaluate_node-IsSound n = node_Keeps m IsSound retrieve_op-IsSound draw-IsSound n

  pub mutate_op-IsSound :
      (node : Exec World Value) (ref : AttributeRef)
      → Keeps IsSound node
      → Keeps IsSound (Op.mutate_op m node ref)
  unfolding Op.mutate_op
  mutate_op-IsSound node ref k = Keeps-bind node _ k λ v.
      Keeps-bind (asks (λ w. locate w ref.component ref.entity_id))
        (λ id. on_component id (set_value m ref.attribute v)) (Keeps-asks _)
        λ id.
          on_component-IsSound id (set_value m ref.attribute v)
            (λ c. (set_value-Stores m ref.attribute v c).active)
            (λ c. (set_value-Stores m ref.attribute v c).type_name)

  run_outputs-IsSound : (outputs : List Mutate) → Keeps IsSound (run_outputs m outputs)
  unfolding run_outputs mutate
  run_outputs-IsSound [] = Keeps-pure tt
  run_outputs-IsSound (output ∷ rest) =
      Keeps-bind (mutate m output) (λ _. run_outputs m rest)
        (mutate_op-IsSound (evaluate_node m output.to_node) output.mutate_attr
          (evaluate_node-IsSound output.to_node))
        λ _. run_outputs-IsSound rest

  pub run_graph-IsSound : (graph : Graph) → Keeps IsSound (run_graph m graph)
  unfolding run_graph
  run_graph-IsSound graph = run_outputs-IsSound graph.outputs
