-- ===== src/Interp/Evaluate.antt =====
-- sim/src/interpreter/graphInterpreter.cpp
use bento_box.Base.{List, [], ◌∷◌}
use bento_box.Exec.{Exec, mutating_node, unknown_op, pure, raise, ◌>>=◌, ◌>>◌}
use bento_box.Proto.Value.{Value}
use bento_box.Proto.Messages.{
  Node, op_not_set, const_op, retrieve_op, mutate_op, switch_op, add_op, sub_op, mul_op, div_op,
  max_op, min_op, abs_op, floor_op, ceil_op, pow_op, mod_op, sin_op, arcsin_op, cos_op, arccos_op,
  tan_op, arctan_op, random_op, and_op, or_op, not_op, eq_op, gt_op, lt_op, ge_op, le_op, Mutate,
  Graph,
}
use bento_box.Machine.{Machine}
use bento_box.World.{World}
use bento_box.Interp.Operations as Op

module _ (m : Machine) where
  unfoldable pub evaluate_node : Node → Exec World Value
  evaluate_node (const_op v) = Op.const_op v
  evaluate_node (retrieve_op ref) = Op.retrieve_op ref
  evaluate_node (mutate_op n ref) = raise mutating_node
  evaluate_node (switch_op c f t) =
      Op.switch_op (evaluate_node c) (evaluate_node f) (evaluate_node t)
  evaluate_node (add_op x y) = Op.add_op m (evaluate_node x) (evaluate_node y)
  evaluate_node (sub_op x y) = Op.sub_op m (evaluate_node x) (evaluate_node y)
  evaluate_node (mul_op x y) = Op.mul_op m (evaluate_node x) (evaluate_node y)
  evaluate_node (div_op x y) = Op.div_op m (evaluate_node x) (evaluate_node y)
  evaluate_node (max_op x y) = Op.max_op m (evaluate_node x) (evaluate_node y)
  evaluate_node (min_op x y) = Op.min_op m (evaluate_node x) (evaluate_node y)
  evaluate_node (abs_op x) = Op.abs_op m (evaluate_node x)
  evaluate_node (floor_op x) = Op.floor_op m (evaluate_node x)
  evaluate_node (ceil_op x) = Op.ceil_op m (evaluate_node x)
  evaluate_node (pow_op x y) = Op.pow_op m (evaluate_node x) (evaluate_node y)
  evaluate_node (mod_op x y) = Op.mod_op m (evaluate_node x) (evaluate_node y)
  evaluate_node (sin_op x) = Op.sin_op m (evaluate_node x)
  evaluate_node (arcsin_op x) = Op.arc_sin_op m (evaluate_node x)
  evaluate_node (cos_op x) = Op.cos_op m (evaluate_node x)
  evaluate_node (arccos_op x) = Op.arc_cos_op m (evaluate_node x)
  evaluate_node (tan_op x) = Op.tan_op m (evaluate_node x)
  evaluate_node (arctan_op x) = Op.arc_tan_op m (evaluate_node x)
  evaluate_node (random_op x y) = Op.random_op m (evaluate_node x) (evaluate_node y)
  evaluate_node (and_op x y) = Op.and_op (evaluate_node x) (evaluate_node y)
  evaluate_node (or_op x y) = Op.or_op (evaluate_node x) (evaluate_node y)
  evaluate_node (not_op x) = Op.not_op (evaluate_node x)
  evaluate_node (eq_op x y) = Op.eq_op m (evaluate_node x) (evaluate_node y)
  evaluate_node (gt_op x y) = Op.gt_op m (evaluate_node x) (evaluate_node y)
  evaluate_node (lt_op x y) = Op.lt_op m (evaluate_node x) (evaluate_node y)
  evaluate_node (ge_op x y) = Op.ge_op m (evaluate_node x) (evaluate_node y)
  evaluate_node (le_op x y) = Op.le_op m (evaluate_node x) (evaluate_node y)
  evaluate_node op_not_set = raise unknown_op

  unfoldable pub mutate : Mutate → Exec World (Unit {0})
  mutate node = Op.mutate_op m (evaluate_node node.to_node) node.mutate_attr

  unfoldable pub run_outputs : List Mutate → Exec World (Unit {0})
  unfolding mutate ◌>>=◌
  run_outputs [] = pure tt
  run_outputs (output ∷ rest) = do mutate output; run_outputs rest

  unfoldable pub run_graph : Graph → Exec World (Unit {0})
  unfolding run_outputs
  run_graph graph = run_outputs graph.outputs
