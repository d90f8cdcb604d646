-- ===== src/Interp/Keeping.antt =====
-- An invariant of the world that reading an attribute and drawing a random number keep is kept by
-- the evaluation of every node.
use bento_box.Base.{List, Option, none, some}
use bento_box.Exec.{Exec}
use bento_box.Exec.Keeps.{Keeps, Keeps-pure, Keeps-raise, Keeps-lift, keeps_rules}
use bento_box.Proto.Value.{Value}
use bento_box.Proto.Messages.{
  AttributeRef, Node, op_not_set, const_op, retrieve_op, mutate_op, switch_op, add_op, sub_op,
  mul_op, div_op, max_op, min_op, abs_op, floor_op, ceil_op, pow_op, mod_op, sin_op, arcsin_op,
  cos_op, arccos_op, tan_op, arctan_op, random_op, and_op, or_op, not_op, eq_op, gt_op, lt_op,
  ge_op, le_op,
}
use bento_box.Proto.UserValue.{Kind, Scalar}
use bento_box.Proto.Dispatch.{run_fn_with_val, run_fn_with_vals}
use bento_box.Proto.Dispatch.Typed.{
  scalar_of, run_typed, run_both, run_fn_with_val-run_typed, run_fn_with_vals-run_both,
}
use bento_box.Machine.{Machine}
use bento_box.World.{World}
use bento_box.Interp.Operations as Op
use bento_box.Interp.Evaluate.{evaluate_node}

module _ {S : Type 0} {P : S → Type 0} where
  Keeps-run_typed :
      (ks : List Kind) (a : Option Scalar) (fn : Scalar → Exec S Scalar)
      → ((a : Scalar) → Keeps P (fn a))
      → Keeps P (run_typed ks a fn)
  unfolding run_typed
  Keeps-run_typed ks none fn h = Keeps-raise _
  Keeps-run_typed ks (some a) fn h = search (keeps_rules, h)

  Keeps-run_both :
      (ks : List Kind) (a b : Option Scalar) (fn : Scalar → Scalar → Exec S Scalar)
      → ((a b : Scalar) → Keeps P (fn a b))
      → Keeps P (run_both ks a b fn)
  unfolding run_both
  Keeps-run_both ks none b fn h = Keeps-raise _
  Keeps-run_both ks (some a) none fn h = Keeps-raise _
  Keeps-run_both ks (some a) (some b) fn h = search (keeps_rules, h)

  Keeps-run_fn_with_val :
      (ks : List Kind) (v : Value) (fn : Scalar → Exec S Scalar)
      → ((a : Scalar) → Keeps P (fn a))
      → Keeps P (run_fn_with_val ks v fn)
  Keeps-run_fn_with_val ks v fn h = record {
    at = λ s p.
        rw (run_fn_with_val-run_typed ks v fn s) ((Keeps-run_typed ks (scalar_of v) fn h).at s p);
  }

  Keeps-run_fn_with_vals :
      (ks : List Kind) (x y : Value) (fn : Scalar → Scalar → Exec S Scalar)
      → ((a b : Scalar) → Keeps P (fn a b))
      → Keeps P (run_fn_with_vals ks x y fn)
  Keeps-run_fn_with_vals ks x y fn h = record {
    at = λ s p.
        rw (run_fn_with_vals-run_both ks x y fn s)
          ((Keeps-run_both ks (scalar_of x) (scalar_of y) fn h).at s p);
  }

module _ (m : Machine) (P : World → Type 0)
    (retrieves : (ref : AttributeRef) → Keeps P (Op.retrieve_op ref))
    (draws : (a b : Scalar) → Keeps P (Op.draw m a b)) where
  unary-Keeps :
      (ks : List Kind) (op : Scalar → Exec World Scalar) (x : Exec World Value)
      → ((a : Scalar) → Keeps P (op a))
      → Keeps P x
      → Keeps P (Op.unary ks op x)
  unfolding Op.unary
  unary-Keeps ks op x h hx = search (keeps_rules, Keeps-run_fn_with_val)

  binary-Keeps :
      (ks : List Kind) (op : Scalar → Scalar → Exec World Scalar) (x y : Exec World Value)
      → ((a b : Scalar) → Keeps P (op a b))
      → Keeps P x
      → Keeps P y
      → Keeps P (Op.binary ks op x y)
  unfolding Op.binary
  binary-Keeps ks op x y h hx hy = search (keeps_rules, Keeps-run_fn_with_vals)

  switch_Keeps :
      (c f t : Exec World Value) → Keeps P c → Keeps P f → Keeps P t → Keeps P (Op.switch_op c f t)
  unfolding Op.switch_op
  switch_Keeps c f t hc hf ht = search keeps_rules

  boolean_Keeps :
      (x y : Exec World Value)
      → Keeps P x
      → Keeps P y
      → Keeps P (Op.and_op x y) × Keeps P (Op.or_op x y) × Keeps P (Op.not_op x)
  unfolding Op.and_op Op.or_op Op.not_op
  boolean_Keeps x y hx hy = (search keeps_rules, search keeps_rules, search keeps_rules)

  eq_Keeps : (x y : Exec World Value) → Keeps P x → Keeps P y → Keeps P (Op.eq_op m x y)
  unfolding Op.eq_op
  eq_Keeps x y hx hy = search (keeps_rules, Keeps-run_fn_with_vals) depth 8

  pub node_Keeps : (n : Node) → Keeps P (evaluate_node m n)
  unfolding evaluate_node Op.add_op Op.sub_op Op.mul_op Op.div_op Op.max_op Op.min_op Op.pow_op
      Op.mod_op Op.gt_op Op.lt_op Op.ge_op Op.le_op Op.abs_op Op.floor_op Op.ceil_op Op.sin_op
      Op.arc_sin_op Op.cos_op Op.arc_cos_op Op.tan_op Op.arc_tan_op Op.random_op Op.const_op
  node_Keeps (const_op v) = Keeps-pure v
  node_Keeps (retrieve_op ref) = retrieves ref
  node_Keeps (mutate_op n ref) = Keeps-raise _
  node_Keeps (switch_op c f t) = switch_Keeps _ _ _ (node_Keeps c) (node_Keeps f) (node_Keeps t)
  node_Keeps (add_op x y) = binary-Keeps _ _ _ _ (λ a b. Keeps-lift _) (node_Keeps x) (node_Keeps y)
  node_Keeps (sub_op x y) = binary-Keeps _ _ _ _ (λ a b. Keeps-lift _) (node_Keeps x) (node_Keeps y)
  node_Keeps (mul_op x y) = binary-Keeps _ _ _ _ (λ a b. Keeps-lift _) (node_Keeps x) (node_Keeps y)
  node_Keeps (div_op x y) = binary-Keeps _ _ _ _ (λ a b. Keeps-lift _) (node_Keeps x) (node_Keeps y)
  node_Keeps (max_op x y) = binary-Keeps _ _ _ _ (λ a b. Keeps-lift _) (node_Keeps x) (node_Keeps y)
  node_Keeps (min_op x y) = binary-Keeps _ _ _ _ (λ a b. Keeps-lift _) (node_Keeps x) (node_Keeps y)
  node_Keeps (pow_op x y) = binary-Keeps _ _ _ _ (λ a b. Keeps-lift _) (node_Keeps x) (node_Keeps y)
  node_Keeps (mod_op x y) = binary-Keeps _ _ _ _ (λ a b. Keeps-lift _) (node_Keeps x) (node_Keeps y)
  node_Keeps (gt_op x y) = binary-Keeps _ _ _ _ (λ a b. Keeps-lift _) (node_Keeps x) (node_Keeps y)
  node_Keeps (lt_op x y) = binary-Keeps _ _ _ _ (λ a b. Keeps-lift _) (node_Keeps x) (node_Keeps y)
  node_Keeps (ge_op x y) = binary-Keeps _ _ _ _ (λ a b. Keeps-lift _) (node_Keeps x) (node_Keeps y)
  node_Keeps (le_op x y) = binary-Keeps _ _ _ _ (λ a b. Keeps-lift _) (node_Keeps x) (node_Keeps y)
  node_Keeps (abs_op x) = unary-Keeps _ _ _ (λ a. Keeps-lift _) (node_Keeps x)
  node_Keeps (floor_op x) = unary-Keeps _ _ _ (λ a. Keeps-lift _) (node_Keeps x)
  node_Keeps (ceil_op x) = unary-Keeps _ _ _ (λ a. Keeps-lift _) (node_Keeps x)
  node_Keeps (sin_op x) = unary-Keeps _ _ _ (λ a. Keeps-lift _) (node_Keeps x)
  node_Keeps (arcsin_op x) = unary-Keeps _ _ _ (λ a. Keeps-lift _) (node_Keeps x)
  node_Keeps (cos_op x) = unary-Keeps _ _ _ (λ a. Keeps-lift _) (node_Keeps x)
  node_Keeps (arccos_op x) = unary-Keeps _ _ _ (λ a. Keeps-lift _) (node_Keeps x)
  node_Keeps (tan_op x) = unary-Keeps _ _ _ (λ a. Keeps-lift _) (node_Keeps x)
  node_Keeps (arctan_op x) = unary-Keeps _ _ _ (λ a. Keeps-lift _) (node_Keeps x)
  node_Keeps (random_op x y) = binary-Keeps _ _ _ _ draws (node_Keeps x) (node_Keeps y)
  node_Keeps (and_op x y) = (boolean_Keeps _ _ (node_Keeps x) (node_Keeps y)).0
  node_Keeps (or_op x y) = (boolean_Keeps _ _ (node_Keeps x) (node_Keeps y)).1
  node_Keeps (not_op x) = (boolean_Keeps _ _ (node_Keeps x) (node_Keeps x)).2
  node_Keeps (eq_op x y) = eq_Keeps _ _ (node_Keeps x) (node_Keeps y)
  node_Keeps op_not_set = Keeps-raise _
