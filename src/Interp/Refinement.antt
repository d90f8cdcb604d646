-- ===== src/Interp/Refinement.antt =====
-- sim/src/interpreter/graphInterpreter.cpp against the meaning of graphs in Interp/Meaning.
use bento_box.Base.{
  suc, ◌≡◌, refl, ◌∙◌, ap, ◌&&◌, Bool-cases, inl, inr, List, [], ◌∷◌, Option, none, some,
}
use bento_box.Exec.{Exec, Result, ok, err, undefined, after, raise, pure, ◌>>=◌}
use bento_box.Exec.Matches.{Matches, Matches-bind, Matches-raise, Matches-pure}
use bento_box.Proto.Value.{Value, default_value}
use bento_box.Proto.Messages.{
  Node, op_not_set, const_op, retrieve_op, mutate_op, switch_op, add_op, sub_op, mul_op, div_op,
  max_op, min_op, abs_op, floor_op, ceil_op, pow_op, mod_op, sin_op, arcsin_op, cos_op, arccos_op,
  tan_op, arctan_op, random_op, and_op, or_op, not_op, eq_op, gt_op, lt_op, ge_op, le_op, Mutate,
  Graph,
}
use bento_box.Proto.UserValue.{Scalar, kind_of, type_in_types, set_val}
use bento_box.Proto.Dispatch.Typed.{scalar_of, run_both, run_fn_with_vals-run_both}
use bento_box.Machine.{Machine}
use bento_box.World.{World, locate}
use bento_box.World.Soundness.{redrawn-IsSound}
use bento_box.Interp.Operations as Op
use bento_box.Interp.Evaluate.{evaluate_node, run_outputs, run_graph, mutate}
use bento_box.Interp.Meaning
use bento_box.Interp.Meaning.{Ground, meaning, run, drawn, valued}
use bento_box.Interp.Agreement.{Agrees, read-Matches}
use bento_box.Interp.Assigning.{assign-Matches}
use bento_box.Interp.Operators.{
  unary-Matches, binary-Matches, switch_Matches, logical-Matches, eq_Matches,
}

module _ (m : Machine) where
  -- A draw that is allowed.
  uniform-Matches :
      (a b : Scalar)
      → Matches Agrees
          (do r ← Op.draw m a b; pure (set_val default_value r))
          (λ g. (valued (Op.uniform m g.draws a b), record g { draws = suc g.draws }))
  unfolding Op.draw ◌>>=◌ pure locate
  uniform-Matches a b = record {
    at = λ w g h. (
      (by_result (Op.uniform m w.draws a b) (record w { draws = suc w.draws })).0 ∙ rw h.draws refl,
      rw (by_result (Op.uniform m w.draws a b) (record w { draws = suc w.draws })).1 (record {
        sound = redrawn-IsSound w (suc w.draws) h.sound;
        rows = h.rows;
        draws = ap suc h.draws;
      }),
    );
  }
    where
      by_result :
          (r : Result Scalar) (w : World)
          → ((after (λ x. pure (set_val default_value x)) (r, w)).0 ≡ valued r)
            × ((after (λ x. pure (set_val default_value x)) (r, w)).1 ≡ w)
      by_result (ok x) w = (refl, refl)
      by_result (err e) w = (refl, refl)
      by_result undefined w = (refl, refl)

  drawn-Matches :
      (a b : Option Scalar) → Matches Agrees (run_both Op.reals a b (Op.draw m)) (drawn m a b)
  unfolding run_both raise
  drawn-Matches none b = Matches-raise _
  drawn-Matches (some a) none = Matches-raise _
  drawn-Matches (some a) (some b) =
      elim (Bool-cases (type_in_types (kind_of a) Op.reals && type_in_types (kind_of b) Op.reals)) [
        | inl both ↦ record { at = λ w g h. rw both ((uniform-Matches a b).at w g h) }
        | inr other ↦ record { at = λ w g h. rw other (refl, h) }
      ]

  random_Matches :
      (x y : Exec World Value) (x' y' : Exec Ground Value)
      → Matches Agrees x x'
      → Matches Agrees y y'
      → Matches Agrees (Op.random_op m x y) (Meaning.randomized m x' y')
  unfolding Op.random_op Op.binary Meaning.randomized
  random_Matches x y x' y' h k = Matches-bind x x' _ _ h λ a. Matches-bind y y' _ _ k λ b. record {
    at = λ w g r.
        rw (run_fn_with_vals-run_both Op.reals a b (Op.draw m) w)
          ((drawn-Matches (scalar_of a) (scalar_of b)).at w g r);
  }

  node_Matches : (n : Node) → Matches Agrees (evaluate_node m n) (meaning m n)
  unfolding evaluate_node meaning Op.add_op Op.sub_op Op.mul_op Op.div_op Op.max_op Op.min_op
      Op.pow_op Op.mod_op Op.gt_op Op.lt_op Op.ge_op Op.le_op Op.abs_op Op.floor_op Op.ceil_op
      Op.sin_op Op.arc_sin_op Op.cos_op Op.arc_cos_op Op.tan_op Op.arc_tan_op Op.const_op
  node_Matches (const_op v) = Matches-pure v
  node_Matches (retrieve_op ref) = read-Matches ref
  node_Matches (mutate_op n ref) = Matches-raise _
  node_Matches (switch_op c f t) =
      switch_Matches m _ _ _ _ _ _ (node_Matches c) (node_Matches f) (node_Matches t)
  node_Matches (add_op x y) = binary-Matches m _ _ _ _ _ _ (node_Matches x) (node_Matches y)
  node_Matches (sub_op x y) = binary-Matches m _ _ _ _ _ _ (node_Matches x) (node_Matches y)
  node_Matches (mul_op x y) = binary-Matches m _ _ _ _ _ _ (node_Matches x) (node_Matches y)
  node_Matches (div_op x y) = binary-Matches m _ _ _ _ _ _ (node_Matches x) (node_Matches y)
  node_Matches (max_op x y) = binary-Matches m _ _ _ _ _ _ (node_Matches x) (node_Matches y)
  node_Matches (min_op x y) = binary-Matches m _ _ _ _ _ _ (node_Matches x) (node_Matches y)
  node_Matches (pow_op x y) = binary-Matches m _ _ _ _ _ _ (node_Matches x) (node_Matches y)
  node_Matches (mod_op x y) = binary-Matches m _ _ _ _ _ _ (node_Matches x) (node_Matches y)
  node_Matches (gt_op x y) = binary-Matches m _ _ _ _ _ _ (node_Matches x) (node_Matches y)
  node_Matches (lt_op x y) = binary-Matches m _ _ _ _ _ _ (node_Matches x) (node_Matches y)
  node_Matches (ge_op x y) = binary-Matches m _ _ _ _ _ _ (node_Matches x) (node_Matches y)
  node_Matches (le_op x y) = binary-Matches m _ _ _ _ _ _ (node_Matches x) (node_Matches y)
  node_Matches (abs_op x) = unary-Matches m _ _ _ _ (node_Matches x)
  node_Matches (floor_op x) = unary-Matches m _ _ _ _ (node_Matches x)
  node_Matches (ceil_op x) = unary-Matches m _ _ _ _ (node_Matches x)
  node_Matches (sin_op x) = unary-Matches m _ _ _ _ (node_Matches x)
  node_Matches (arcsin_op x) = unary-Matches m _ _ _ _ (node_Matches x)
  node_Matches (cos_op x) = unary-Matches m _ _ _ _ (node_Matches x)
  node_Matches (arccos_op x) = unary-Matches m _ _ _ _ (node_Matches x)
  node_Matches (tan_op x) = unary-Matches m _ _ _ _ (node_Matches x)
  node_Matches (arctan_op x) = unary-Matches m _ _ _ _ (node_Matches x)
  node_Matches (random_op x y) = random_Matches _ _ _ _ (node_Matches x) (node_Matches y)
  node_Matches (and_op x y) = (logical-Matches m _ _ _ _ (node_Matches x) (node_Matches y)).0
  node_Matches (or_op x y) = (logical-Matches m _ _ _ _ (node_Matches x) (node_Matches y)).1
  node_Matches (not_op x) = (logical-Matches m _ _ _ _ (node_Matches x) (node_Matches x)).2
  node_Matches (eq_op x y) = eq_Matches m _ _ _ _ (node_Matches x) (node_Matches y)
  node_Matches op_not_set = Matches-raise _

  mutate-Matches : (output : Mutate) → Matches Agrees (mutate m output) (Meaning.mutation m output)
  unfolding mutate Meaning.mutation Op.mutate_op ◌>>=◌ pure
  mutate-Matches output =
      Matches-bind (evaluate_node m output.to_node) (meaning m output.to_node) _ _
        (node_Matches output.to_node) λ v. assign-Matches m output.mutate_attr v

  outputs_Matches : (outputs : List Mutate) → Matches Agrees (run_outputs m outputs) (run m outputs)
  unfolding run_outputs run
  outputs_Matches [] = Matches-pure tt
  outputs_Matches (output ∷ rest) =
      Matches-bind (mutate m output) (Meaning.mutation m output) _ _ (mutate-Matches output)
        λ _. outputs_Matches rest

  -- On a sound world, evaluating any node gives the value, the exception or the undefined behaviour
  -- that its meaning gives on the rows and the count of draws that the world shows, and the world
  -- still shows the rows and the count that are left then.
  pub evaluate_node-meaning :
      (n : Node) (w : World) (g : Ground)
      → Agrees w g
      → ((evaluate_node m n w).0 ≡ (meaning m n g).0)
        × Agrees (evaluate_node m n w).1 (meaning m n g).1
  evaluate_node-meaning n w g h = (node_Matches n).at w g h

  pub run_graph-Matches : (graph : Graph) → Matches Agrees (run_graph m graph) (run m graph.outputs)
  unfolding run_graph
  run_graph-Matches graph = outputs_Matches graph.outputs

  -- On a sound world, running a graph ends as the meaning of its mutations does on the rows and the
  -- count of draws that the world shows, and the world afterwards is sound and shows the rows and
  -- the count that are left: each mutation changes the one attribute that it names, also where a
  -- later one throws.
  pub run_graph-run :
      (graph : Graph) (w : World) (g : Ground)
      → Agrees w g
      → ((run_graph m graph w).0 ≡ (run m graph.outputs g).0)
        × Agrees (run_graph m graph w).1 (run m graph.outputs g).1
  run_graph-run graph w g h = (run_graph-Matches graph).at w g h
