-- ===== src/Interp/Operations.antt =====
-- sim/src/interpreter/operations.cpp: one operation for each kind of node. An operation takes the
-- evaluation of its operand nodes, and makes them in the order of the code.
use bento_box.Base.{ℕ, suc, Bool, true, false, ◌&&◌, ◌||◌, not, List, [], ◌∷◌, some, if◌then◌else◌}
use bento_box.Exec.{
  Exec, Result, ok, undefined, not_boolean, and_operands, or_operands, not_operand, no_equivalence,
  pure, raise, lift, gets, asks, modify, ◌>>=◌, ◌>>◌,
}
use bento_box.Proto.Value.{
  Value, ValueKind, boolean, of_primitive, primitive, TypePrimitive, primitive_type,
}
use bento_box.Proto.Messages.{AttributeRef}
use bento_box.Proto.UserValue.{
  Kind, float32_kind, float64_kind, int32_kind, int64_kind, str_kind, bool_kind, numeric, Scalar,
  float32_of, float64_of, is_val_of_type, is_val_of_types, get_boolean,
}
use bento_box.Proto.Dispatch.{run_fn_with_val, run_fn_with_vals}
use bento_box.Machine.{FloatOps, Machine}
use bento_box.Machine.Arith
use bento_box.Machine.Functions
use bento_box.Component.UserComponent.{get_mutable_value, set_value}
use bento_box.World.{World, locate, on_component}

unfoldable pub const_op : Value → Exec World Value
const_op held_value = pure held_value

unfoldable pub retrieve_op : AttributeRef → Exec World Value
unfolding ◌>>=◌
retrieve_op ref = do
  component ← asks (λ w. locate w ref.component ref.entity_id)
  on_component component (get_mutable_value ref.attribute)

abbrev pub is_boolean : ValueKind → Bool
is_boolean (of_primitive (boolean b)) = true
is_boolean _ = false

unfoldable pub switch_op : Exec World Value → Exec World Value → Exec World Value → Exec World Value
unfolding ◌>>=◌
switch_op condition_node false_node true_node = do
  condition_val ← condition_node
  if not (is_boolean condition_val.kind)
      then raise not_boolean
      else if get_boolean (primitive condition_val)
      then true_node
      else false_node

-- The value that the Boolean operations build.
abbrev pub boolean_value : Bool → Value
boolean_value b = record {
  data_type = some (primitive_type TypePrimitive.bool);
  kind = of_primitive (boolean b);
}

unfoldable pub and_op : Exec World Value → Exec World Value → Exec World Value
unfolding ◌>>=◌ is_val_of_type
and_op x y = do
  x_val ← x
  y_val ← y
  if not (is_val_of_type bool_kind x_val) || not (is_val_of_type bool_kind y_val)
      then raise and_operands
      else pure (boolean_value (get_boolean (primitive x_val) && get_boolean (primitive y_val)))

unfoldable pub or_op : Exec World Value → Exec World Value → Exec World Value
unfolding ◌>>=◌ is_val_of_type
or_op x y = do
  x_val ← x
  y_val ← y
  if not (is_val_of_type bool_kind x_val) || not (is_val_of_type bool_kind y_val)
      then raise or_operands
      else pure (boolean_value (get_boolean (primitive x_val) || get_boolean (primitive y_val)))

unfoldable pub not_op : Exec World Value → Exec World Value
unfolding ◌>>=◌ is_val_of_type
not_op x = do
  x_val ← x
  if not (is_val_of_type bool_kind x_val)
      then raise not_operand
      else pure (boolean_value (not (get_boolean (primitive x_val))))

-- The two shapes of an arithmetic operation.
unfoldable pub unary :
    List Kind → (Scalar → Exec World Scalar) → Exec World Value → Exec World Value
unfolding ◌>>=◌
unary allowed op x = do x_val ← x; run_fn_with_val allowed x_val op

unfoldable pub binary :
    List Kind
    → (Scalar → Scalar → Exec World Scalar)
    → Exec World Value
    → Exec World Value
    → Exec World Value
unfolding ◌>>=◌
binary allowed op x y = do x_val ← x; y_val ← y; run_fn_with_vals allowed x_val y_val op

abbrev pub integers : List Kind
integers = int32_kind ∷ int64_kind ∷ []

abbrev pub reals : List Kind
reals = float32_kind ∷ float64_kind ∷ []

module _ (m : Machine) where
  unfoldable pub add_op : Exec World Value → Exec World Value → Exec World Value
  add_op = binary numeric (λ x y. lift (Arith.plus m x y))

  unfoldable pub sub_op : Exec World Value → Exec World Value → Exec World Value
  sub_op = binary numeric (λ x y. lift (Arith.minus m x y))

  unfoldable pub mul_op : Exec World Value → Exec World Value → Exec World Value
  mul_op = binary numeric (λ x y. lift (Arith.times m x y))

  unfoldable pub div_op : Exec World Value → Exec World Value → Exec World Value
  div_op = binary numeric (λ x y. lift (Arith.divide m x y))

  unfoldable pub max_op : Exec World Value → Exec World Value → Exec World Value
  max_op = binary numeric (λ x y. lift (Arith.maximum m x y))

  unfoldable pub min_op : Exec World Value → Exec World Value → Exec World Value
  min_op = binary numeric (λ x y. lift (Arith.minimum m x y))

  unfoldable pub pow_op : Exec World Value → Exec World Value → Exec World Value
  pow_op = binary numeric (λ x y. lift (Functions.power m x y))

  unfoldable pub gt_op : Exec World Value → Exec World Value → Exec World Value
  gt_op = binary numeric (λ x y. lift (Arith.gt m x y))

  unfoldable pub lt_op : Exec World Value → Exec World Value → Exec World Value
  lt_op = binary numeric (λ x y. lift (Arith.lt m x y))

  unfoldable pub ge_op : Exec World Value → Exec World Value → Exec World Value
  ge_op = binary numeric (λ x y. lift (Arith.ge m x y))

  unfoldable pub le_op : Exec World Value → Exec World Value → Exec World Value
  le_op = binary numeric (λ x y. lift (Arith.le m x y))

  unfoldable pub mod_op : Exec World Value → Exec World Value → Exec World Value
  mod_op = binary integers (λ x y. lift (Arith.modulo m x y))

  unfoldable pub abs_op : Exec World Value → Exec World Value
  abs_op = unary numeric (λ x. lift (Functions.absolute m x))

  unfoldable pub floor_op : Exec World Value → Exec World Value
  floor_op = unary numeric (λ x. lift (Functions.math m (λ f. f.floor) x))

  unfoldable pub ceil_op : Exec World Value → Exec World Value
  ceil_op = unary numeric (λ x. lift (Functions.math m (λ f. f.ceil) x))

  unfoldable pub sin_op : Exec World Value → Exec World Value
  sin_op = unary numeric (λ x. lift (Functions.math m (λ f. f.sin) x))

  unfoldable pub arc_sin_op : Exec World Value → Exec World Value
  arc_sin_op = unary numeric (λ x. lift (Functions.arc_sine m x))

  unfoldable pub cos_op : Exec World Value → Exec World Value
  cos_op = unary numeric (λ x. lift (Functions.math m (λ f. f.cos) x))

  unfoldable pub arc_cos_op : Exec World Value → Exec World Value
  arc_cos_op = unary numeric (λ x. lift (Functions.arc_cosine m x))

  unfoldable pub tan_op : Exec World Value → Exec World Value
  tan_op = unary numeric (λ x. lift (Functions.math m (λ f. f.tan) x))

  unfoldable pub arc_tan_op : Exec World Value → Exec World Value
  arc_tan_op = unary numeric (λ x. lift (Functions.math m (λ f. f.atan) x))

  -- `uniform_real_distribution` over the common type of the bounds, which is undefined where the
  -- lower bound is not at most the upper one
  abbrev between : FloatOps → ℕ → ℕ → Scalar → Result Scalar
  between f low high drawn = if f.le low high then ok drawn else undefined

  abbrev pub uniform : ℕ → Scalar → Scalar → Result Scalar
  uniform n (float32_of low) (float32_of high) =
      between m.single low high (float32_of (m.uniform_single n low high))
  uniform n (float32_of low) (float64_of high) =
      between m.double (m.widen low) high (float64_of (m.uniform_double n (m.widen low) high))
  uniform n (float64_of low) (float32_of high) =
      between m.double low (m.widen high) (float64_of (m.uniform_double n low (m.widen high)))
  uniform n (float64_of low) (float64_of high) =
      between m.double low high (float64_of (m.uniform_double n low high))
  uniform n low high = undefined

  unfoldable pub draw : Scalar → Scalar → Exec World Scalar
  unfolding ◌>>=◌
  draw low high = do
    n ← gets (λ w. w.draws)
    modify (λ w. record w { draws = suc w.draws })
    lift (uniform n low high)

  unfoldable pub random_op : Exec World Value → Exec World Value → Exec World Value
  random_op = binary reals draw

  abbrev pub equate : Value → Value → Exec World Value
  equate x_val y_val =
      if is_val_of_types numeric x_val
      then run_fn_with_vals numeric x_val y_val (λ x y. lift (Arith.eq m x y))
      else if is_val_of_type str_kind x_val
      then run_fn_with_vals (str_kind ∷ []) x_val y_val (λ x y. lift (Arith.eq m x y))
      else if is_val_of_type bool_kind x_val
      then run_fn_with_vals (bool_kind ∷ []) x_val y_val (λ x y. lift (Arith.eq m x y))
      else raise no_equivalence

  unfoldable pub eq_op : Exec World Value → Exec World Value → Exec World Value
  unfolding ◌>>=◌
  eq_op x y = do x_val ← x; y_val ← y; equate x_val y_val

  unfoldable pub mutate_op : Exec World Value → AttributeRef → Exec World (Unit {0})
  unfolding ◌>>=◌
  mutate_op to_node ref = do
    val ← to_node
    component ← asks (λ w. locate w ref.component ref.entity_id)
    on_component component (set_value m ref.attribute val)
