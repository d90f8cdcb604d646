-- ===== src/Interp/Meaning.antt =====
-- What a graph means, without stores, indexes and templates: nodes are computed from the rows of a
-- table, and a mutation gives a row another value.
use bento_box.Base.{
  ℕ, suc, Bool, ◌&&◌, ◌||◌, not, String, List, [], ◌∷◌, Option, none, some, if◌then◌else◌, str_eq,
}
use bento_box.Base.Classes.{string_eq}
use bento_box.Exec.{
  Exec, Error, Result, ok, err, undefined, unset_value, invalid_value, not_boolean, and_operands,
  or_operands, not_operand, no_equivalence, mutating_node, unknown_op, or_raise, map_result,
  then_result, asks, pure, raise, lift, ◌>>=◌, ◌>>◌,
}
use bento_box.Std.Map.{lookup}
use bento_box.Proto.Value.{Value, default_value}
use bento_box.Proto.Messages.{
  AttributeRef, Node, op_not_set, const_op, retrieve_op, mutate_op, switch_op, add_op, sub_op,
  mul_op, div_op, max_op, min_op, abs_op, floor_op, ceil_op, pow_op, mod_op, sin_op, arcsin_op,
  cos_op, arccos_op, tan_op, arctan_op, random_op, and_op, or_op, not_op, eq_op, gt_op, lt_op,
  ge_op, le_op, Mutate,
}
use bento_box.Proto.UserValue.{
  Kind, Scalar, bool_of, numeric, kind_of, same_kind, type_in_types, set_val,
}
use bento_box.Proto.Dispatch.Typed.{scalar_of}
use bento_box.Machine.{Machine}
use bento_box.Machine.Arith
use bento_box.Machine.Functions
use bento_box.Component.UserComponent.Assignment.{of_schema}
use bento_box.World.Table.{Row, Table, with_row}
use bento_box.Interp.Operations.{integers, reals, uniform, boolean_value}

pub record Ground : Type 0 where
  pub rows : Table
  pub draws : ℕ

-- Two scalars that `==` is defined on.
abbrev pub comparable : Scalar → Scalar → Bool
comparable a b =
    (type_in_types (kind_of a) numeric && type_in_types (kind_of b) numeric)
    || same_kind (kind_of a) (kind_of b)

-- A result under its own type.
abbrev pub valued : Result Scalar → Result Value
valued r = map_result (set_val default_value) r

-- An operation on scalars of the types in a list.
abbrev pub typed1 : List Kind → (Scalar → Result Scalar) → Option Scalar → Result Value
typed1 ks f none = err invalid_value
typed1 ks f (some a) = if type_in_types (kind_of a) ks then valued (f a) else err invalid_value

abbrev pub typed2 :
    List Kind → (Scalar → Scalar → Result Scalar) → Option Scalar → Option Scalar → Result Value
typed2 ks f (some a) (some b) =
    if type_in_types (kind_of a) ks && type_in_types (kind_of b) ks
    then valued (f a b)
    else err invalid_value
typed2 ks f a b = err invalid_value

abbrev pub truth : Option Scalar → Option Bool
truth (some (bool_of b)) = some b
truth a = none

abbrev pub logic1 : Error → (Bool → Bool) → Option Bool → Result Value
logic1 e f none = err e
logic1 e f (some p) = ok (boolean_value (f p))

abbrev pub logic2 : Error → (Bool → Bool → Bool) → Option Bool → Option Bool → Result Value
logic2 e f (some p) (some q) = ok (boolean_value (f p q))
logic2 e f p q = err e

abbrev pub branch : Option Bool → Exec Ground Value → Exec Ground Value → Exec Ground Value
branch none f t = raise not_boolean
branch (some p) f t = if p then t else f

unfoldable pub read : AttributeRef → Exec Ground Value
read ref = asks λ g.
    then_result (g.rows ref.component ref.entity_id)
      λ row. or_raise unset_value (row.attributes ref.attribute)

-- The row with `v` under `name`.
abbrev pub with_attribute : String → Value → Row → Row
with_attribute name v row = record row {
  attributes = λ j. if str_eq name j then some v else row.attributes j;
}

abbrev pub put_row : AttributeRef → Result Row → Exec Ground (Unit {0})
put_row ref (ok row) g = (ok tt, record g { rows = with_row ref row g.rows })
put_row ref (err e) g = (err e, g)
put_row ref undefined g = (undefined, g)

module _ (m : Machine) where
  abbrev pub equal : Option Scalar → Option Scalar → Result Value
  equal none b = err no_equivalence
  equal (some a) none = err invalid_value
  equal (some a) (some b) = if comparable a b then valued (Arith.eq m a b) else err invalid_value

  -- A draw between bounds of real types takes the next random number.
  abbrev pub drawn : Option Scalar → Option Scalar → Exec Ground Value
  drawn (some a) (some b) g =
      if type_in_types (kind_of a) reals && type_in_types (kind_of b) reals
      then (valued (uniform m g.draws a b), record g { draws = suc g.draws })
      else (err invalid_value, g)
  drawn a b g = (err invalid_value, g)

  unfoldable pub unary :
      List Kind → (Scalar → Result Scalar) → Exec Ground Value → Exec Ground Value
  unfolding ◌>>=◌
  unary ks f x = do a ← x; lift (typed1 ks f (scalar_of a))

  unfoldable pub binary :
      List Kind
      → (Scalar → Scalar → Result Scalar)
      → Exec Ground Value
      → Exec Ground Value
      → Exec Ground Value
  unfolding ◌>>=◌
  binary ks f x y = do a ← x; b ← y; lift (typed2 ks f (scalar_of a) (scalar_of b))

  unfoldable pub logical :
      Error → (Bool → Bool → Bool) → Exec Ground Value → Exec Ground Value → Exec Ground Value
  unfolding ◌>>=◌
  logical e f x y = do a ← x; b ← y; lift (logic2 e f (truth (scalar_of a)) (truth (scalar_of b)))

  unfoldable pub negated : Exec Ground Value → Exec Ground Value
  unfolding ◌>>=◌
  negated x = do a ← x; lift (logic1 not_operand not (truth (scalar_of a)))

  unfoldable pub switched :
      Exec Ground Value → Exec Ground Value → Exec Ground Value → Exec Ground Value
  unfolding ◌>>=◌
  switched c f t = do p ← c; branch (truth (scalar_of p)) f t

  unfoldable pub equated : Exec Ground Value → Exec Ground Value → Exec Ground Value
  unfolding ◌>>=◌
  equated x y = do a ← x; b ← y; lift (equal (scalar_of a) (scalar_of b))

  unfoldable pub randomized : Exec Ground Value → Exec Ground Value → Exec Ground Value
  unfolding ◌>>=◌
  randomized x y = do a ← x; b ← y; drawn (scalar_of a) (scalar_of b)

  unfoldable pub meaning : Node → Exec Ground Value
  unfolding read
  meaning (const_op v) = pure v
  meaning (retrieve_op ref) = read ref
  meaning (mutate_op n ref) = raise mutating_node
  meaning (switch_op c f t) = switched (meaning c) (meaning f) (meaning t)
  meaning (add_op x y) = binary numeric (Arith.plus m) (meaning x) (meaning y)
  meaning (sub_op x y) = binary numeric (Arith.minus m) (meaning x) (meaning y)
  meaning (mul_op x y) = binary numeric (Arith.times m) (meaning x) (meaning y)
  meaning (div_op x y) = binary numeric (Arith.divide m) (meaning x) (meaning y)
  meaning (max_op x y) = binary numeric (Arith.maximum m) (meaning x) (meaning y)
  meaning (min_op x y) = binary numeric (Arith.minimum m) (meaning x) (meaning y)
  meaning (pow_op x y) = binary numeric (Functions.power m) (meaning x) (meaning y)
  meaning (mod_op x y) = binary integers (Arith.modulo m) (meaning x) (meaning y)
  meaning (gt_op x y) = binary numeric (Arith.gt m) (meaning x) (meaning y)
  meaning (lt_op x y) = binary numeric (Arith.lt m) (meaning x) (meaning y)
  meaning (ge_op x y) = binary numeric (Arith.ge m) (meaning x) (meaning y)
  meaning (le_op x y) = binary numeric (Arith.le m) (meaning x) (meaning y)
  meaning (abs_op x) = unary numeric (Functions.absolute m) (meaning x)
  meaning (floor_op x) = unary numeric (Functions.math m (λ f. f.floor)) (meaning x)
  meaning (ceil_op x) = unary numeric (Functions.math m (λ f. f.ceil)) (meaning x)
  meaning (sin_op x) = unary numeric (Functions.math m (λ f. f.sin)) (meaning x)
  meaning (arcsin_op x) = unary numeric (Functions.arc_sine m) (meaning x)
  meaning (cos_op x) = unary numeric (Functions.math m (λ f. f.cos)) (meaning x)
  meaning (arccos_op x) = unary numeric (Functions.arc_cosine m) (meaning x)
  meaning (tan_op x) = unary numeric (Functions.math m (λ f. f.tan)) (meaning x)
  meaning (arctan_op x) = unary numeric (Functions.math m (λ f. f.atan)) (meaning x)
  meaning (random_op x y) = randomized (meaning x) (meaning y)
  meaning (and_op x y) = logical and_operands (λ p q. p && q) (meaning x) (meaning y)
  meaning (or_op x y) = logical or_operands (λ p q. p || q) (meaning x) (meaning y)
  meaning (not_op x) = negated (meaning x)
  meaning (eq_op x y) = equated (meaning x) (meaning y)
  meaning op_not_set = raise unknown_op

  -- The row in which `ref` leads to an attribute, once the attribute took the value.
  abbrev pub assigned_row : AttributeRef → Value → Result Row → Result Row
  assigned_row ref v r = then_result r λ row.
      map_result (λ w. with_attribute ref.attribute w row)
        (of_schema m (lookup ref.attribute row.schema) v)

  unfoldable pub assign : AttributeRef → Value → Exec Ground (Unit {0})
  assign ref v g = put_row ref (assigned_row ref v (g.rows ref.component ref.entity_id)) g

  unfoldable pub mutation : Mutate → Exec Ground (Unit {0})
  unfolding ◌>>=◌ meaning assign
  mutation output = do v ← meaning output.to_node; assign output.mutate_attr v

  unfoldable pub run : List Mutate → Exec Ground (Unit {0})
  unfolding ◌>>=◌ mutation
  run [] = pure tt
  run (output ∷ rest) = do mutation output; run rest
