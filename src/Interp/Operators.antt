-- ===== src/Interp/Operators.antt =====
-- Each operation that computes against its meaning: over operands that agree, the code of
-- sim/src/interpreter/operations.cpp and the reference of Interp/Meaning give the same result.
use bento_box.Base.{
  ◌≡◌, refl, ◌∙◌, ap, Bool, true, false, not, ◌&&◌, ◌||◌, List, [], ◌∷◌, Option, none, some,
  if◌then◌else◌, arith,
}
use bento_box.Exec.{
  Exec, Error, Result, not_boolean, and_operands, or_operands, not_operand, pure, raise, lift,
  ◌>>=◌,
}
use bento_box.Exec.Matches.{Matches, Matches-bind, Matches-if, Matches-raise, Matches-pure}
use bento_box.Proto.Value.{
  Value, ValueKind, ValuePrimitive, primitive, of_primitive, kind_not_set, of_array, boolean,
  primitive_of,
}
use bento_box.Proto.UserValue.{
  Kind, bool_kind, str_kind, numeric, Scalar, get_boolean, is_val_of_type, is_val_of_types, kind_of,
  type_in_types, int32_of, int64_of, float32_of, float64_of, str_of, bool_of, is_primitive_of_type,
}
use bento_box.Proto.Dispatch.{run_fn_with_val, run_fn_with_vals}
use bento_box.Proto.Dispatch.Typed.{
  scalar_of, scalar_in, allows, is_val_of_types_at, run_typed, run_both, run_fn_with_val-run_typed,
  run_fn_with_vals-run_both,
}
use bento_box.Machine.{Machine}
use bento_box.Machine.Arith
use bento_box.World.{World}
use bento_box.Interp.Agreement.{Agrees}
use bento_box.Interp.Operations as Op
use bento_box.Interp.Meaning
use bento_box.Interp.Meaning.{Ground, typed1, typed2, valued, branch, truth, logic1, logic2, equal}

lifted1 :
    (ks : List Kind) (v : Value) (f : Scalar → Result Scalar) (w : World)
    → run_fn_with_val ks v (λ x. lift (f x)) w ≡ (typed1 ks f (scalar_of v), w)
unfolding run_typed ◌>>=◌
lifted1 ks v f w = run_fn_with_val-run_typed ks v (λ x. lift (f x)) w ∙ closed (scalar_of v)
  where
    closed : (a : Option Scalar) → run_typed ks a (λ x. lift (f x)) w ≡ (typed1 ks f a, w)
    closed none = refl
    closed (some a) = ground arith

lifted2 :
    (ks : List Kind) (x y : Value) (f : Scalar → Scalar → Result Scalar) (w : World)
    → run_fn_with_vals ks x y (λ a b. lift (f a b)) w ≡ (typed2 ks f (scalar_of x) (scalar_of y), w)
unfolding run_both ◌>>=◌
lifted2 ks x y f w =
    run_fn_with_vals-run_both ks x y (λ a b. lift (f a b)) w ∙ closed (scalar_of x) (scalar_of y)
  where
    closed : (a b : Option Scalar) → run_both ks a b (λ a b. lift (f a b)) w ≡ (typed2 ks f a b, w)
    closed none b = refl
    closed (some a) none = refl
    closed (some a) (some b) = ground arith

pub unary-Matches :
    (m : Machine) (ks : List Kind) (f : Scalar → Result Scalar) (x : Exec World Value)
    (x' : Exec Ground Value)
    → Matches Agrees x x'
    → Matches Agrees (Op.unary ks (λ a. lift (f a)) x) (Meaning.unary m ks f x')
unfolding Op.unary Meaning.unary lift
unary-Matches m ks f x x' h =
    Matches-bind x x' _ _ h λ v. record { at = λ w g k. rw (lifted1 ks v f w) (refl, k) }

pub binary-Matches :
    (m : Machine) (ks : List Kind) (f : Scalar → Scalar → Result Scalar) (x y : Exec World Value)
    (x' y' : Exec Ground Value)
    → Matches Agrees x x'
    → Matches Agrees y y'
    → Matches Agrees (Op.binary ks (λ a b. lift (f a b)) x y) (Meaning.binary m ks f x' y')
unfolding Op.binary Meaning.binary lift
binary-Matches m ks f x y x' y' h k =
    Matches-bind x x' _ _ h
      λ v. Matches-bind y y' _ _ k λ v'. record { at = λ w g a. rw (lifted2 ks v v' f w) (refl, a) }

pub switch_Matches :
    (m : Machine) (c f t : Exec World Value) (c' f' t' : Exec Ground Value)
    → Matches Agrees c c'
    → Matches Agrees f f'
    → Matches Agrees t t'
    → Matches Agrees (Op.switch_op c f t) (Meaning.switched m c' f' t')
unfolding Op.switch_op Meaning.switched raise lift pure
switch_Matches m c f t c' f' t' h k l = Matches-bind c c' _ _ h λ v. chosen v.kind
  where
    chosen :
        (k : ValueKind)
        → Matches Agrees
            (if not (Op.is_boolean k)
              then raise not_boolean
              else if get_boolean (primitive_of k)
              then t
              else f)
            (branch (truth (scalar_in (primitive_of k))) f' t')
    chosen kind_not_set = Matches-raise _
    chosen (of_array ps) = Matches-raise _
    chosen (of_primitive (boolean b)) = Matches-if b t f t' f' l k
    chosen (of_primitive p) = Matches-raise _

-- The Boolean that the tests of the operations find in a value.
truth_lem :
    (v : Value)
    → truth (scalar_of v)
      ≡ (if is_val_of_type bool_kind v then some (get_boolean (primitive v)) else none)
unfolding is_val_of_type
truth_lem v = at_primitive (primitive v)
  where
    at_primitive :
        (p : ValuePrimitive)
        → truth (scalar_in p)
          ≡ (if is_primitive_of_type bool_kind p then some (get_boolean p) else none)
    at_primitive (boolean b) = refl
    at_primitive p = refl

connected_Matches :
    (e : Error) (f : Bool → Bool → Bool) (p q a b : Bool)
    → Matches Agrees
        (if not p || not q then raise e else pure (Op.boolean_value (f a b)))
        (lift (logic2 e f (if p then some a else none) (if q then some b else none)))
unfolding raise lift pure
connected_Matches e f true true a b = Matches-pure _
connected_Matches e f true false a b = Matches-raise e
connected_Matches e f false q a b = Matches-raise e

negated_Matches :
    (p a : Bool)
    → Matches Agrees
        (if not p then raise not_operand else pure (Op.boolean_value (not a)))
        (lift (logic1 not_operand not (if p then some a else none)))
unfolding raise lift pure
negated_Matches true a = Matches-pure _
negated_Matches false a = Matches-raise _

pub logical-Matches :
    (m : Machine) (x y : Exec World Value) (x' y' : Exec Ground Value)
    → Matches Agrees x x'
    → Matches Agrees y y'
    → Matches Agrees (Op.and_op x y) (Meaning.logical m and_operands (λ p q. p && q) x' y')
      × Matches Agrees (Op.or_op x y) (Meaning.logical m or_operands (λ p q. p || q) x' y')
      × Matches Agrees (Op.not_op x) (Meaning.negated m x')
unfolding Op.and_op Op.or_op Op.not_op Meaning.logical Meaning.negated
logical-Matches m x y x' y' h k = (
  Matches-bind x x' _ _ h λ a. Matches-bind y y' _ _ k λ b.
      rw (truth_lem a, truth_lem b)
        (connected_Matches _ _ (is_val_of_type bool_kind a) (is_val_of_type bool_kind b) _ _),
  Matches-bind x x' _ _ h λ a. Matches-bind y y' _ _ k λ b.
      rw (truth_lem a, truth_lem b)
        (connected_Matches _ _ (is_val_of_type bool_kind a) (is_val_of_type bool_kind b) _ _),
  Matches-bind x x' _ _ h λ a. rw (truth_lem a) (negated_Matches (is_val_of_type bool_kind a) _),
)

is_val_of_type_at : (k : Kind) (v : Value) → is_val_of_type k v ≡ allows (k ∷ []) (scalar_of v)
unfolding is_val_of_types
is_val_of_type_at k v = ground (arith, is_val_of_types_at (k ∷ []) v (primitive v) refl)

-- The types that `eqOp` runs on, by the type of the first value.
abbrev eq_types : Scalar → List Kind
eq_types (str_of s) = str_kind ∷ []
eq_types (bool_of b) = bool_kind ∷ []
eq_types a = numeric

equal_closed :
    (m : Machine) (a : Scalar) (b : Option Scalar)
    → typed2 (eq_types a) (Arith.eq m) (some a) b ≡ equal m (some a) b
unfolding kind_of type_in_types
equal_closed m (str_of s) (some (str_of t)) = refl
equal_closed m (bool_of s) (some (bool_of t)) = refl
equal_closed m (int32_of s) (some (int32_of t)) = refl
equal_closed m (int64_of s) (some (int32_of t)) = refl
equal_closed m (float32_of s) (some (int32_of t)) = refl
equal_closed m (float64_of s) (some (int32_of t)) = refl
equal_closed m a none = refl
equal_closed m a (some b) = refl

-- Equality, at the type that the first value holds.
eq_at :
    (m : Machine) (x y : Value) (w : World) (a : Option Scalar)
    → scalar_of x ≡ a
    → Op.equate m x y w ≡ (equal m a (scalar_of y), w)
unfolding raise kind_of type_in_types
eq_at m x y w none e =
    rw
      (
        is_val_of_types_at numeric x (primitive x) refl,
        is_val_of_type_at str_kind x,
        is_val_of_type_at bool_kind x,
        e,
      )
      refl
eq_at m x y w (some (str_of s)) e =
    rw
      (
        is_val_of_types_at numeric x (primitive x) refl,
        is_val_of_type_at str_kind x,
        e,
        lifted2 (str_kind ∷ []) x y (Arith.eq m) w,
        e,
      )
      (ap (λ r. (r, w)) (equal_closed m (str_of s) (scalar_of y)))
eq_at m x y w (some (bool_of s)) e =
    rw
      (
        is_val_of_types_at numeric x (primitive x) refl,
        is_val_of_type_at str_kind x,
        is_val_of_type_at bool_kind x,
        e,
        lifted2 (bool_kind ∷ []) x y (Arith.eq m) w,
        e,
      )
      (ap (λ r. (r, w)) (equal_closed m (bool_of s) (scalar_of y)))
eq_at m x y w (some (int32_of s)) e =
    rw (is_val_of_types_at numeric x (primitive x) refl, e, lifted2 numeric x y (Arith.eq m) w, e)
      (ap (λ r. (r, w)) (equal_closed m (int32_of s) (scalar_of y)))
eq_at m x y w (some a) e =
    rw (is_val_of_types_at numeric x (primitive x) refl, e, lifted2 numeric x y (Arith.eq m) w, e)
      (ap (λ r. (r, w)) (equal_closed m a (scalar_of y)))

pub eq_Matches :
    (m : Machine) (x y : Exec World Value) (x' y' : Exec Ground Value)
    → Matches Agrees x x'
    → Matches Agrees y y'
    → Matches Agrees (Op.eq_op m x y) (Meaning.equated m x' y')
unfolding Op.eq_op Meaning.equated lift
eq_Matches m x y x' y' h k = Matches-bind x x' _ _ h λ a.
    Matches-bind y y' _ _ k
      λ b. record { at = λ w g r. rw (eq_at m a b w (scalar_of a) refl) (refl, r) }
