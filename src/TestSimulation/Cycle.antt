-- ===== src/TestSimulation/Cycle.antt =====
-- The system of the test simulation counts to 101 and starts again.
use bento_box.Base.{
  ℕ, ◌+◌, ◌≤◌, ◌≡◌, ◌∙◌, refl, Bool, String, some, if◌then◌else◌, arith, ltb, str_eq_iff,
  Bool-cases, inl, inr, ap,
}
use bento_box.Base.Int.{pos}
use bento_box.Base.Classes.{string_eq, nat_eq, pair_eq, pair_beq_iff}
use bento_box.Exec.{Result, ok, or_raise, unset_value, lift, map_result, ◌>>=◌}
use bento_box.Std.Map.{lookup}
use bento_box.Core.ComponentStore.{CompStoreId}
use bento_box.Proto.Value.{TypePrimitive, primitive_type, Value, of_primitive, boolean}
use bento_box.Proto.Messages.{AttributeRef}
use bento_box.Proto.UserValue.{numeric, set_val, kind_of, type_in_types}
use bento_box.Proto.Dispatch.{run_fn_with_vals}
use bento_box.Proto.Dispatch.Typed.{run_both, run_fn_with_vals-run_both}
use bento_box.Machine.{Machine, cast}
use bento_box.Machine.Arith
use bento_box.Component.UserComponent.{UserComponent}
use bento_box.Component.UserComponent.Attributes.{attribute}
use bento_box.World.{World}
use bento_box.World.Attributes.{IsDenseWorld, Names, Replaces}
use bento_box.Interp.Operations as Op
use bento_box.Interp.Operations.{retrieve_op, mutate_op, switch_op, gt_op, add_op}
use bento_box.Interp.Evaluate.{evaluate_node, mutate, run_graph}
use bento_box.Component.UserComponent.Assignment.{assigned}
use bento_box.Interp.RoundTrip.{
  named_after, Names-Replaces, retrieve_op-Retrieves, mutate_op-Mutates,
}
use bento_box.TestSimulation.{int64_value, next_height, cycle100_system}

abbrev bool_value : Bool → Value
bool_value b = record {
  data_type = some (primitive_type TypePrimitive.bool);
  kind = of_primitive (boolean b);
}

module _ (m : Machine) where
  gt_lem :
      (k : ℕ) (w : World)
      → run_fn_with_vals numeric
          (int64_value (pos k))
          (int64_value (pos 100))
          (λ x y. lift (Arith.gt m x y))
          w
        ≡ (ok (bool_value (ltb 100 k)), w)
  unfolding run_both Arith.gt ◌>>=◌ set_val kind_of type_in_types
  gt_lem k w =
      run_fn_with_vals-run_both numeric (int64_value (pos k)) (int64_value (pos 100))
        (λ x y. lift (Arith.gt m x y)) w
      ∙ ground arith

  plus_lem :
      (k : ℕ) (w : World)
      → k ≤ 100
      → run_fn_with_vals numeric
          (int64_value (pos k))
          (int64_value (pos 1))
          (λ x y. lift (Arith.plus m x y))
          w
        ≡ (ok (int64_value (pos (k + 1))), w)
  unfolding run_both Arith.plus ◌>>=◌ set_val kind_of type_in_types
  plus_lem k w small =
      run_fn_with_vals-run_both numeric (int64_value (pos k)) (int64_value (pos 1))
        (λ x y. lift (Arith.plus m x y)) w
      ∙ ground arith

-- The attribute that `ref` names is an int64 and holds `k`.
pub record Counts (ref : AttributeRef) (k : ℕ) (w : World) : Type 0 where
  pub id : CompStoreId
  pub comp : UserComponent
  pub dense : IsDenseWorld w
  pub names : Names w ref id comp
  pub value : attribute comp ref.attribute ≡ some (int64_value (pos k))
  pub typed : lookup ref.attribute comp.comp_def.schema ≡ some (primitive_type TypePrimitive.int64)

-- The count after one step.
abbrev pub next : ℕ → ℕ
next k = if ltb 100 k then 0 else k + 1

named_self : (id : CompStoreId) (after comp : UserComponent) → named_after id id after comp ≡ after
named_self id after comp = ground (arith, pair_beq_iff id id)

kept_lem :
    (ref : AttributeRef) (k : ℕ) (w v : World) (id : CompStoreId) (comp after : UserComponent)
    → IsDenseWorld w
    → Names w ref id comp
    → Replaces w id after v
    → attribute after ref.attribute ≡ some (int64_value (pos k))
    → lookup ref.attribute after.comp_def.schema ≡ some (primitive_type TypePrimitive.int64)
    → Counts ref k v
kept_lem ref k w v id comp after d n r e t = record {
  id = id;
  comp = after;
  dense = r.dense;
  names =
      rw (← named_self id after comp) (Names-Replaces w v id id comp after comp ref d n.found r n);
  value = e;
  typed = t;
}

-- Code that returns `a` and leaves the count at `k`.
abbrev pub Gives : {A : Type 0} → AttributeRef → ℕ → A → Result A × World → Type 0
Gives ref k a run = (run.0 ≡ ok a) × Counts ref k run.1

pub retrieve_op-Counts :
    (ref : AttributeRef) (k : ℕ) (w : World)
    → Counts ref k w
    → Gives ref k (int64_value (pos k)) (retrieve_op ref w)
retrieve_op-Counts ref k w c =
    let r = retrieve_op-Retrieves ref w c.id c.comp c.dense c.names in
    (
      r.result ∙ ap (or_raise unset_value) c.value,
      kept_lem ref k w (retrieve_op ref w).1 c.id c.comp r.after c.dense c.names r.replaces
          (r.same.same ref.attribute ∙ c.value)
          (ap (λ def. lookup ref.attribute def.schema) r.same.def ∙ c.typed),
    )

module _ (m : Machine) where
  condition_lem :
      (ref : AttributeRef) (k : ℕ) (w : World)
      → Counts ref k w
      → Gives ref k
          (bool_value (ltb 100 k))
          (gt_op m (Op.retrieve_op ref) (Op.const_op (int64_value (pos 100))) w)
  unfolding gt_op Op.binary ◌>>=◌ Op.const_op
  condition_lem ref k w c =
      let (r, d) = retrieve_op-Counts ref k w c in
      rw (r, gt_lem m k (Op.retrieve_op ref w).1) (refl, d)

  increment_lem :
      (ref : AttributeRef) (k : ℕ) (w : World)
      → k ≤ 100
      → Counts ref k w
      → Gives ref k
          (int64_value (pos (k + 1)))
          (add_op m (Op.retrieve_op ref) (Op.const_op (int64_value (pos 1))) w)
  unfolding add_op Op.binary ◌>>=◌ Op.const_op
  increment_lem ref k w small c =
      let (r, d) = retrieve_op-Counts ref k w c in
      rw (r, plus_lem m k (Op.retrieve_op ref w).1 small) (refl, d)

  switch_lem :
      (ref : AttributeRef) (k : ℕ) (w : World)
      → Counts ref k w
      → Gives ref k (int64_value (pos (next k))) (evaluate_node m (next_height ref) w)
  unfolding evaluate_node next_height switch_op ◌>>=◌ Op.const_op
  switch_lem ref k w c =
      let (r, d) = condition_lem ref k w c in
      let w' = (gt_op m (Op.retrieve_op ref) (Op.const_op (int64_value (pos 100))) w).1 in
      elim (Bool-cases (ltb 100 k)) [
        | inl high ↦ rw (r, high) (refl, d)
        | inr low ↦ rw (r, low) (increment_lem ref k w' (ground arith) d)
      ]

  -- What `setValue` stores: the new count.
  assigned_lem :
      (c : UserComponent) (name : String) (k : ℕ)
      → lookup name c.comp_def.schema ≡ some (primitive_type TypePrimitive.int64)
      → assigned m c name (int64_value (pos k)) ≡ ok (int64_value (pos k))
  unfolding kind_of set_val cast
  assigned_lem c name k t = rw t refl

  mutate_lem :
      (ref : AttributeRef) (k : ℕ) (w : World)
      → Counts ref k w
      → Gives ref (next k) tt (mutate_op m (evaluate_node m (next_height ref)) ref w)
  mutate_lem ref k w c =
      let (r, d) = switch_lem ref k w c in
      let w' = (evaluate_node m (next_height ref) w).1 in
      let a = assigned_lem d.comp ref.attribute (next k) d.typed in
      let u =
        mutate_op-Mutates m (evaluate_node m (next_height ref)) ref w w'
          (int64_value (pos (next k))) d.id d.comp (ground arith) d.dense d.names in
      (
        u.result ∙ ap (map_result (λ _. tt)) a,
        kept_lem ref (next k) w' (mutate_op m (evaluate_node m (next_height ref)) ref w).1 d.id
            d.comp u.after d.dense d.names u.replaces
            (ground
              (arith, u.stores.attributes ref.attribute, a, str_eq_iff ref.attribute ref.attribute))
            (ap (λ def. lookup ref.attribute def.schema) u.stores.def ∙ d.typed),
      )

  -- One run of the system counts once.
  pub run_graph-Counts :
      (ref : AttributeRef) (k : ℕ) (w : World)
      → Counts ref k w
      → Gives ref (next k) tt (run_graph m (cycle100_system ref).graph w)
  unfolding run_graph mutate cycle100_system ◌>>=◌
  run_graph-Counts ref k w c = let (r, d) = mutate_lem ref k w c in rw r (refl, d)
