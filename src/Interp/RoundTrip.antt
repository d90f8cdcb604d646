-- ===== src/Interp/RoundTrip.antt =====
-- What `retrieveOp` reads after `mutateOp`.
use bento_box.Base.{◌≡◌, ◌∙◌, some, if◌then◌else◌, arith, ap}
use bento_box.Base.Classes.{string_eq, nat_eq, pair_eq, pair_beq}
use bento_box.Exec.{Exec, Result, ok, or_raise, unset_value, map_result, ◌>>=◌}
use bento_box.Core.ComponentStore.{CompStoreId}
use bento_box.Core.ComponentStore.Listing.{store_view}
use bento_box.Proto.Value.{Value}
use bento_box.Proto.Messages.{AttributeRef}
use bento_box.Machine.{Machine}
use bento_box.Component.UserComponent.{UserComponent, user_component, get_mutable_value, set_value}
use bento_box.Component.UserComponent.Attributes.{attribute, SameAttributes, get_mutable_value_lem}
use bento_box.Component.UserComponent.Assignment.{assigned}
use bento_box.Component.UserComponent.Setting.{attribute_after, Stores, set_value-Stores}
use bento_box.World.{World, on_component}
use bento_box.World.Attributes.{
  IsDenseWorld, Names, Replaces, RunsOn, on_component-RunsOn, locate-Replaces,
}
use bento_box.Interp.Operations.{retrieve_op, mutate_op}

abbrev pub named_after : CompStoreId → CompStoreId → UserComponent → UserComponent → UserComponent
named_after id j comp c = if pair_beq id j then comp else c

pub Names-Replaces :
    (w v : World) (id j : CompStoreId) (old comp c : UserComponent) (ref : AttributeRef)
    → IsDenseWorld w
    → store_view w.comp_store id ≡ some old
    → Replaces w id comp v
    → Names w ref j c
    → Names v ref j (named_after id j comp c)
Names-Replaces w v id j old comp c ref d h r n = record {
  located = locate-Replaces w v id comp ref.component ref.entity_id r ∙ n.located;
  found = ground (arith, r.reads j, n.found);
}

-- `retrieveOp` reads the attribute of the component that the reference names, and changes none.
pub record Retrieves (ref : AttributeRef) (w : World) (id : CompStoreId) (comp : UserComponent)
    : Type 0 where
  pub result : (retrieve_op ref w).0 ≡ or_raise unset_value (attribute comp ref.attribute)
  pub after : UserComponent
  pub replaces : Replaces w id after (retrieve_op ref w).1
  pub same : SameAttributes after comp

pub retrieve_op-Retrieves :
    (ref : AttributeRef) (w : World) (id : CompStoreId) (comp : UserComponent)
    → IsDenseWorld w
    → Names w ref id comp
    → Retrieves ref w id comp
unfolding retrieve_op ◌>>=◌
retrieve_op-Retrieves ref w id comp d n =
    let g = get_mutable_value_lem ref.attribute comp in
    let r : RunsOn w id (get_mutable_value ref.attribute comp).0
        (get_mutable_value ref.attribute comp).1
        (on_component id (get_mutable_value ref.attribute) w) =
      on_component-RunsOn w id (get_mutable_value ref.attribute) comp d n.found g.1.active in
    record {
      result = rw n.located (r.result ∙ g.0);
      after = (get_mutable_value ref.attribute comp).1;
      replaces = rw n.located r.replaces;
      same = g.1;
    }

module _ (m : Machine) where
  -- What a mutation that assigns `v` to the attribute that `ref` names does.
  pub record Mutates (ref : AttributeRef) (v : Value) (w : World) (id : CompStoreId)
      (comp : UserComponent) (run : Result (Unit {0}) × World) : Type 0 where
    pub result : run.0 ≡ map_result (λ _. tt) (assigned m comp ref.attribute v)
    pub after : UserComponent
    pub replaces : Replaces w id after run.1
    pub stores : Stores ref.attribute (assigned m comp ref.attribute v) comp (run.0, after)

  pub mutate_op-Mutates :
      (node : Exec World Value) (ref : AttributeRef) (w w' : World) (v : Value) (id : CompStoreId)
      (comp : UserComponent)
      → node w ≡ (ok v, w')
      → IsDenseWorld w'
      → Names w' ref id comp
      → Mutates ref v w' id comp (mutate_op m node ref w)
  unfolding mutate_op ◌>>=◌
  mutate_op-Mutates node ref w w' v id comp e d n =
      let s = set_value-Stores m ref.attribute v comp in
      let r : RunsOn w' id (set_value m ref.attribute v comp).0 (set_value m ref.attribute v comp).1
          (on_component id (set_value m ref.attribute v) w') =
        on_component-RunsOn w' id (set_value m ref.attribute v) comp d n.found s.active in
      rw (e, n.located)
        (record {
          result = r.result ∙ s.result;
          after = (set_value m ref.attribute v comp).1;
          replaces = r.replaces;
          stores = record {
            result = r.result ∙ s.result;
            active = s.active;
            type_name = s.type_name;
            def = s.def;
            attributes = s.attributes;
          };
        })

  -- Where the node evaluates to a value, in a store from which nothing was removed, mutateOp stores
  -- what its specification gives of that value in the attribute that the reference names, or raises
  -- its exception. Afterwards retrieveOp, through any reference that led to a component, reads that
  -- attribute as it now is and every other one as it was before.
  pub mutate_op-retrieve_op :
      (node : Exec World Value) (ref other : AttributeRef) (w w' : World) (v : Value)
      (id j : CompStoreId) (comp c : UserComponent)
      → node w ≡ (ok v, w')
      → IsDenseWorld w'
      → Names w' ref id comp
      → Names w' other j c
      → ((mutate_op m node ref w).0 ≡ map_result (λ _. tt) (assigned m comp ref.attribute v))
        × ((retrieve_op other (mutate_op m node ref w).1).0
            ≡ or_raise unset_value (
                if pair_beq id j
                then attribute_after ref.attribute
                    (assigned m comp ref.attribute v)
                    comp
                    other.attribute
                else attribute c other.attribute))
  mutate_op-retrieve_op node ref other w w' v id j comp c e d n o =
      let u = mutate_op-Mutates node ref w w' v id comp e d n in
      let o' =
        Names-Replaces w' (mutate_op m node ref w).1 id j comp u.after c other d n.found u.replaces
          o in
      let r =
        retrieve_op-Retrieves other (mutate_op m node ref w).1 j (named_after id j u.after c)
          u.replaces.dense o' in
      (
        u.result,
        r.result ∙ ap (or_raise unset_value) (ground (arith, u.stores.attributes other.attribute)),
      )
