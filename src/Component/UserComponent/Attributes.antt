-- ===== src/Component/UserComponent/Attributes.antt =====
-- The attributes of a component, as code outside of it can tell: an entry that was made by a failed
-- read or write and never set is not visible.
use bento_box.Base.{
  ◌≡◌, refl, true, String, Option, none, some, if◌then◌else◌, arith, str_eq, str_eq_iff,
}
use bento_box.Base.Classes.{string_eq}
use bento_box.Exec.{or_raise, unset_value, ◌>>=◌}
use bento_box.Std.Map.{lookup}
use bento_box.Std.Map.Laws.{lookup-insert, lookup-put, contains-eq-is_some}
use bento_box.Proto.Value.{Value, default_value}
use bento_box.Component.UserComponent.{UserComponent, is_set, touch, get_mutable_value, assign}

abbrev pub set_only : Option Value → Option Value
set_only none = none
set_only (some v) = if is_set v then some v else none

-- What reading an attribute finds.
abbrev pub attribute : UserComponent → String → Option Value
attribute c name = set_only (lookup name c.values)

-- `c` and `d` differ at most in entries that were never set.
pub record SameAttributes (c d : UserComponent) : Type 0 where
  pub active : c.is_active ≡ d.is_active
  pub name : c.type_name ≡ d.type_name
  pub def : c.comp_def ≡ d.comp_def
  pub same : (name : String) → attribute c name ≡ attribute d name

pub attribute-touch :
    (c : UserComponent) (name j : String) → attribute (touch name c) j ≡ attribute c j
unfolding touch
attribute-touch c name j = ground (
  arith,
  lookup-insert name j default_value c.values,
  contains-eq-is_some name c.values,
  str_eq_iff name j,
)

touch-SameAttributes : (c : UserComponent) (name : String) → SameAttributes (touch name c) c
unfolding touch
touch-SameAttributes c name = record {
  active = refl;
  name = refl;
  def = refl;
  same = λ j. attribute-touch c name j;
}

get_mutable_value-touch :
    (name : String) (c : UserComponent)
    → ((get_mutable_value name c).0 ≡ or_raise unset_value (attribute c name))
      × ((get_mutable_value name c).1 ≡ touch name c)
unfolding get_mutable_value ◌>>=◌
get_mutable_value-touch name c = (
  ground (
    arith,
    lookup-insert name name default_value c.values,
    contains-eq-is_some name c.values,
    str_eq_iff name name,
  ),
  ground arith,
)

-- Reading an attribute gives its value, or raises where it was never set; either way no attribute
-- changes.
pub get_mutable_value_lem :
    (name : String) (c : UserComponent)
    → ((get_mutable_value name c).0 ≡ or_raise unset_value (attribute c name))
      × SameAttributes (get_mutable_value name c).1 c
get_mutable_value_lem name c =
    let (r, s) = get_mutable_value-touch name c in (r, rw s (touch-SameAttributes c name))

pub attribute-assign :
    (c : UserComponent) (name j : String) (v : Value)
    → is_set v ≡ true
    → attribute (assign name v c) j ≡ (if str_eq name j then some v else attribute c j)
unfolding assign
attribute-assign c name j v h = ground (arith, lookup-put name j v c.values)
