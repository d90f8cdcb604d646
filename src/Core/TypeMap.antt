-- ===== src/Core/TypeMap.antt =====
-- sim/lib/core/include/core/ics/util/typeMap.h: one value of each type. The types are those that
-- `typeid` tells apart.
use bento_box.Base.{◌≡◌, ◌⊎◌, Bool, true, false, Bool-cases, inl, inr}
use mathlib.Core.Path.{subst}
use bento_box.Base.Classes.{Key, ◌==◌}
use bento_box.Exec.{Result, ok, err, bad_any_cast, then_result}
use bento_box.Std.Map.{Map, contains, insert, at as map_find}

module _ {TypeInfo : Type 0} ⦃e : Key TypeInfo⦄ (Held : TypeInfo → Type 0) where
  -- `std::any`
  pub record AnyValue : Type 0 where
    pub type : TypeInfo
    pub value : Held type

  abbrev cast_if :
      (t : TypeInfo) (a : AnyValue)
      → ((a.type == t) ≡ true) ⊎ ((a.type == t) ≡ false)
      → Result (Held t)
  cast_if t a (inl same) = ok (subst Held ((e.same_iff a.type t).0 same) a.value)
  cast_if t a (inr other) = err bad_any_cast

  -- `std::any_cast<T&>`
  unfoldable pub any_cast : (t : TypeInfo) → AnyValue → Result (Held t)
  any_cast t a = cast_if t a (Bool-cases (a.type == t))

  unfoldable pub at : (t : TypeInfo) → Map TypeInfo AnyValue → Result (Held t)
  unfolding any_cast map_find
  at t m = then_result (map_find t m) (any_cast t)

  -- The conversion to `std::any` is a parameter: a `std::any` stays as it is, and an array decays.
  unfoldable pub insert_value :
      ((t : TypeInfo) → Held t → AnyValue)
      → (t : TypeInfo) → Held t
      → Map TypeInfo AnyValue
      → Map TypeInfo AnyValue
  unfolding insert
  insert_value boxed t value m = insert t (boxed t value) m

  unfoldable pub has : TypeInfo → Map TypeInfo AnyValue → Bool
  unfolding contains
  has t m = contains t m
