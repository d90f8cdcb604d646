-- ===== src/Exec.antt =====
-- Code that reads and writes a state, and that ends normally, by an exception, or outside of what
-- C++ defines. What was written before an exception stays written.
pub mod Keeps
pub mod Matches
use bento_box.Base.{Option, none, some, Bool, if◌then◌else◌}

-- One constructor for each throw site of the engine, and one for each of the containers' own.
pub data Error : Type 0 where
  -- `std::out_of_range` of `unordered_map::at` and of `vector::at`
  map_at vec_at : Error
  -- lib/core/include/core/ics/compVec.h
  inactive_component : Error
  -- src/ics.cpp
  many_components no_component : Error
  -- src/component/userComponent.cpp
  unset_value no_such_attribute missing_data_type data_mismatch schema_mismatch : Error
  -- include/proto/userValue.h
  array_deduction unhandled_type invalid_value no_value : Error
  -- src/interpreter
  mutating_node unknown_op not_boolean : Error
  arc_sin_domain arc_cos_domain and_operands or_operands not_operand no_equivalence : Error
  -- lib/core/src/graphicsContext.cpp and windowContext.cpp
  loader_failed texture_failed window_failed : Error
  -- `std::bad_any_cast` of lib/core/include/core/ics/util/typeMap.h
  bad_any_cast : Error
  -- src/network/grpcServer.cpp
  no_services server_not_started : Error

-- `undefined` is undefined behaviour: signed overflow, division by zero, a conversion from floating
-- point out of range. No handler sees it.
pub data Result {ℓ} (A : Type ℓ) : Type ℓ where
  ok : A → Result A
  err : Error → Result A
  undefined : Result A

abbrev pub or_raise {ℓ} : {A : Type ℓ} → Error → Option A → Result A
or_raise e none = err e
or_raise e (some a) = ok a

abbrev pub map_result {ℓ κ} : {A : Type ℓ} {B : Type κ} → (A → B) → Result A → Result B
map_result f (ok a) = ok (f a)
map_result f (err e) = err e
map_result f undefined = undefined

abbrev pub then_result {ℓ κ} : {A : Type ℓ} {B : Type κ} → Result A → (A → Result B) → Result B
then_result (ok a) f = f a
then_result (err e) f = err e
then_result undefined f = undefined

abbrev pub Exec : Type 0 → Type 0 → Type 0
Exec S A = S → Result A × S

module _ {S : Type 0} where
  -- a write to the state
  unfoldable pub modify : (S → S) → Exec S (Unit {0})
  modify f start = (ok tt, f start)

  -- a result read off the state, and a value read off it
  unfoldable pub asks : {A : Type 0} → (S → Result A) → Exec S A
  asks read start = (read start, start)

  unfoldable pub gets : {A : Type 0} → (S → A) → Exec S A
  gets read start = (ok (read start), start)

  -- code that leaves the state alone
  unfoldable pub lift : {A : Type 0} → Result A → Exec S A
  lift outcome start = (outcome, start)

  unfoldable pub raise : {A : Type 0} → Error → Exec S A
  raise e start = (err e, start)

  unfoldable pub pure : {A : Type 0} → A → Exec S A
  pure a start = (ok a, start)

-- What happens after code that ended like this.
abbrev pub after : {S A B : Type 0} → (A → Exec S B) → Result A × S → Result B × S
after next (ok a, now) = next a now
after next (err e, now) = (err e, now)
after next (undefined, now) = (undefined, now)

infixl 10 ◌>>=◌ ◌>>◌
unfoldable pub ◌>>=◌ : {S A B : Type 0} → Exec S A → (A → Exec S B) → Exec S B
unfolding modify asks gets lift raise pure
◌>>=◌ first next start = after next (first start)

abbrev pub ◌>>◌ : {S A B : Type 0} → Exec S A → Exec S B → Exec S B
first >> second = first >>= λ _. second
