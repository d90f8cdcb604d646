-- ===== src/Core/Component.antt =====
-- sim/lib/core/include/core/ics/component.h. `BaseComponent` is the flag `isActive`; a type that
-- derives from it is an instance of `Component`.
use bento_box.Base.{◌≡◌, Bool, false}

pub record Component (A : Type 0) : Type 0 where
  pub is_active : A → Bool
  -- `comp.isActive = false`
  pub deactivate : A → A
  pub deactivated : (a : A) → is_active (deactivate a) ≡ false
