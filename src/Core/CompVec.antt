-- ===== src/Core/CompVec.antt =====
-- sim/lib/core/include/core/ics/compVec.h: a vector of components that reuses the places of removed
-- ones, behind ids that are never reused.
pub mod Invariant
pub mod Removal
pub mod Refinement
pub mod Dense
pub mod Writing
use bento_box.Base.{
  ℕ, ◌+◌, ◌%◌, ◌^◌, Bool, List, [], ◌∷◌, ◌++◌, Option, none, some, if◌then◌else◌, ltb, length,
  get_elem?, set,
}
use bento_box.Base.Classes.{nat_eq}
use bento_box.Exec.{
  Exec, Result, ok, err, map_at, vec_at, inactive_component, or_raise, then_result, asks, modify,
  ◌>>=◌, ◌>>◌,
}
use bento_box.Std.Map.{Map, insert, without, at as map_find}
use bento_box.Core.Component.{Component}

-- The values of `CompId`, an `unsigned long`.
abbrev pub id_mod : ℕ
id_mod = 2 ^ 64

pub record CompVec (A : Type 0) : Type 0 where
  pub last_id : ℕ
  pub id_to_index : Map ℕ ℕ
  -- the front of the queue first
  pub inactive_comp_idx : List ℕ
  pub vec : List A

abbrev pub empty : {A : Type 0} → CompVec A
empty = record { last_id = 0; id_to_index = []; inactive_comp_idx = []; vec = [] }

module _ {A : Type 0} where
  -- `vec.at(idx)`
  abbrev pub get_at : List A → ℕ → Result A
  get_at xs i = or_raise vec_at (get_elem? xs i)

  add_to : List ℕ → A → Exec (CompVec A) ℕ
  add_to [] val c = (ok (length c.vec), record c { vec = c.vec ++ val ∷ [] })
  add_to (i ∷ rest) val c =
      if ltb i (length c.vec)
      then (ok i, record c { vec = set c.vec i val; inactive_comp_idx = rest })
      else (err vec_at, c)

  unfoldable pub add_to_vec : A → Exec (CompVec A) ℕ
  unfolding add_to
  add_to_vec val c = add_to c.inactive_comp_idx val c

  abbrev next_id : CompVec A → ℕ
  next_id c = (c.last_id + 1) % id_mod

  map_id : ℕ → Exec (CompVec A) ℕ
  map_id i c = (
    ok (next_id c),
    record c { id_to_index = insert (next_id c) i c.id_to_index; last_id = next_id c },
  )

  unfoldable pub add : A → Exec (CompVec A) ℕ
  unfolding map_id
  add val = do inserted_idx ← add_to_vec val; map_id inserted_idx

  unfoldable pub size : CompVec A → ℕ
  size c = length c.id_to_index

module _ {A : Type 0} ⦃k : Component A⦄ where
  release : ℕ → ℕ → A → CompVec A → CompVec A
  release id i comp c = record c {
    vec = set c.vec i (k.deactivate comp);
    inactive_comp_idx = c.inactive_comp_idx ++ i ∷ [];
    id_to_index = without id c.id_to_index;
  }

  unfoldable pub remove : ℕ → Exec (CompVec A) (Unit {0})
  unfolding release
  remove id = do
    index ← asks (λ c. map_find id c.id_to_index)
    comp ← asks (λ c. get_at c.vec index)
    modify (release id index comp)

  unfoldable pub is_active_check : CompVec A → ℕ → Result (Unit {0})
  is_active_check c id = then_result (map_find id c.id_to_index) λ index.
      then_result (get_at c.vec index)
        λ comp. if k.is_active comp then ok tt else err inactive_component

  unfoldable pub at : CompVec A → ℕ → Result A
  unfolding is_active_check
  at c id =
      then_result (is_active_check c id)
        λ _. then_result (map_find id c.id_to_index) λ index. get_at c.vec index

  -- `at(id) = comp`, a write through the reference that `at` returns
  unfoldable pub write : CompVec A → ℕ → A → Result (CompVec A)
  write c id comp = then_result (is_active_check c id) λ _.
      then_result (map_find id c.id_to_index) λ index. ok (record c { vec = set c.vec index comp })
