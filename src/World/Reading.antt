-- ===== src/World/Reading.antt =====
-- Code that runs on one component and changes no attribute leaves the world the same.
use bento_box.Base.{ℕ, ◌≡◌, refl, true, some, arith, get_elem?, set, Option-cases, inl, inr}
use bento_box.Base.Classes.{nat_eq}
use bento_box.Exec.{Exec, Result, ok, err, undefined}
use bento_box.Std.Map.{lookup, update, at as map_find}
use bento_box.Core.CompVec
use bento_box.Core.CompVec.{CompVec, get_at}
use bento_box.Core.ComponentStore
use bento_box.Core.ComponentStore.{ComponentStore, CompStoreId}
use bento_box.Component.UserComponent.{UserComponent, user_component}
use bento_box.Component.UserComponent.Attributes.{SameAttributes}
use bento_box.World.{World, on_component, on_found}
use bento_box.World.Same.{
  SameVec, SameList-set, SameStore, SameStore-update, SameWorld, SameWorld-refl,
}

-- What `at` needs to have found.
vec_found :
    (v : CompVec UserComponent) (id : ℕ) (c : UserComponent)
    → CompVec.at v id ≡ ok c
    → (i : ℕ) × (lookup id v.id_to_index ≡ some i)
      × (get_elem? v.vec i ≡ some c)
      × (c.is_active ≡ true)
unfolding CompVec.at map_find
vec_found v id c e = elim (Option-cases (lookup id v.id_to_index)) [
  | inl n ↦ absurd (ground arith)
  | inr (i, n) ↦ (i, n, ground arith, ground arith)
]

vec_written :
    (v : CompVec UserComponent) (id : ℕ) (c d : UserComponent)
    → CompVec.at v id ≡ ok c
    → SameAttributes d c
    → (v' : CompVec UserComponent) × (CompVec.write v id d ≡ ok v') × SameVec v' v
unfolding CompVec.write CompVec.is_active_check map_find
vec_written v id c d e h =
    let (i, f, g, a) = vec_found v id c e in
    (
      record v { vec = set v.vec i d },
      ground arith,
      record { last_id = refl; ids = refl; free = refl; comps = SameList-set v.vec i c d g h },
    )

store_written :
    (s : ComponentStore UserComponent) (id : CompStoreId) (c d : UserComponent)
    → ComponentStore.get_component s id ≡ ok c
    → SameAttributes d c
    → (t : ComponentStore UserComponent) × (ComponentStore.set_component s id d ≡ ok t)
      × SameStore t s
unfolding ComponentStore.get_component ComponentStore.set_component map_find
store_written s (g, id) c d e h = elim (Option-cases (lookup g s)) [
  | inl n ↦ absurd (ground arith)
  | inr (v, n) ↦
      let (v', f, k) = vec_written v id c d (ground arith) h in
      (update g (λ _. v') s, ground arith, SameStore-update s g v v' n k)
]

module _ {A : Type 0} (id : CompStoreId) (action : Exec UserComponent A)
    (reads : (c : UserComponent) → SameAttributes (action c).1 c) where
  at_found :
      (w : World) (r : Result UserComponent)
      → ComponentStore.get_component w.comp_store id ≡ r
      → SameWorld (on_found id action r w).1 w
  at_found w (ok c) e =
      let (t, f, k) = store_written w.comp_store id c (action c).1 e (reads c) in
      rw f (record { index = refl; store = k })
  at_found w (err x) e = SameWorld-refl w
  at_found w undefined e = SameWorld-refl w

  pub on_component-SameWorld : (w : World) → SameWorld (on_component id action w).1 w
  unfolding on_component
  on_component-SameWorld w = at_found w (ComponentStore.get_component w.comp_store id) refl
