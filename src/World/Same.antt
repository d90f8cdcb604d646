-- ===== src/World/Same.antt =====
-- Worlds that differ at most in attribute entries that were made and never set.
use bento_box.Base.{
  ℕ, zero, suc, ◌≡◌, refl, ◌∙◌, List, [], ◌∷◌, some, arith, get_elem?, set, nat_eqb, Bool-cases,
  inl, inr,
}
use mathlib.Core.Path.{subst}
use bento_box.Base.Classes.{nat_eq}
use bento_box.Std.Map.{lookup, update}
use bento_box.Core.CompVec.{CompVec}
use bento_box.Core.ComponentStore.{ComponentStore}
use bento_box.Component.UserComponent.{UserComponent, user_component}
use bento_box.Component.UserComponent.Attributes.{SameAttributes}
use bento_box.World.{World}

pub SameAttributes-refl : (c : UserComponent) → SameAttributes c c
SameAttributes-refl c = record { active = refl; name = refl; def = refl; same = λ j. refl }

pub SameAttributes-trans :
    {c d e : UserComponent} → SameAttributes c d → SameAttributes d e → SameAttributes c e
SameAttributes-trans h k = record {
  active = h.active ∙ k.active;
  name = h.name ∙ k.name;
  def = h.def ∙ k.def;
  same = λ j. h.same j ∙ k.same j;
}

abbrev pub SameList : List UserComponent → List UserComponent → Type 0
SameList [] [] = Unit
SameList (x ∷ xs) (y ∷ ys) = SameAttributes x y × SameList xs ys
SameList _ _ = ⊥

SameList-refl : (xs : List UserComponent) → SameList xs xs
SameList-refl [] = tt
SameList-refl (x ∷ xs) = (SameAttributes-refl x, SameList-refl xs)

SameList-trans : (xs ys zs : List UserComponent) → SameList xs ys → SameList ys zs → SameList xs zs
SameList-trans [] [] [] h k = tt
SameList-trans [] [] (z ∷ zs) h k = absurd k
SameList-trans [] (y ∷ ys) zs h k = absurd h
SameList-trans (x ∷ xs) [] zs h k = absurd h
SameList-trans (x ∷ xs) (y ∷ ys) [] h k = absurd k
SameList-trans (x ∷ xs) (y ∷ ys) (z ∷ zs) (h, hs) (k, ks) =
    (SameAttributes-trans h k, SameList-trans xs ys zs hs ks)

pub SameList-set :
    (xs : List UserComponent) (i : ℕ) (c d : UserComponent)
    → get_elem? xs i ≡ some c
    → SameAttributes d c
    → SameList (set xs i d) xs
SameList-set [] i c d e h = tt
SameList-set (x ∷ xs) zero c d e h = (
  SameAttributes-trans h (subst (λ z. SameAttributes c z) (ground arith) (SameAttributes-refl c)),
  SameList-refl xs,
)
SameList-set (x ∷ xs) (suc i) c d e h = (SameAttributes-refl x, SameList-set xs i c d e h)

pub record SameVec (v w : CompVec UserComponent) : Type 0 where
  pub last_id : v.last_id ≡ w.last_id
  pub ids : v.id_to_index ≡ w.id_to_index
  pub free : v.inactive_comp_idx ≡ w.inactive_comp_idx
  pub comps : SameList v.vec w.vec

SameVec-refl : (v : CompVec UserComponent) → SameVec v v
SameVec-refl v = record { last_id = refl; ids = refl; free = refl; comps = SameList-refl v.vec }

SameVec-trans : {u v w : CompVec UserComponent} → SameVec u v → SameVec v w → SameVec u w
SameVec-trans {u} {v} {w} h k = record {
  last_id = h.last_id ∙ k.last_id;
  ids = h.ids ∙ k.ids;
  free = h.free ∙ k.free;
  comps = SameList-trans u.vec v.vec w.vec h.comps k.comps;
}

abbrev pub SameStore : ComponentStore UserComponent → ComponentStore UserComponent → Type 0
SameStore [] [] = Unit
SameStore ((g, v) ∷ s) ((h, w) ∷ t) = (g ≡ h) × SameVec v w × SameStore s t
SameStore _ _ = ⊥

SameStore-refl : (s : ComponentStore UserComponent) → SameStore s s
SameStore-refl [] = tt
SameStore-refl ((g, v) ∷ s) = (refl, SameVec-refl v, SameStore-refl s)

SameStore-trans :
    (r s t : ComponentStore UserComponent) → SameStore r s → SameStore s t → SameStore r t
SameStore-trans [] [] [] h k = tt
SameStore-trans [] [] (z ∷ zs) h k = absurd k
SameStore-trans [] (y ∷ ys) zs h k = absurd h
SameStore-trans (x ∷ xs) [] zs h k = absurd h
SameStore-trans (x ∷ xs) (y ∷ ys) [] h k = absurd k
SameStore-trans ((f, u) ∷ r) ((g, v) ∷ s) ((h, w) ∷ t) (e, a, b) (e', a', b') =
    (e ∙ e', SameVec-trans a a', SameStore-trans r s t b b')

pub SameStore-update :
    (s : ComponentStore UserComponent) (g : ℕ) (v w : CompVec UserComponent)
    → lookup g s ≡ some v
    → SameVec w v
    → SameStore (update g (λ _. w) s) s
unfolding lookup update
SameStore-update [] g v w e h = tt
SameStore-update ((j, u) ∷ s) g v w e h = elim (Bool-cases (nat_eqb j g)) [
  | inl same ↦ rw same (refl, subst (λ z. SameVec w z) (ground arith) h, SameStore-refl s)
  | inr other ↦ rw other (refl, SameVec-refl u, SameStore-update s g v w (rw other at e) h)
]

pub record SameWorld (w v : World) : Type 0 where
  pub index : w.index_store ≡ v.index_store
  pub store : SameStore w.comp_store v.comp_store

pub SameWorld-refl : (w : World) → SameWorld w w
SameWorld-refl w = record { index = refl; store = SameStore-refl w.comp_store }

pub SameWorld-trans : {u v w : World} → SameWorld u v → SameWorld v w → SameWorld u w
SameWorld-trans {u} {v} {w} h k = record {
  index = h.index ∙ k.index;
  store = SameStore-trans u.comp_store v.comp_store w.comp_store h.store k.store;
}
