-- ===== src/Rendering/Frames.antt =====
-- The system that renders never fails once a texture was added.
use bento_box.Base.{
  ℕ, suc, ◌+◌, ◌<◌, ◌≡◌, refl, ◌∙◌, true, List, [], ◌∷◌, if◌then◌else◌, arith, ap, length,
  Option-cases, inl, inr,
}
use bento_box.Base.Int.{ℤ, pos}
use bento_box.Base.Classes.{string_eq, nat_eq, pair_eq, pair_beq_iff}
use bento_box.Exec.{Result, ok, err, map_at, map_result, lift, pure, asks, ◌>>=◌}
use bento_box.Std.Map.{lookup, is_some, at as map_find}
use bento_box.Std.Set
use bento_box.Core.ComponentStore.{ComponentStore, ComponentSet, CompStoreId, int_max}
use bento_box.Core.ComponentStore.Listing.{
  IsDenseStore, store_view, listing, is_countable, as_comp_set-listing, member-store_view,
}
use bento_box.Core.ComponentStore.Access.{get_component-store_view}
use bento_box.Index.TypeIndex.{filter_group, filter_comp_type}
use bento_box.Index.TypeIndex.Groups.{group_of, empty-IsValid, member-filter_group}
use bento_box.Machine.{Machine, cast}
use bento_box.Component.UserComponent.{UserComponent, user_component, set_value}
use bento_box.Component.Predefined.{
  texture2d_component_name, texture2d_comp_def, texture2d_component,
}
use bento_box.Component.UserComponent.Assignment.{assigned}
use bento_box.Component.UserComponent.Setting.{set_value-Stores}
use bento_box.Proto.UserValue.{kind_of, set_val}
use bento_box.World
use bento_box.World.{World}
use bento_box.World.Soundness.{IsSound}
use bento_box.World.Growth.{Within, Within-is_countable, Grown, add_component-Grown}
use bento_box.Rendering.{
  Scene, run_all, run, read_components, rendered, render, texture_value, textured, add_all, set_up,
  push_front, system_context,
}

read_components_lem :
    (store : ComponentStore UserComponent) (ids : ComponentSet)
    → IsDenseStore store
    → ((id : CompStoreId) → Set.member id ids ≡ true → is_some (store_view store id) ≡ true)
    → read_components store ids ≡ ok tt
unfolding read_components Set.member
read_components_lem store [] d h = refl
read_components_lem store (id ∷ rest) d h = elim (Option-cases (store_view store id)) [
  | inl missing ↦ absurd (ground (arith, h id, pair_beq_iff id id))
  | inr (comp, found) ↦
      rw (get_component-store_view store id d, found)
        (read_components_lem store rest d λ j k. h j (ground (arith, k)))
]

-- In a sound world whose ids can be listed, render throws only where no texture was ever added.
pub rendered_lem :
    (w : World)
    → IsSound w
    → is_countable w.comp_store ≡ true
    → rendered w ≡ (
        if is_some (group_of w.index_store.component_type texture2d_component_name)
        then ok tt
        else err map_at)
unfolding rendered filter_comp_type map_find
rendered_lem w s small =
    elim (Option-cases (group_of w.index_store.component_type texture2d_component_name)) [
      | inl e ↦ rw (as_comp_set-listing w.comp_store, small, e) refl
      | inr (group, e) ↦
          rw (as_comp_set-listing w.comp_store, small, e)
            (read_components_lem w.comp_store (filter_group group (listing w.comp_store)) s.dense
              λ (g, id) k. ground (
                arith,
                k,
                member-filter_group group (listing w.comp_store) g id,
                member-store_view w.comp_store (g, id) s.dense,
              ))
    ]

-- The systems of the main program, on a world in which `render` succeeds.
pub run_lem :
    (scene : Scene) → rendered scene.world ≡ ok tt → run system_context scene ≡ (ok tt, scene)
unfolding run run_all render asks pure system_context push_front ◌>>=◌
run_lem scene h = rw h refl

-- An active component that is a texture.
record IsTexture (comp : UserComponent) : Type 0 where
  active : comp.is_active ≡ true
  named : comp.type_name ≡ texture2d_component_name

abbrev AllTextures : List UserComponent → Type 0
AllTextures [] = Unit
AllTextures (comp ∷ rest) = IsTexture comp × AllTextures rest

-- What adding textures leads to.
abbrev Ready : Result (Unit {0}) × World → Type 0
Ready run =
    (run.0 ≡ ok tt)
    × IsSound run.1
    × (is_countable run.1.comp_store ≡ true)
    × (is_some (group_of run.1.index_store.component_type texture2d_component_name) ≡ true)

group-Grown :
    (n : ℕ) (comp : UserComponent) (w : World) (run : Result CompStoreId × World)
    → IsTexture comp
    → Grown n comp w run
    → is_some (group_of run.1.index_store.component_type texture2d_component_name) ≡ true
group-Grown n comp w run t g =
    let typed =
      g.within.sound.typed g.id comp (g.stored g.id ∙ ground (arith, pair_beq_iff g.id g.id)) in
    ground (arith, t.named, typed)

empty-Within : Within 0 World.empty
unfolding lookup
empty-Within = record {
  sound = record {
    dense = record { unique = tt; dense = λ g vec e. absurd (ground arith) };
    groups = empty-IsValid;
    typed = λ id c e. absurd (ground arith);
    owned = λ e j k. absurd (ground arith);
    apart = λ e f j k l. absurd (ground arith);
  };
  ids = λ g id e. absurd (ground arith);
  types = omega arith;
}

module _ (m : Machine) where
  add_all-Ready :
      (n : ℕ) (comp : UserComponent) (rest : List UserComponent) (w : World)
      → Within n w
      → n + suc (length rest) < int_max
      → IsTexture comp
      → AllTextures rest
      → Ready (add_all m (comp ∷ rest) w)
  unfolding add_all pure ◌>>=◌
  add_all-Ready n comp [] w h small t ts =
      let g = add_component-Grown n comp w t.active h (omega arith) in
      rw g.returned (
        refl,
        g.within.sound,
        Within-is_countable (n + 1) (World.add_component comp w).1 g.within (omega arith),
        group-Grown n comp w (World.add_component comp w) t g,
      )
  add_all-Ready n comp (next ∷ rest) w h small t (u, us) =
      let g = add_component-Grown n comp w t.active h (omega arith) in
      rw g.returned
        (add_all-Ready (n + 1) next rest (World.add_component comp w).1 g.within (omega arith) u us)

  assigned_lem :
      (n : ℤ) → assigned m texture2d_component "texture" (texture_value n) ≡ ok (texture_value n)
  unfolding texture2d_component texture2d_comp_def lookup kind_of set_val cast
  assigned_lem n = refl

  -- A texture is made with its attribute set.
  textured_lem : (n : ℤ) → (comp : UserComponent) × (textured m n ≡ ok comp) × IsTexture comp
  unfolding textured
  textured_lem n =
      let s = set_value-Stores m "texture" (texture_value n) texture2d_component in
      let set : (set_value m "texture" (texture_value n) texture2d_component).0 ≡ ok tt =
        s.result ∙ ap (map_result (λ _. tt)) (assigned_lem n) in
      (
        (set_value m "texture" (texture_value n) texture2d_component).1,
        rw set refl,
        record { active = s.active ∙ refl; named = s.type_name ∙ refl },
      )

  set_up-Ready : Ready (set_up m World.empty)
  unfolding set_up ◌>>=◌ lift
  set_up-Ready =
      let (a, e, t) = textured_lem (pos 1) in
      let (b, f, u) = textured_lem (pos 2) in
      let (c, g, v) = textured_lem (pos 3) in
      let (d, h, w) = textured_lem (pos 4) in
      rw (e, f, g, h)
        (add_all-Ready 0 a (b ∷ c ∷ d ∷ []) World.empty empty-Within (omega arith) t
          (u, (v, (w, tt))))

  -- The set-up of the main program succeeds, and `render` succeeds on what it leaves.
  pub set_up-rendered :
      ((set_up m World.empty).0 ≡ ok tt) × (rendered (set_up m World.empty).1 ≡ ok tt)
  set_up-rendered =
      let (r, s, small, known) = set_up-Ready in
      (r, rendered_lem (set_up m World.empty).1 s small ∙ rw known refl)
