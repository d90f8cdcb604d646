-- ===== src/Rendering.antt =====
-- sim/lib/core/include/core/systemContext.h, sim/src/system/render.cpp and the set-up of sim/src/main.cpp:
-- systems that run on the graphics context and the stores.
pub mod Frames
use bento_box.Base.{ℕ, zero, suc, String, List, [], ◌∷◌, some, Option, none}
use bento_box.Base.Int.{ℤ, pos}
use bento_box.Base.Classes.{string_eq}
use bento_box.Exec.{Exec, Result, ok, then_result, asks, lift, pure, ◌>>=◌, ◌>>◌}
use bento_box.Core.ComponentStore.{ComponentStore, ComponentSet, as_comp_set, get_component}
use bento_box.Index.TypeIndex.{filter_comp_type}
use bento_box.Proto.Value.{TypePrimitive, primitive_type, Value, of_primitive, int_64}
use bento_box.Machine.{Machine}
use bento_box.Component.UserComponent.{UserComponent, user_component, set_value}
use bento_box.Component.Predefined.{texture2d_component_name, texture2d_component}
use bento_box.World
use bento_box.World.{World}
use bento_box.Graphics.{GraphicsContext}

-- what a system is given references to
pub record Scene : Type 0 where
  pub graphics : GraphicsContext
  pub world : World

abbrev pub SystemFn : Type 0
SystemFn = Exec Scene (Unit {0})

pub record SystemContext : Type 0 where
  pub systems : List SystemFn

unfoldable pub run_all : List SystemFn → Exec Scene (Unit {0})
unfolding ◌>>=◌
run_all [] = pure tt
run_all (system ∷ rest) = do system; run_all rest

-- `SystemContext::run`
unfoldable pub run : SystemContext → Exec Scene (Unit {0})
unfolding run_all
run context = run_all context.systems

-- the loop of `render`, which copies each component
unfoldable pub read_components : ComponentStore UserComponent → ComponentSet → Result (Unit {0})
read_components store [] = ok tt
read_components store (id ∷ rest) =
    then_result (get_component store id) λ _. read_components store rest

unfoldable pub rendered : World → Result (Unit {0})
unfolding read_components
rendered w = then_result (as_comp_set w.comp_store) λ all.
    then_result (filter_comp_type w.index_store.component_type texture2d_component_name)
      λ of_type. read_components w.comp_store (of_type all)

unfoldable pub render : SystemFn
unfolding rendered
render = asks (λ scene. rendered scene.world)

-- `value` of `main`
abbrev pub texture_value : ℤ → Value
texture_value n = record {
  data_type = some (primitive_type TypePrimitive.int64);
  kind = of_primitive (int_64 n);
}

module _ (m : Machine) where
  -- `Texture2DComponent()`, with its attribute "texture" set
  unfoldable pub textured : ℤ → Result UserComponent
  unfolding texture2d_component
  textured n =
      let (r, comp) = set_value m "texture" (texture_value n) texture2d_component in
      then_result r λ _. ok comp

  unfoldable pub add_all : List UserComponent → Exec World (Unit {0})
  unfolding ◌>>=◌
  add_all [] = pure tt
  add_all (comp ∷ rest) = do World.add_component comp; add_all rest

  -- The four textures that `main` makes, and then adds.
  unfoldable pub set_up : Exec World (Unit {0})
  unfolding ◌>>=◌ add_all textured
  set_up = do
    tex1 ← lift (textured (pos 1))
    tex2 ← lift (textured (pos 2))
    tex3 ← lift (textured (pos 3))
    tex4 ← lift (textured (pos 4))
    add_all (tex1 ∷ tex2 ∷ tex3 ∷ tex4 ∷ [])

-- `systemContext.systems.push_front(a)`
unfoldable pub push_front : SystemFn → SystemContext → SystemContext
push_front system context = record { systems = system ∷ context.systems }

unfoldable pub system_context : SystemContext
unfolding push_front
system_context = push_front render (record { systems = [] })
