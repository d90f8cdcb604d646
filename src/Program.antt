-- ===== src/Program.antt =====
-- sim/src/main.cpp: the window, the graphics, the systems, the stores and the server together.
pub mod Closing
use bento_box.Base.{ℕ, zero, suc, Bool, true, false, String, List, [], ◌∷◌, Option, none, some}
use bento_box.Base.Int.{ℤ, pos}
use bento_box.Exec.{Exec, Result, ok, err, undefined, pure, ◌>>=◌, ◌>>◌}
use bento_box.Machine.{Machine}
use bento_box.World
use bento_box.World.{World}
use bento_box.Graphics
use bento_box.Graphics.{GraphicsLibrary, GraphicsContext, graphics_context}
use bento_box.Rendering.{Scene, SystemContext, run, set_up, system_context}
use bento_box.Server
use bento_box.Server.{ServerCall, GrpcServer}
use bento_box.Windows
use bento_box.Windows.{
  GlfwCall, clear_color, clear_colors, call, WindowLibrary, Screen, WindowContext, window_context,
  should_close, swap_window_buffers, update_events,
}

-- What the program works on. The calls of GLFW, and of OpenGL between them, are one list; the calls
-- that the textures make are another, and those of the server a third.
pub record Program (Service Handle : Type 0) : Type 0 where
  pub scene : Scene
  pub screen : Screen
  pub wire : List (ServerCall Service Handle)

-- 0.2f, 0.3f, 0.3f and 1.0f
abbrev pub background : GlfwCall
background = clear_color 1045220557 1050253722 1050253722 1065353216

abbrev pub at_start : {Service Handle : Type 0} → Program Service Handle
at_start = record {
  scene = record {
    graphics = record { texture_cache = []; generated = 0; calls = [] };
    world = World.empty;
  };
  screen = record { created = 0; calls = [] };
  wire = [];
}

module _ {Service Handle : Type 0} where
  abbrev on_scene : {A : Type 0} → Exec Scene A → Exec (Program Service Handle) A
  on_scene code p = let (r, scene) = code p.scene in (r, record p { scene = scene })

  abbrev on_graphics : {A : Type 0} → Exec GraphicsContext A → Exec (Program Service Handle) A
  on_graphics code p =
      let (r, graphics) = code p.scene.graphics in
      (r, record p { scene = record p.scene { graphics = graphics } })

  abbrev on_world : {A : Type 0} → Exec World A → Exec (Program Service Handle) A
  on_world code p =
      let (r, world) = code p.scene.world in
      (r, record p { scene = record p.scene { world = world } })

  abbrev on_screen : {A : Type 0} → Exec Screen A → Exec (Program Service Handle) A
  on_screen code p = let (r, screen) = code p.screen in (r, record p { screen = screen })

  abbrev on_wire :
      {A : Type 0} → Exec (List (ServerCall Service Handle)) A → Exec (Program Service Handle) A
  on_wire code p = let (r, wire) = code p.wire in (r, record p { wire = wire })

  -- the body of the loop
  unfoldable pub round : WindowContext → SystemContext → Exec (Program Service Handle) (Unit {0})
  unfolding ◌>>=◌
  round window context = do
    on_screen (call background)
    on_screen (call clear_colors)
    on_scene (run context)
    on_screen (swap_window_buffers window)
    on_screen update_events

  abbrev again :
      (Program Service Handle → Option (Result (Unit {0}) × Program Service Handle))
      → Result (Unit {0}) × Program Service Handle
      → Option (Result (Unit {0}) × Program Service Handle)
  again rest (ok done, p) = rest p
  again rest (err e, p) = some (err e, p)
  again rest (undefined, p) = some (undefined, p)

  abbrev tested :
      Exec (Program Service Handle) (Unit {0})
      → (Program Service Handle → Option (Result (Unit {0}) × Program Service Handle))
      → Result Bool × Program Service Handle
      → Option (Result (Unit {0}) × Program Service Handle)
  tested body rest (ok true, p) = some (ok tt, p)
  tested body rest (ok false, p) = again rest (body p)
  tested body rest (err e, p) = some (err e, p)
  tested body rest (undefined, p) = some (undefined, p)

  -- The loop, with fuel for its tests.
  unfoldable pub main_loop :
      WindowLibrary
      → WindowContext
      → SystemContext
      → ℕ
      → Program Service Handle
      → Option (Result (Unit {0}) × Program Service Handle)
  unfolding round
  main_loop l window context zero p = none
  main_loop l window context (suc fuel) p =
      let rest = main_loop l window context fuel in
      tested (round window context) rest (on_screen (should_close l window) p)

  -- The destructors at the end of `main`, the last object first.
  unfoldable pub destructors :
      WindowContext × GrpcServer Handle → Exec (Program Service Handle) (Unit {0})
  unfolding ◌>>=◌
  destructors (window, server) = do
    on_wire (Server.destroy server)
    on_graphics Graphics.destroy
    on_screen (Windows.destroy window)

  abbrev destructed :
      WindowContext × GrpcServer Handle
      → Option (Result (Unit {0}) × Program Service Handle)
      → Option (Result (Unit {0}) × Program Service Handle)
  destructed objects none = none
  destructed objects (some (ok done, p)) = some (destructors objects p)
  destructed objects (some (err e, p)) = some (err e, p)
  destructed objects (some (undefined, p)) = some (undefined, p)

  module _ (l : WindowLibrary) (gl : GraphicsLibrary) (m : Machine)
      (built : List (ServerCall Service Handle) → Option (ℤ × Handle))
      (env : String → Option String) (stoi : String → Result ℤ) (engine_service : Service) where
    -- `main` up to the loop
    unfoldable pub prepare : Exec (Program Service Handle) (WindowContext × GrpcServer Handle)
    unfolding ◌>>=◌
    prepare = do
      window ← on_screen (window_context l (pos 800) (pos 600) "Bento Box")
      on_graphics (graphics_context gl)
      on_world (set_up m)
      server ← on_wire (Server.start built env stoi (engine_service ∷ []))
      pure (window, server)

    abbrev then_loop :
        ℕ
        → Result (WindowContext × GrpcServer Handle) × Program Service Handle
        → Option (Result (Unit {0}) × Program Service Handle)
    then_loop fuel (ok objects, p) =
        destructed objects (main_loop l objects.0 system_context fuel p)
    then_loop fuel (err e, p) = some (err e, p)
    then_loop fuel (undefined, p) = some (undefined, p)

    -- `main`. An exception that leaves it ends the process, without its destructors.
    unfoldable pub main_program : ℕ → Option (Result (Unit {0}) × Program Service Handle)
    unfolding prepare main_loop destructors
    main_program fuel = then_loop fuel (prepare at_start)
