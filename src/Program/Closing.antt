-- ===== src/Program/Closing.antt =====
-- The main loop runs until the window is to be closed.
use bento_box.Base.{
  ℕ, zero, suc, ◌<◌, ◌≡◌, refl, Bool, true, false, String, List, [], ◌∷◌, Option, some, arith,
}
use bento_box.Base.Int.{ℤ, pos}
use bento_box.Exec.{Result, ok, modify, gets, pure, ◌>>=◌}
use bento_box.Machine.{Machine}
use bento_box.Graphics
use bento_box.Graphics.{GraphicsLibrary, GraphicsContext, bind_texture, graphics_context}
use bento_box.Rendering.{Scene, rendered, set_up, system_context}
use bento_box.Rendering.Frames.{run_lem, set_up-rendered}
use bento_box.Server
use bento_box.Server.{ServerCall, GrpcServer, shut_down}
use bento_box.Windows
use bento_box.Windows.{
  WindowLibrary, Screen, WindowContext, clear_colors, swap_buffers, poll_events, terminate,
  window_context, should_close, swap_window_buffers, update_events,
}
use bento_box.World
use bento_box.Program.{
  Program, background, round, main_loop, prepare, destructors, main_program, at_start,
}

-- What one round and what `n` rounds leave of the calls, the last one first.
abbrev pub shown : WindowContext → Screen → Screen
shown window s = record s {
  calls = poll_events ∷ swap_buffers window.window ∷ clear_colors ∷ background ∷ s.calls;
}

abbrev pub after_rounds : WindowContext → ℕ → Screen → Screen
after_rounds window zero s = s
after_rounds window (suc n) s = after_rounds window n (shown window s)

abbrev pub closed_screen : Screen → Screen
closed_screen s = record s { calls = terminate ∷ s.calls }

abbrev pub closes : WindowLibrary → WindowContext → Screen → Bool
closes l window s = l.window_should_close window.window s.calls

-- The textures before any is loaded.
abbrev no_textures : GraphicsContext
no_textures = record { texture_cache = []; generated = 0; calls = [] }

abbrev pub set_up_scene : Machine → GraphicsContext → Scene
set_up_scene m graphics = record { graphics = graphics; world = (set_up m World.empty).1 }

module _ {Service Handle : Type 0} (l : WindowLibrary) (window : WindowContext) where
  round_lem :
      (p : Program Service Handle)
      → rendered p.scene.world ≡ ok tt
      → round window system_context p ≡ (ok tt, record p { screen = shown window p.screen })
  unfolding round modify swap_window_buffers update_events ◌>>=◌
  round_lem p h = rw (run_lem p.scene h) refl

  main_loop_lem :
      (n : ℕ) (p : Program Service Handle)
      → rendered p.scene.world ≡ ok tt
      → ((k : ℕ) → k < n → closes l window (after_rounds window k p.screen) ≡ false)
      → closes l window (after_rounds window n p.screen) ≡ true
      → main_loop l window system_context (suc n) p
        ≡ some (ok tt, record p { screen = after_rounds window n p.screen })
  unfolding main_loop should_close gets
  main_loop_lem zero p r going closed = rw closed refl
  main_loop_lem (suc n) p r going closed =
      rw (going 0 (omega arith), round_lem p r)
        (main_loop_lem n (record p { screen = shown window p.screen }) r
          (λ k small. going (suc k) (omega arith)) closed)

module _ {Service Handle : Type 0} (l : WindowLibrary) (gl : GraphicsLibrary) (m : Machine)
    (built : List (ServerCall Service Handle) → Option (ℤ × Handle)) (env : String → Option String)
    (stoi : String → Result ℤ) (service : Service) (window : WindowContext) (opened : Screen)
    (server : GrpcServer Handle) (wire : List (ServerCall Service Handle)) where
  -- The program when its loop starts.
  abbrev started : Program Service Handle
  started = record { scene = set_up_scene m no_textures; screen = opened; wire = wire }

  prepare_lem :
      window_context l (pos 800) (pos 600) "Bento Box" (record { created = 0; calls = [] })
        ≡ (ok window, opened)
      → gl.loads_functions ≡ true
      → Server.start built env stoi (service ∷ []) [] ≡ (ok server, wire)
      → prepare l gl m built env stoi service at_start ≡ (ok (window, server), started)
  unfolding prepare graphics_context ◌>>=◌ pure
  prepare_lem opens loads starts = rw (opens, loads, (set_up-rendered m).0, starts) refl

  -- If the window is created, the graphics loader succeeds, the server is started, and the window
  -- is reported to be closed after n rounds of the main loop and not before, then main ends
  -- normally with these n rounds: the set-up succeeds, rendering throws in no round, and each round
  -- clears the frame, swaps the buffers and then reads events; at the end the textures are unbound,
  -- the server is shut down and GLFW is terminated.
  pub main_program-after_rounds :
      (n : ℕ)
      → window_context l (pos 800) (pos 600) "Bento Box" (record { created = 0; calls = [] })
        ≡ (ok window, opened)
      → gl.loads_functions ≡ true
      → Server.start built env stoi (service ∷ []) [] ≡ (ok server, wire)
      → ((k : ℕ) → k < n → closes l window (after_rounds window k opened) ≡ false)
      → closes l window (after_rounds window n opened) ≡ true
      → main_program l gl m built env stoi service (suc n)
        ≡ some (
          ok tt,
          record {
            scene =
                set_up_scene m
                  (record { texture_cache = []; generated = 0; calls = bind_texture 0 ∷ [] });
            screen = closed_screen (after_rounds window n opened);
            wire = shut_down server.server ∷ wire;
          },
        )
  unfolding main_program destructors Server.destroy Graphics.destroy Windows.destroy ◌>>=◌ modify
  main_program-after_rounds n opens loads starts going closed =
      rw
        (
          prepare_lem opens loads starts,
          main_loop_lem l window n started (set_up-rendered m).1 going closed,
        )
        refl
