-- ===== src/Examples/Pictures.antt =====
-- The theorems on textures and on rendering, at concrete inputs.
use bento_box.Base.{
  leb, ◌<◌, false, length, ℕ, suc, zero, ◌≡◌, refl, true, false, String, Option, List, [], ◌∷◌,
  none, some, if◌then◌else◌, arith, str_eq,
}
use bento_box.Base.Int.{ℤ, pos}
use bento_box.Base.Classes.{string_eq, nat_eq}
use bento_box.Exec.{Result, lift, ok, err, texture_failed, gets, modify, pure, ◌>>=◌}
use bento_box.Std.Map.{lookup, put, without}
use bento_box.Graphics.{GraphicsLibrary, Image, bind_texture, load_texture2d, destroy}
use bento_box.Graphics.Cache.{fresh, deletes, generates, loads, load_texture2d-loads}
use bento_box.Graphics.Destruction.{destroy-loads}
use bento_box.Base.Text.{to_string}
use bento_box.Server
use bento_box.Server.{
  ServerCall, GrpcServer, enable_default_health_check_service,
  init_proto_reflection_server_builder_plugin, build_and_start, add_listening_port,
  register_service, set_serving_status, shut_down, get_env,
}
use bento_box.Windows.{
  WindowLibrary, WindowContext, Screen, context_version_major, context_version_minor,
  opengl_profile, init, window_hint, create_window, make_context_current,
  set_framebuffer_size_callback, window_context,
}
use bento_box.Program.{main_program}
use bento_box.Program.Closing.{
  closes, after_rounds, set_up_scene, closed_screen, main_program-after_rounds,
}
use bento_box.Examples.Data.{machine}

abbrev grass : Image
grass = record { width = pos 1; height = pos 1; nr_channels = 3; pixels = 0 ∷ 255 ∷ 0 ∷ [] }

-- A disk with one picture on it.
abbrev library : GraphicsLibrary
library = record {
  loads_functions = true;
  texture_id = λ n. suc n;
  load_image = λ path. if str_eq path "grass.png" then some grass else none;
}

grass_loads : (load_texture2d library "grass.png" fresh).0 ≡ ok 1
unfolding load_texture2d gets modify pure ◌>>=◌ lookup
grass_loads = refl

abbrev after_grass : List String
after_grass = "missing.png" ∷ "grass.png" ∷ []

load_texture2d-loads_example :
    load_texture2d library "grass.png"
      (loads library after_grass (load_texture2d library "grass.png" fresh).1)
    ≡ (ok 1, loads library after_grass (load_texture2d library "grass.png" fresh).1)
load_texture2d-loads_example =
    load_texture2d-loads library "grass.png" 1 after_grass fresh grass_loads

abbrev before : List String
before = "grass.png" ∷ []

not_loaded : lookup "missing.png" (loads library before fresh).texture_cache ≡ none
unfolding loads load_texture2d gets modify pure ◌>>=◌ lookup put without
not_loaded = refl

destroy-loads_example :
    ((load_texture2d library "missing.png" (loads library before fresh)).0 ≡ err texture_failed)
    × (generates
          (load_texture2d library "missing.png" (loads library before fresh)).1.calls
          (library.texture_id (loads library before fresh).generated)
        ≡ true)
    × (deletes
          (destroy (
            loads library before
              (load_texture2d library "missing.png" (loads library before fresh)).1)).1.calls
          (library.texture_id (loads library before fresh).generated)
        ≡ false)
destroy-loads_example =
    destroy-loads library (λ i j e. omega (arith, e)) "missing.png" before before not_loaded refl

-- A window that is to be closed after two rounds.
abbrev windows : WindowLibrary
windows = record {
  core_profile = 204801;
  created_window = λ n. some (suc n);
  current_context = λ calls. some 1;
  window_should_close = λ window calls. leb 15 (length calls);
}

abbrev window : WindowContext
window = record { width = pos 800; height = pos 600; title = "Bento Box"; window = 1 }

-- The screen and the calls of the server when the loop starts.
abbrev opened : Screen
opened = record {
  created = 1;
  calls =
      set_framebuffer_size_callback 1
      ∷ make_context_current 1
      ∷ create_window (pos 800) (pos 600) "Bento Box"
      ∷ window_hint opengl_profile 204801
      ∷ window_hint context_version_minor 3
      ∷ window_hint context_version_major 3
      ∷ init
      ∷ [];
}

abbrev served : GrpcServer ℕ
served = record { host = "localhost"; address = "localhost:54242"; port = pos 54242; server = 1 }

abbrev wire : List (ServerCall ℕ ℕ)
wire =
    set_serving_status 1 true
    ∷ build_and_start
    ∷ register_service 9
    ∷ add_listening_port "localhost:54242"
    ∷ init_proto_reflection_server_builder_plugin
    ∷ enable_default_health_check_service true
    ∷ []

abbrev built : List (ServerCall ℕ ℕ) → Option (ℤ × ℕ)
built calls = some (pos 54242, 1)

abbrev env : String → Option String
env name = none

abbrev stoi : String → Result ℤ
stoi text = ok (pos 54242)

opens :
    window_context windows (pos 800) (pos 600) "Bento Box" (record { created = 0; calls = [] })
    ≡ (ok window, opened)
unfolding window_context ◌>>=◌ modify pure
opens = refl

starts : Server.start built env stoi (9 ∷ []) [] ≡ (ok served, wire)
unfolding Server.start Server.grpc_server get_env to_string ◌>>=◌ modify pure lift
starts = refl

two_rounds : (k : ℕ) → k < 2 → closes windows window (after_rounds window k opened) ≡ false
two_rounds zero h = refl
two_rounds (suc zero) h = refl
two_rounds (suc (suc k)) h = absurd (omega arith)

main_program-after_rounds_example :
    main_program windows library machine built env stoi 9 3
    ≡ some (
      ok tt,
      record {
        scene =
            set_up_scene machine
              (record { texture_cache = []; generated = 0; calls = bind_texture 0 ∷ [] });
        screen = closed_screen (after_rounds window 2 opened);
        wire = shut_down 1 ∷ wire;
      },
    )
main_program-after_rounds_example =
    main_program-after_rounds windows library machine built env stoi 9 window opened served wire 2
      opens refl starts two_rounds refl
