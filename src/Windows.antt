-- ===== src/Windows.antt =====
-- sim/lib/core/include/core/windowContext.h and sim/lib/core/src/windowContext.cpp: the window. GLFW is
-- a parameter: what `glfwCreateWindow` returns, and what it answers about windows. Its calls are
-- written down in order, the last one first.
use bento_box.Base.{ℕ, suc, Bool, false, String, List, ◌∷◌, Option, none, some, nat_eqb}
use bento_box.Base.Int.{ℤ, pos}
use bento_box.Exec.{Exec, ok, window_failed, modify, gets, pure, raise, ◌>>=◌, ◌>>◌}

pub data WindowHint : Type 0 where
  context_version_major context_version_minor opengl_profile : WindowHint

pub data GlfwCall : Type 0 where
  init terminate poll_events : GlfwCall
  window_hint : WindowHint → ℕ → GlfwCall
  create_window : ℤ → ℤ → String → GlfwCall
  make_context_current set_framebuffer_size_callback swap_buffers : ℕ → GlfwCall
  -- the calls of OpenGL between them: `glViewport`, `glClearColor` with the bits of its floats, and
  -- `glClear` of the colours
  viewport : ℤ → ℤ → ℤ → ℤ → GlfwCall
  clear_color : ℕ → ℕ → ℕ → ℕ → GlfwCall
  clear_colors : GlfwCall

-- the value of `GLFW_OPENGL_CORE_PROFILE`, which window the `n`th creation returns, the current
-- window, and whether a window is to be closed, after these calls
pub record WindowLibrary : Type 0 where
  pub core_profile : ℕ
  pub created_window : ℕ → Option ℕ
  pub current_context : List GlfwCall → Option ℕ
  pub window_should_close : ℕ → List GlfwCall → Bool

pub record Screen : Type 0 where
  pub created : ℕ
  pub calls : List GlfwCall

pub record WindowContext : Type 0 where
  pub width : ℤ
  pub height : ℤ
  pub title : String
  pub window : ℕ

abbrev pub call : GlfwCall → Exec Screen (Unit {0})
call c = modify λ s. record s { calls = c ∷ s.calls }

unfoldable pub framebuffer_size_callback : ℕ → ℤ → ℤ → Exec Screen (Unit {0})
framebuffer_size_callback window width height = call (viewport (pos 0) (pos 0) width height)

module _ (l : WindowLibrary) where
  abbrev create : ℤ → ℤ → String → Exec Screen (Option ℕ)
  create width height title s = (
    ok (l.created_window s.created),
    record { created = suc s.created; calls = create_window width height title ∷ s.calls },
  )

  -- the test of the window for a null pointer
  abbrev with_window : ℤ → ℤ → String → Option ℕ → Exec Screen WindowContext
  with_window width height title none = raise window_failed
  with_window width height title (some window) =
      pure (record { width = width; height = height; title = title; window = window })

  -- the constructor
  unfoldable pub window_context : ℤ → ℤ → String → Exec Screen WindowContext
  unfolding ◌>>=◌
  window_context width height title = do
    call init
    call (window_hint context_version_major 3)
    call (window_hint context_version_minor 3)
    call (window_hint opengl_profile l.core_profile)
    window ← create width height title
    context ← with_window width height title window
    call (make_context_current context.window)
    call (set_framebuffer_size_callback context.window)
    pure context

  -- the copy constructor, which creates a window of its own
  unfoldable pub copy : WindowContext → Exec Screen WindowContext
  unfolding ◌>>=◌
  copy other = do
    window ← create other.width other.height other.title
    with_window other.width other.height other.title window

  abbrev is_window : Option ℕ → ℕ → Bool
  is_window none window = false
  is_window (some current) window = nat_eqb current window

  unfoldable pub is_current_context : WindowContext → Exec Screen Bool
  is_current_context w = gets λ s. is_window (l.current_context s.calls) w.window

  unfoldable pub should_close : WindowContext → Exec Screen Bool
  should_close w = gets λ s. l.window_should_close w.window s.calls

-- the destructor
unfoldable pub destroy : WindowContext → Exec Screen (Unit {0})
destroy w = call terminate

-- the copy assignment, which is the default one
unfoldable pub assign_from : WindowContext → WindowContext → WindowContext
assign_from other w = other

unfoldable pub make_current_context : WindowContext → Exec Screen (Unit {0})
make_current_context w = call (make_context_current w.window)

unfoldable pub update_events : Exec Screen (Unit {0})
update_events = call poll_events

unfoldable pub swap_window_buffers : WindowContext → Exec Screen (Unit {0})
swap_window_buffers w = call (swap_buffers w.window)
