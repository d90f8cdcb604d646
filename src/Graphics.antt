-- ===== src/Graphics.antt =====
-- sim/lib/core/include/core/graphicsContext.h and sim/lib/core/src/graphicsContext.cpp: the textures
-- that were loaded, by the path of their file. OpenGL and stb_image are a parameter; the calls of
-- OpenGL are written down in order, the last one first.
pub mod Cache
pub mod Destruction
use bento_box.Base.{ℕ, suc, Bool, String, List, [], ◌∷◌, Option, none, some, if◌then◌else◌, nat_eqb}
use bento_box.Base.Int.{ℤ}
use bento_box.Base.Classes.{string_eq}
use bento_box.Exec.{Exec, ok, texture_failed, loader_failed, modify, gets, pure, raise, ◌>>=◌, ◌>>◌}
use bento_box.Std.Map.{Map, lookup, put}

-- what `stbi_load` reads from a file
pub record Image : Type 0 where
  pub width : ℤ
  pub height : ℤ
  pub nr_channels : ℕ
  pub pixels : List ℕ

-- `gladLoadGLLoader`, the id that the `n`th `glGenTextures` writes, and `stbi_load`, which returns a
-- null pointer for a file that it cannot read
pub record GraphicsLibrary : Type 0 where
  pub loads_functions : Bool
  pub texture_id : ℕ → ℕ
  pub load_image : String → Option Image

pub data TexParameter : Type 0 where
  wrap_s wrap_t min_filter mag_filter : TexParameter

pub data TexSetting : Type 0 where
  repeat linear : TexSetting

pub data Format : Type 0 where
  rgba rgb red : Format

pub data GlCall : Type 0 where
  gen_textures bind_texture : ℕ → GlCall
  tex_parameter : TexParameter → TexSetting → GlCall
  -- with the internal format and the format of the data
  tex_image : Format → Format → Image → GlCall
  generate_mipmap image_free : GlCall
  delete_textures : ℕ → GlCall

pub record GraphicsContext : Type 0 where
  pub texture_cache : Map String ℕ
  -- how many textures were generated
  pub generated : ℕ
  pub calls : List GlCall

abbrev call : GlCall → Exec GraphicsContext (Unit {0})
call c = modify λ g. record g { calls = c ∷ g.calls }

module _ (l : GraphicsLibrary) where
  -- the constructor, in a context of OpenGL in which no texture was generated
  unfoldable pub graphics_context : Exec GraphicsContext (Unit {0})
  graphics_context = if l.loads_functions then pure tt else raise loader_failed

  abbrev generate : Exec GraphicsContext ℕ
  generate g =
      let id = l.texture_id g.generated in
      (ok id, record g { generated = suc g.generated; calls = gen_textures id ∷ g.calls })

  abbrev image_format : ℕ → Format × Format
  image_format nr_channels =
      if nat_eqb nr_channels 4
      then (rgba, rgba)
      else if nat_eqb nr_channels 3
      then (rgb, rgb)
      else (rgba, red)

  abbrev upload : String → ℕ → Option Image → Exec GraphicsContext ℕ
  upload filepath texture none = raise texture_failed
  upload filepath texture (some image) = do
    call (tex_image (image_format image.nr_channels).0 (image_format image.nr_channels).1 image)
    call generate_mipmap
    modify λ g. record g { texture_cache = put filepath texture g.texture_cache }
    call image_free
    pure texture

  abbrev load_new : String → Exec GraphicsContext ℕ
  load_new filepath = do
    texture ← generate
    call (bind_texture texture)
    call (tex_parameter wrap_s repeat)
    call (tex_parameter wrap_t repeat)
    call (tex_parameter min_filter linear)
    call (tex_parameter mag_filter linear)
    upload filepath texture (l.load_image filepath)

  abbrev load_found : String → Option ℕ → Exec GraphicsContext ℕ
  load_found filepath (some texture) = pure texture
  load_found filepath none = load_new filepath

  unfoldable pub load_texture2d : String → Exec GraphicsContext ℕ
  unfolding ◌>>=◌ put
  load_texture2d filepath = do
    cache ← gets (λ g. g.texture_cache)
    load_found filepath (lookup filepath cache)

-- the loop of the destructor
delete_loop : Map String ℕ → Exec GraphicsContext (Unit {0})
unfolding ◌>>=◌
delete_loop [] = pure tt
delete_loop ((path, texture) ∷ rest) = do call (delete_textures texture); delete_loop rest

-- the destructor
unfoldable pub destroy : Exec GraphicsContext (Unit {0})
unfolding ◌>>=◌ delete_loop
destroy = do call (bind_texture 0); cache ← gets (λ g. g.texture_cache); delete_loop cache

-- The copy assignment, but for the window that both refer to, which is assigned as well.
unfoldable pub assign_from : GraphicsContext → GraphicsContext → GraphicsContext
assign_from other g = record g { texture_cache = other.texture_cache }
