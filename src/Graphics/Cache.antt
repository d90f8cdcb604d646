-- ===== src/Graphics/Cache.antt =====
-- What the texture cache promises, and the textures that it loses.
use bento_box.Base.{
  ℕ, suc, ◌≡◌, refl, Bool, true, false, ◌||◌, String, List, [], ◌∷◌, none, some, arith, nat_eqb,
  str_eq_iff, Option-cases, inl, inr,
}
use bento_box.Base.Classes.{string_eq}
use bento_box.Exec.{ok, err, texture_failed, gets, modify, pure, raise, ◌>>=◌}
use bento_box.Std.Map.{lookup, put}
use bento_box.Std.Map.Laws.{lookup-put}
use bento_box.Graphics.{
  GraphicsLibrary, GraphicsContext, Image, GlCall, gen_textures, delete_textures, load_texture2d,
}

-- a context in which nothing was loaded
abbrev pub fresh : GraphicsContext
fresh = record { texture_cache = []; generated = 0; calls = [] }

-- The calls that delete, and those that generate, the texture `t`.
abbrev pub deletes : List GlCall → ℕ → Bool
deletes [] t = false
deletes (delete_textures u ∷ rest) t = nat_eqb u t || deletes rest t
deletes (c ∷ rest) t = deletes rest t

abbrev pub generates : List GlCall → ℕ → Bool
generates [] t = false
generates (gen_textures u ∷ rest) t = nat_eqb u t || generates rest t
generates (c ∷ rest) t = generates rest t

module _ (l : GraphicsLibrary) where
  -- The context after these loads, in turn; the caller caught what they threw.
  unfoldable pub loads : List String → GraphicsContext → GraphicsContext
  unfolding load_texture2d
  loads [] g = g
  loads (path ∷ rest) g = loads rest (load_texture2d l path g).1

  -- The three ways in which a load can go.
  pub load_cached :
      (path : String) (t : ℕ) (g : GraphicsContext)
      → lookup path g.texture_cache ≡ some t
      → load_texture2d l path g ≡ (ok t, g)
  unfolding load_texture2d gets pure ◌>>=◌
  load_cached path t g h = rw h refl

  pub record Fails (g : GraphicsContext) (path : String) : Type 0 where
    pub raised : (load_texture2d l path g).0 ≡ err texture_failed
    pub cache : (load_texture2d l path g).1.texture_cache ≡ g.texture_cache
    pub generated : (load_texture2d l path g).1.generated ≡ suc g.generated
    pub made : generates (load_texture2d l path g).1.calls (l.texture_id g.generated) ≡ true
    pub kept : (t : ℕ) → deletes (load_texture2d l path g).1.calls t ≡ deletes g.calls t

  pub load-Fails :
      (path : String) (g : GraphicsContext)
      → lookup path g.texture_cache ≡ none
      → l.load_image path ≡ none
      → Fails g path
  unfolding load_texture2d gets modify pure raise ◌>>=◌
  load-Fails path g h e = record {
    raised = rw (h, e) refl;
    cache = rw (h, e) refl;
    generated = rw (h, e) refl;
    made = rw (h, e) (ground arith);
    kept = λ t. rw (h, e) refl;
  }

  pub record Loads (g : GraphicsContext) (path : String) : Type 0 where
    pub returned : (load_texture2d l path g).0 ≡ ok (l.texture_id g.generated)
    pub cache :
        (load_texture2d l path g).1.texture_cache
        ≡ put path (l.texture_id g.generated) g.texture_cache
    pub generated : (load_texture2d l path g).1.generated ≡ suc g.generated
    pub made : generates (load_texture2d l path g).1.calls (l.texture_id g.generated) ≡ true
    pub kept : (t : ℕ) → deletes (load_texture2d l path g).1.calls t ≡ deletes g.calls t

  pub load-Loads :
      (path : String) (image : Image) (g : GraphicsContext)
      → lookup path g.texture_cache ≡ none
      → l.load_image path ≡ some image
      → Loads g path
  unfolding load_texture2d gets modify pure raise ◌>>=◌
  load-Loads path image g h e = record {
    returned = rw (h, e) refl;
    cache = rw (h, e) refl;
    generated = rw (h, e) refl;
    made = rw (h, e) (ground arith);
    kept = λ t. rw (h, e) refl;
  }

  load_stores :
      (path : String) (t : ℕ) (g : GraphicsContext)
      → (load_texture2d l path g).0 ≡ ok t
      → lookup path (load_texture2d l path g).1.texture_cache ≡ some t
  load_stores path t g e = elim (Option-cases (lookup path g.texture_cache)) [
    | inr (t', h) ↦ ground (arith, load_cached path t' g h)
    | inl h ↦ elim (Option-cases (l.load_image path)) [
      | inl missing ↦ let f = load-Fails path g h missing in absurd (ground (arith, f.raised))
      | inr (image, i) ↦
          let f = load-Loads path image g h i in
          rw f.cache (
            ground (
              arith,
              f.returned,
              lookup-put path path (l.texture_id g.generated) g.texture_cache,
              str_eq_iff path path,
            ))
    ]
  ]

  load_keeps :
      (path other : String) (t : ℕ) (g : GraphicsContext)
      → lookup path g.texture_cache ≡ some t
      → lookup path (load_texture2d l other g).1.texture_cache ≡ some t
  load_keeps path other t g k = elim (Option-cases (lookup other g.texture_cache)) [
    | inr (t', h) ↦ rw (load_cached other t' g h) k
    | inl h ↦ elim (Option-cases (l.load_image other)) [
      | inl missing ↦ let f = load-Fails other g h missing in rw f.cache k
      | inr (image, i) ↦
          let f = load-Loads other image g h i in
          rw f.cache (
            ground (
              arith,
              h,
              k,
              lookup-put other path (l.texture_id g.generated) g.texture_cache,
              str_eq_iff other path,
            ))
    ]
  ]

  loads_keeps :
      (path : String) (t : ℕ) (paths : List String) (g : GraphicsContext)
      → lookup path g.texture_cache ≡ some t
      → lookup path (loads paths g).texture_cache ≡ some t
  unfolding loads
  loads_keeps path t [] g h = h
  loads_keeps path t (other ∷ rest) g h =
      loads_keeps path t rest (load_texture2d l other g).1 (load_keeps path other t g h)

  -- After a load that returned a texture, and any further loads, loading the same file again
  -- returns the same texture, makes no call of OpenGL and changes nothing.
  pub load_texture2d-loads :
      (path : String) (t : ℕ) (paths : List String) (g : GraphicsContext)
      → (load_texture2d l path g).0 ≡ ok t
      → load_texture2d l path (loads paths (load_texture2d l path g).1)
        ≡ (ok t, loads paths (load_texture2d l path g).1)
  load_texture2d-loads path t paths g e =
      load_cached path t (loads paths (load_texture2d l path g).1)
        (loads_keeps path t paths (load_texture2d l path g).1 (load_stores path t g e))
