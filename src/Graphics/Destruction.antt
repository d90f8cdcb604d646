-- ===== src/Graphics/Destruction.antt =====
-- Which textures the destructor deletes.
use bento_box.Base.{
  ℕ, ◌<◌, ◌≤◌, ◌≡◌, ◌≢◌, refl, ◌∙◌, Bool, true, false, ◌||◌, String, List, [], ◌∷◌, none, arith,
  nat_eqb, Bool-cases, Option-cases, inl, inr,
}
use bento_box.Base.Classes.{string_eq}
use bento_box.Exec.{err, texture_failed, gets, modify, pure, ◌>>=◌}
use bento_box.Std.Map.{Map, lookup, put, without}
use bento_box.Graphics.{
  GraphicsLibrary, GraphicsContext, delete_textures, load_texture2d, delete_loop, destroy,
}
use bento_box.Graphics.Cache.{fresh, deletes, generates, loads, load_cached, load-Fails, load-Loads}

-- Whether the cache holds the texture `t`.
abbrev pub caches : Map String ℕ → ℕ → Bool
caches [] t = false
caches ((path, u) ∷ rest) t = nat_eqb u t || caches rest t

delete_loop-deletes :
    (cache : Map String ℕ) (g : GraphicsContext) (t : ℕ)
    → deletes (delete_loop cache g).1.calls t ≡ (caches cache t || deletes g.calls t)
unfolding delete_loop modify pure ◌>>=◌
delete_loop-deletes [] g t = ground arith
delete_loop-deletes ((path, u) ∷ rest) g t =
    ground (arith, delete_loop-deletes rest (record g { calls = delete_textures u ∷ g.calls }) t)

destroy-deletes :
    (g : GraphicsContext) (t : ℕ)
    → deletes (destroy g).1.calls t ≡ (caches g.texture_cache t || deletes g.calls t)
unfolding destroy modify gets ◌>>=◌
destroy-deletes g t = delete_loop-deletes g.texture_cache _ t

caches-without :
    (path : String) (m : Map String ℕ) (t : ℕ)
    → caches m t ≡ false
    → caches (without path m) t ≡ false
unfolding without
caches-without path [] t h = refl
caches-without path ((other, u) ∷ rest) t h =
    ground (arith, h, caches-without path rest t (ground (arith, h)))

module _ (l : GraphicsLibrary)
    (injective : (i j : ℕ) → l.texture_id i ≡ l.texture_id j → i ≡ j) where
  -- The `k`th texture is neither in the cache nor deleted.
  record Lost (k : ℕ) (g : GraphicsContext) : Type 0 where
    uncached : caches g.texture_cache (l.texture_id k) ≡ false
    undeleted : deletes g.calls (l.texture_id k) ≡ false

  put-Lost :
      (k n : ℕ) (path : String) (m : Map String ℕ)
      → n ≢ k
      → caches m (l.texture_id k) ≡ false
      → caches (put path (l.texture_id n) m) (l.texture_id k) ≡ false
  unfolding put
  put-Lost k n path m differ h = elim (Bool-cases (nat_eqb (l.texture_id n) (l.texture_id k))) [
    | inl same ↦ absurd (differ (injective n k (ground arith)))
    | inr apart ↦ rw apart (caches-without path m (l.texture_id k) h)
  ]

  load-Lost :
      (k : ℕ) (path : String) (g : GraphicsContext)
      → (g.generated ≡ k → (load_texture2d l path g).1.generated ≤ k)
      → Lost k g
      → Lost k (load_texture2d l path g).1
  load-Lost k path g later h = elim (Option-cases (lookup path g.texture_cache)) [
    | inr (t, e) ↦ rw (load_cached l path t g e) h
    | inl e ↦ elim (Option-cases (l.load_image path)) [
      | inl missing ↦
          let f = load-Fails l path g e missing in
          record {
            uncached = rw f.cache h.uncached;
            undeleted = f.kept (l.texture_id k) ∙ h.undeleted;
          }
      | inr (image, i) ↦
          let f = load-Loads l path image g e i in
          record {
            uncached = rw f.cache (
                put-Lost k g.generated path g.texture_cache
                  (λ e. absurd (omega (arith, later e, f.generated, e))) h.uncached);
            undeleted = f.kept (l.texture_id k) ∙ h.undeleted;
          }
    ]
  ]

  load_generates :
      (path : String) (g : GraphicsContext) → (g.generated ≤ (load_texture2d l path g).1.generated)
  load_generates path g = elim (Option-cases (lookup path g.texture_cache)) [
    | inr (t, e) ↦ rw (load_cached l path t g e) (omega arith)
    | inl e ↦ elim (Option-cases (l.load_image path)) [
      | inl missing ↦ omega (arith, (load-Fails l path g e missing).generated)
      | inr (image, i) ↦ omega (arith, (load-Loads l path image g e i).generated)
    ]
  ]

  loads_generates :
      (paths : List String) (g : GraphicsContext) → g.generated ≤ (loads l paths g).generated
  unfolding loads
  loads_generates [] g = omega arith
  loads_generates (path ∷ rest) g =
      omega (arith, load_generates path g, loads_generates rest (load_texture2d l path g).1)

  -- What was lost stays lost, since only new textures are put into the cache.
  loads-Lost :
      (k : ℕ) (paths : List String) (g : GraphicsContext)
      → k < g.generated
      → Lost k g
      → Lost k (loads l paths g)
  unfolding loads
  loads-Lost k [] g old h = h
  loads-Lost k (path ∷ rest) g old h =
      loads-Lost k rest (load_texture2d l path g).1 (omega (arith, load_generates path g))
        (load-Lost k path g (λ e. absurd (omega (arith, e))) h)

  -- A texture that is still to be generated.
  loads_new :
      (k : ℕ) (paths : List String) (g : GraphicsContext)
      → (loads l paths g).generated ≤ k
      → Lost k g
      → Lost k (loads l paths g)
  unfolding loads
  loads_new k [] g new h = h
  loads_new k (path ∷ rest) g new h = loads_new k rest (load_texture2d l path g).1 new (
      load-Lost k path g (λ e. omega (arith, new, loads_generates rest (load_texture2d l path g).1))
        h)

  -- A load of a file that cannot be read, after any loads in a fresh context, throws after it
  -- generated a texture. Whatever is loaded later, the destructor does not delete this texture.
  -- (OpenGL is assumed to give each texture an id of its own.)
  pub destroy-loads :
      (path : String) (before later : List String)
      → lookup path (loads l before fresh).texture_cache ≡ none
      → l.load_image path ≡ none
      → ((load_texture2d l path (loads l before fresh)).0 ≡ err texture_failed)
        × (generates
              (load_texture2d l path (loads l before fresh)).1.calls
              (l.texture_id (loads l before fresh).generated)
            ≡ true)
        × (deletes
              (destroy (loads l later (load_texture2d l path (loads l before fresh)).1)).1.calls
              (l.texture_id (loads l before fresh).generated)
            ≡ false)
  destroy-loads path before later h missing =
      let g = loads l before fresh in
      let f = load-Fails l path g h missing in
      let new =
        loads_new g.generated before fresh (omega arith)
          (record { uncached = refl; undeleted = refl }) in
      let lost : Lost g.generated (load_texture2d l path g).1 = record {
        uncached = rw f.cache new.uncached;
        undeleted = f.kept (l.texture_id g.generated) ∙ new.undeleted;
      } in
      let still =
        loads-Lost g.generated later (load_texture2d l path g).1 (omega (arith, f.generated))
          lost in
      (
        f.raised,
        f.made,
        destroy-deletes (loads l later (load_texture2d l path g).1) (l.texture_id g.generated)
            ∙ rw (still.uncached, still.undeleted) refl,
      )
