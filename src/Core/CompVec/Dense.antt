-- ===== src/Core/CompVec/Dense.antt =====
-- A component vector from which nothing was removed: its ids are 1 to its size.
use bento_box.Base.{ℕ, ◌+◌, ◌≤◌, ◌<◌, ◌≡◌, refl, true, ◌&&◌, arith, leb, Option-cases, inl, inr}
use bento_box.Base.Classes.{nat_eq}
use bento_box.Std.Map.{lookup, is_some}
use bento_box.Std.Map.Laws.{length-without, length-insert}
use bento_box.Core.Component.{Component}
use bento_box.Core.CompVec.{CompVec, empty, id_mod, size, add, remove}
use bento_box.Core.CompVec.Invariant.{
  IsWellFormed, empty-IsWellFormed, add-IsWellFormed, lookup-next, adds,
}
use bento_box.Core.CompVec.Refinement.{view, view-add}
use bento_box.Core.CompVec.Removal.{removes}

module _ {A : Type 0} ⦃k : Component A⦄ where
  pub record IsDense (c : CompVec A) : Type 0 where
    pub well_formed : IsWellFormed c
    pub counted : size c ≡ c.last_id
    pub in_use : (id : ℕ) → is_some (view c id) ≡ (leb 1 id && leb id c.last_id)

  pub empty-IsDense : IsDense empty
  unfolding size lookup
  empty-IsDense = record {
    well_formed = empty-IsWellFormed;
    counted = refl;
    in_use = λ id. ground arith;
  }

  -- Adding keeps the ids dense, while there are ids left.
  pub add-IsDense :
      (c : CompVec A) (val : A)
      → k.is_active val ≡ true
      → IsDense c
      → c.last_id + 1 < id_mod
      → IsDense (add val c).1
  unfolding size
  add-IsDense c val active d small = record {
    well_formed = add-IsWellFormed c val active d.well_formed small;
    counted = counted_after;
    in_use = λ id. in_use_after id;
  }
    where
      last_after : (add val c).1.last_id ≡ c.last_id + 1
      last_after = let (p, q, ys, e, r) = adds c val d.well_formed small in rw e refl

      counted_after : size (add val c).1 ≡ (add val c).1.last_id
      counted_after =
          let (p, q, ys, e, r) = adds c val d.well_formed small in
          rw e (
            omega (
              arith,
              length-insert (c.last_id + 1) p c.id_to_index (lookup-next c d.well_formed),
              d.counted,
            ))

      in_use_after :
          (id : ℕ) → is_some (view (add val c).1 id) ≡ (leb 1 id && leb id (add val c).1.last_id)
      in_use_after id =
          rw (last_after, (view-add c val d.well_formed small).2 id) (ground (arith, d.in_use id))

  -- Removing an id in use takes one off the size.
  pub size-remove :
      (vec : CompVec A) (id : ℕ)
      → IsDense vec
      → 0 < id
      → id ≤ vec.last_id
      → size (remove id vec).1 + 1 ≡ vec.last_id
  unfolding size
  size-remove vec id d low high = elim (Option-cases (lookup id vec.id_to_index)) [
    | inl e ↦ absurd (ground (arith, d.in_use id))
    | inr (i, e) ↦
        let (a, f, r) = removes vec id i d.well_formed e in
        rw r (omega (arith, length-without id i vec.id_to_index d.well_formed.unique e, d.counted))
  ]
