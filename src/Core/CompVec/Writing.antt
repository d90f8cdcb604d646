-- ===== src/Core/CompVec/Writing.antt =====
-- A write through the reference that `at` returns.
use bento_box.Base.{
  ℕ, ◌≡◌, refl, true, Option, none, some, arith, get_elem?, set, if◌then◌else◌, nat_eqb, length-set,
  get_elem?-set_self, get_elem?-set_ne, Option-cases, inl, inr,
}
use bento_box.Base.Classes.{nat_eq}
use bento_box.Exec.{ok}
use bento_box.Std.Map.{lookup, at as map_find}
use bento_box.Core.Component.{Component}
use bento_box.Core.CompVec.{CompVec, is_active_check, write, size}
use bento_box.Core.CompVec.Invariant.{IsWellFormed, active_at-lt}
use bento_box.Core.CompVec.Refinement.{view}
use bento_box.Core.CompVec.Dense.{IsDense}

module _ {A : Type 0} ⦃k : Component A⦄ where
  abbrev pub written : CompVec A → ℕ → A → CompVec A
  written c i val = record c { vec = set c.vec i val }

  -- An id in use has a place.
  place :
      (c : CompVec A) (id : ℕ) (old : A)
      → view c id ≡ some old
      → (i : ℕ) × (lookup id c.id_to_index ≡ some i) × (get_elem? c.vec i ≡ some old)
  place c id old h = elim (Option-cases (lookup id c.id_to_index)) [
    | inl e ↦ absurd (ground arith)
    | inr (i, e) ↦ (i, e, ground arith)
  ]

  view_at :
      (c : CompVec A) (id i j : ℕ) (val : A) (o : Option ℕ)
      → IsWellFormed c
      → lookup id c.id_to_index ≡ some i
      → lookup j c.id_to_index ≡ o
      → view (written c i val) j ≡ (if nat_eqb id j then some val else view c j)
  view_at c id i j val none v h e = ground arith
  view_at c id i j val (some p) v h e = ground (
    arith,
    v.apart id j i,
    active_at-lt c.vec i (v.placed id i h),
    get_elem?-set_self c.vec i val,
    get_elem?-set_ne c.vec i p val,
  )

  written-IsWellFormed :
      (c : CompVec A) (id i : ℕ) (val : A)
      → k.is_active val ≡ true
      → IsWellFormed c
      → lookup id c.id_to_index ≡ some i
      → IsWellFormed (written c i val)
  written-IsWellFormed c id i val active v h = record {
    given = v.given;
    placed = λ j p e. ground (
      arith,
      v.placed j p e,
      active_at-lt c.vec i (v.placed id i h),
      get_elem?-set_self c.vec i val,
      get_elem?-set_ne c.vec i p val,
    );
    apart = v.apart;
    free = λ p q. omega (arith, length-set c.vec i val, v.free p q);
    unused = v.unused;
    distinct = v.distinct;
    unique = v.unique;
  }

  -- Writing an active component at an id in use: the id reads the component from then on, and every
  -- other id what it read before.
  pub record Writes (c : CompVec A) (id : ℕ) (val : A) : Type 0 where
    pub after : CompVec A
    pub returned : write c id val ≡ ok after
    pub last_id : after.last_id ≡ c.last_id
    pub sized : size after ≡ size c
    pub reads : (j : ℕ) → view after j ≡ (if nat_eqb id j then some val else view c j)
    pub dense : IsDense after

  pub write-Writes :
      (c : CompVec A) (id : ℕ) (old val : A)
      → k.is_active val ≡ true
      → IsDense c
      → view c id ≡ some old
      → Writes c id val
  unfolding write is_active_check map_find size
  write-Writes c id old val active d h =
      let (i, e, f) = place c id old h in
      let v = d.well_formed in
      record {
        after = written c i val;
        returned = ground (arith, v.placed id i e);
        last_id = refl;
        sized = refl;
        reads = λ j. view_at c id i j val (lookup j c.id_to_index) v e refl;
        dense = record {
          well_formed = written-IsWellFormed c id i val active v e;
          counted = d.counted;
          in_use = λ j.
              rw (view_at c id i j val (lookup j c.id_to_index) v e refl)
                (ground (arith, d.in_use j, d.in_use id, h));
        };
      }

  -- A component behind an id in use is active.
  pub view-is_active :
      (c : CompVec A) (id : ℕ) (old : A) → IsDense c → view c id ≡ some old → k.is_active old ≡ true
  view-is_active c id old d h =
      let (i, e, f) = place c id old h in ground (arith, d.well_formed.placed id i e, f)
